-- ===== src/RateLimit/Keys.antt =====
-- The limiter of backlogg/core/rate_limit.py keeps its keys apart.
use backlogg.Prelude.{
  ℕ, true, List, [], ◌∷◌, ◌≡◌, refl, arith, if◌then◌else◌, inl, inr, Bool-cases, ap, ap₂, ◌∙◌,
  String, str_eq, length, ◌≤◌, ◌<◌, All,
}
use backlogg.RateLimit.Window.{IsChronological}
use backlogg.RateLimit.Bound.{up_to, length-let_through-le}
use text.Mathlib.TextEquality.{eq_iff}
use backlogg.RateLimit.{Hits, Check, store, consume, check, let_through, let_keys_through}

-- The times of the calls with a key.
unfoldable pub times_of : String → List Check → List ℕ
times_of key [] = []
times_of key (c ∷ calls) =
    let rest = times_of key calls in if str_eq c.key key then c.now ∷ rest else rest

-- The calls with the key have this limit and this window.
abbrev pub HasRate : String → ℕ → ℕ → List Check → Type 0
HasRate key limit window =
    All (λ c. str_eq c.key key ≡ true → (c.limit ≡ limit) × (c.window ≡ window))

-- The calls with other keys do not change what the limiter does with a key.
pub times_of-let_keys_through :
    (second limit window : ℕ) (key : String) (calls : List Check) (all : Hits)
    → HasRate key limit window calls
    → times_of key (let_keys_through second calls all)
      ≡ let_through second limit window (times_of key calls) (all key)
unfolding times_of let_keys_through let_through check
times_of-let_keys_through second limit window key [] all rate = refl
times_of-let_keys_through second limit window key (c ∷ calls) all rate =
    let all' = store c.key (consume second c.now c.limit c.window (all c.key)).1 all in
    let rest = times_of-let_keys_through second limit window key calls all' rate.1 in
    elim (Bool-cases (str_eq c.key key)) [
      | inl same ↦
          let (l, w) = rate.0 same in
          let one =
            ap (λ hits. consume second c.now c.limit c.window hits)
              (ap all ((eq_iff c.key key).0 same))
            ∙ ap₂ (λ a b. consume second c.now a b (all key)) l w in
          ground (arith, rest, same, one)
      | inr other ↦ ground (arith, rest, other)
    ]

-- A limiter that starts empty has let through at most `limit` calls of a key in the window that ends at
-- any instant, when the calls of that key have one rate and the clock does not go back between them,
-- whatever the calls of other keys are and whatever their rates.
pub let_keys_through-IsBounded :
    (second limit window at : ℕ) (key : String) (calls : List Check)
    → 0 < window
    → HasRate key limit window calls
    → IsChronological (times_of key calls)
    → length (up_to at window (times_of key (let_keys_through second calls (λ k. [])))) ≤ limit
let_keys_through-IsBounded second limit window at key calls wide rate order =
    rw (times_of-let_keys_through second limit window key calls (λ k. []) rate)
      (length-let_through-le second limit window at (times_of key calls) wide order)
