-- ===== src/RateLimit/Window.antt =====
-- The limiter of backlogg/core/rate_limit.py against a history of the hits that it let through.
use backlogg.Prelude.{
  ℕ, Bool, not, List, [], ◌∷◌, ◌++◌, ◌≡◌, refl, arith, ◌+◌, ◌<◌, ◌≤◌, ltb, leb, if◌then◌else◌,
  length, filter, All, inl, inr, Bool-cases, sym, ◌∙◌,
}
use backlogg.Prelude.Rows.{All-append, All-map}
use backlogg.RateLimit.{slide, decide_hit, consume, let_through}
use mathlib.Core.List.{append-nil, append_assoc}

-- Times that never fall.
abbrev pub IsChronological : List ℕ → Type 0
IsChronological [] = Unit
IsChronological (h ∷ hits) = All (λ k. h ≤ k) hits × IsChronological hits

-- The hits of a history that are in the window which ends at `now`.
abbrev pub in_window : ℕ → ℕ → List ℕ → List ℕ
in_window now window = filter (λ h. ltb now (h + window))

all-in_window :
    (now window h : ℕ) (hits : List ℕ)
    → now < h + window
    → All (λ k. h ≤ k) hits
    → in_window now window hits ≡ hits
unfolding filter
all-in_window now window h [] fresh later = refl
all-in_window now window h (k ∷ hits) fresh later =
    ground (arith, all-in_window now window h hits fresh later.1)

-- Popping from the left is filtering, since the times do not fall.
pub slide-eq-in_window :
    (now window : ℕ) (hits : List ℕ)
    → IsChronological hits
    → slide now window hits ≡ in_window now window hits
unfolding slide filter
slide-eq-in_window now window [] h = refl
slide-eq-in_window now window (k ∷ hits) h = elim (Bool-cases (leb (k + window) now)) [
  | inl old ↦ ground (arith, slide-eq-in_window now window hits h.1)
  | inr new ↦ ground (arith, all-in_window now window k hits (ground arith) h.0)
]

-- A window that has moved on has forgotten no hit that it still covers.
in_window_twice :
    (earlier now window : ℕ) (hits : List ℕ)
    → earlier ≤ now
    → in_window now window (in_window earlier window hits) ≡ in_window now window hits
unfolding filter
in_window_twice earlier now window [] le = refl
in_window_twice earlier now window (h ∷ hits) le =
    ground (arith, in_window_twice earlier now window hits le)

All-filter :
    (now window : ℕ) (P : ℕ → Type 0) (hits : List ℕ)
    → All P hits
    → All P (in_window now window hits)
unfolding filter
All-filter now window P [] h = tt
All-filter now window P (k ∷ hits) h = ground (arith, All-filter now window P hits h.1)

in_window-append :
    (now window h : ℕ) (hits : List ℕ)
    → in_window now window (hits ++ (h ∷ []))
      ≡ in_window now window hits ++ (if ltb now (h + window) then h ∷ [] else [])
unfolding filter
in_window-append now window h [] = ground arith
in_window-append now window h (k ∷ hits) = ground (arith, in_window-append now window h hits)

-- The specification keeps every hit that was let through, and counts those in the window.
abbrev pub may_pass : ℕ → ℕ → ℕ → List ℕ → Bool
may_pass now limit window past = not (leb limit (length (in_window now window past)))

unfoldable pub admit : ℕ → ℕ → List ℕ → List ℕ → List ℕ
admit limit window [] past = past
admit limit window (now ∷ times) past =
    admit limit window times (if may_pass now limit window past then past ++ (now ∷ []) else past)

-- What the limiter holds after a check at `last` stands for the whole history.
pub record Represents (window last : ℕ) (hits past : List ℕ) : Type 0 where
  pub kept : hits ≡ in_window last window past
  pub ordered : IsChronological past
  pub before : All (λ h. h ≤ last) past

filter-IsChronological :
    (now window : ℕ) (hits : List ℕ)
    → IsChronological hits
    → IsChronological (in_window now window hits)
unfolding filter
filter-IsChronological now window [] h = tt
filter-IsChronological now window (k ∷ hits) h = elim (Bool-cases (ltb now (k + window))) [
  | inl new ↦
      rw new
        (All-filter now window (λ j. k ≤ j) hits h.0, filter-IsChronological now window hits h.1)
  | inr old ↦ rw old (filter-IsChronological now window hits h.1)
]

IsChronological-append :
    (now : ℕ) (past : List ℕ)
    → IsChronological past
    → All (λ h. h ≤ now) past
    → IsChronological (past ++ (now ∷ []))
IsChronological-append now [] h before = (tt, tt)
IsChronological-append now (k ∷ past) h before =
    (All-append _ now past h.0 before.0, IsChronological-append now past h.1 before.1)

module _ (limit window last now : ℕ) (hits past : List ℕ) (r : Represents window last hits past)
    (later : last ≤ now) where
  -- What is left after the sliding is what the history has in the window.
  pub slide-Represents : slide now window hits ≡ in_window now window past
  slide-Represents = rw r.kept (
      slide-eq-in_window now window _ (filter-IsChronological last window past r.ordered)
      ∙ in_window_twice last now window past later)

  before-now : All (λ h. h ≤ now) past
  before-now = All-map _ _ past (λ h le. omega arith) r.before

  -- A check decides as the specification does, and keeps standing for the history.
  pub consume-refines :
      (second : ℕ)
      → 0 < window
      → let (result, hits') = consume second now limit window hits in
        (result.allowed ≡ may_pass now limit window past)
        × Represents window now hits'
            (if may_pass now limit window past then past ++ (now ∷ []) else past)
  unfolding consume decide_hit
  consume-refines second wide = elim (Bool-cases (leb limit (length (in_window now window past)))) [
    | inl full ↦
        rw (slide-Represents, full)
          (refl, record { kept = refl; ordered = r.ordered; before = before-now })
    | inr room ↦
        rw (slide-Represents, room)
          (
            refl,
            record {
              kept = ground (arith, in_window-append now window now past);
              ordered = IsChronological-append now past r.ordered before-now;
              before = All-append _ now past before-now (omega arith);
            },
          )
  ]

-- In order of time, the limiter lets through exactly the hits that the specification admits.
pub let_through-eq-admit :
    (second limit window last : ℕ) (times hits past : List ℕ)
    → 0 < window
    → IsChronological (last ∷ times)
    → Represents window last hits past
    → past ++ let_through second limit window times hits ≡ admit limit window times past
unfolding let_through admit
let_through-eq-admit second limit window last [] hits past wide order r = append-nil past
let_through-eq-admit second limit window last (now ∷ times) hits past wide order r =
    let (dec, rep) = consume-refines limit window last now hits past r (order.0.0) second wide in
    elim (Bool-cases (may_pass now limit window past)) [
      | inl pass ↦
          rw (dec, pass)
            (sym (append_assoc past (now ∷ []) _)
              ∙ let_through-eq-admit second limit window now times _ (past ++ (now ∷ [])) wide
                  order.1 (rw pass at rep))
      | inr stop ↦
          rw (dec, stop)
            (let_through-eq-admit second limit window now times _ past wide order.1
              (rw stop at rep))
    ]

All-zero : (times : List ℕ) → All (λ k. 0 ≤ k) times
All-zero [] = tt
All-zero (k ∷ times) = (omega arith, All-zero times)

-- A new limiter lets through what the specification admits from the beginning.
pub let_through-eq-admit_new :
    (second limit window : ℕ) (times : List ℕ)
    → 0 < window
    → IsChronological times
    → let_through second limit window times [] ≡ admit limit window times []
unfolding filter
let_through-eq-admit_new second limit window times wide order =
    let_through-eq-admit second limit window 0 times [] [] wide (All-zero times, order)
      (record { kept = refl; ordered = tt; before = tt })
