-- ===== src/RateLimit/Bound.antt =====
-- The bound that the limiter of backlogg/core/rate_limit.py keeps in every window.
use backlogg.Prelude.{
  ℕ, ◌&&◌, List, [], ◌∷◌, ◌++◌, ◌≡◌, arith, ◌+◌, ◌<◌, ◌≤◌, ltb, leb, if◌then◌else◌, length, filter,
  inl, inr, Bool-cases,
}
use backlogg.RateLimit.{let_through}
use backlogg.RateLimit.Window.{
  IsChronological, in_window, may_pass, admit, let_through-eq-admit_new,
}

-- The hits at most `at` and less than a window before it.
abbrev pub up_to : ℕ → ℕ → List ℕ → List ℕ
up_to at window = filter (λ h. ltb at (h + window) && leb h at)

length-up_to-le :
    (at now window : ℕ) (past : List ℕ)
    → now ≤ at
    → length (up_to at window past) ≤ length (in_window now window past)
unfolding filter
length-up_to-le at now window [] le = omega arith
length-up_to-le at now window (h ∷ past) le = ground (arith, length-up_to-le at now window past le)

length-up_to-append :
    (at window h : ℕ) (past : List ℕ)
    → length (up_to at window (past ++ (h ∷ [])))
      ≡ length (up_to at window past) + (if ltb at (h + window) && leb h at then 1 else 0)
unfolding filter
length-up_to-append at window h [] = ground arith
length-up_to-append at window h (k ∷ past) = ground (arith, length-up_to-append at window h past)

-- Whichever hits come, the specification keeps to the limit in every window.
length-admit-le :
    (limit window at : ℕ) (times past : List ℕ)
    → length (up_to at window past) ≤ limit
    → length (up_to at window (admit limit window times past)) ≤ limit
unfolding admit
length-admit-le limit window at [] past few = few
length-admit-le limit window at (now ∷ times) past few =
    elim (Bool-cases (may_pass now limit window past)) [
      | inl pass ↦ rw pass (
          length-admit-le limit window at times (past ++ (now ∷ [])) (
            ground (
              arith,
              length-up_to-append at window now past,
              length-up_to-le at now window past,
              pass,
              few,
            )))
      | inr stop ↦ rw stop (length-admit-le limit window at times past few)
    ]

-- At most `limit` of the hits that a new limiter has let through lie in the window that ends there.
pub length-let_through-le :
    (second limit window at : ℕ) (times : List ℕ)
    → 0 < window
    → IsChronological times
    → length (up_to at window (let_through second limit window times [])) ≤ limit
unfolding filter
length-let_through-le second limit window at times wide order =
    rw (let_through-eq-admit_new second limit window times wide order)
      (length-admit-le limit window at times [] (omega arith))
