-- ===== src/Ratings/Rounding.antt =====
-- The two roundings to hundredths that backlogg/ratings/repository.py goes through: Python's `round`
-- on a Decimal, and PostgreSQL's `round` on a numeric. Both are of the quotient p / q of naturals.
use backlogg.Prelude.{
  ℕ, List, [], ◌∷◌, Option, none, some, ◌+◌, ◌*◌, ◌/◌, ◌%◌, ltb, if◌then◌else◌, length,
}

-- Ties go to the even neighbour.
unfoldable pub round_half_even : ℕ → ℕ → ℕ
round_half_even p q =
    if ltb (2 * (p % q)) q
    then p / q
    else if ltb q (2 * (p % q))
    then p / q + 1
    else p / q + (p / q) % 2

-- Ties go up.
unfoldable pub round_half_up : ℕ → ℕ → ℕ
round_half_up p q = if ltb (2 * (p % q)) q then p / q else p / q + 1

unfoldable pub sum : List ℕ → ℕ
sum [] = 0
sum (s ∷ ss) = s + sum ss

-- AVG of scores in tenths, in hundredths under a rounding; NULL over no rows.
unfoldable pub average : (ℕ → ℕ → ℕ) → List ℕ → Option ℕ
unfolding sum
average round [] = none
average round (s ∷ ss) = some (round (10 * sum (s ∷ ss)) (length (s ∷ ss)))
