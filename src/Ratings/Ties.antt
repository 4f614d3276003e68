-- ===== src/Ratings/Ties.antt =====
-- What the two roundings of backlogg/ratings/repository.py have in common, and where they differ.
use backlogg.Prelude.{ℕ, ◌≡◌, ◌≢◌, ◌↔◌, ◌⊎◌, inl, inr, arith, ◌+◌, ◌*◌, ◌/◌, ◌%◌, ◌<◌, ◌≤◌}
use native.Mathlib.Nat.{div-add-mod, mod-lt}
use native.Mathlib.Decide.{ℕ_discrete}
use backlogg.Ratings.Rounding.{round_half_even, round_half_up}

-- v is a nearest integer to p / q.
abbrev pub IsNearest : ℕ → ℕ → ℕ → Type 0
IsNearest p q v = (2 * (v * q) ≤ 2 * p + q) × (2 * p ≤ 2 * (v * q) + q)

-- A rounding to one of the two neighbours, on the right side of one half.
abbrev IsNeighbour : ℕ → ℕ → ℕ → Type 0
IsNeighbour p q v = ((v ≡ p / q) × (2 * (p % q) ≤ q)) ⊎ ((v ≡ p / q + 1) × (q ≤ 2 * (p % q)))

IsNearest-of_neighbour : (p q : ℕ) {v : ℕ} → 0 < q → IsNeighbour p q v → IsNearest p q v
IsNearest-of_neighbour p q h (inl (e, low)) = rw e (omega (arith, div-add-mod p q, mod-lt p h))
IsNearest-of_neighbour p q h (inr (e, high)) = rw e (omega (arith, div-add-mod p q, mod-lt p h))

pub round_half_even-IsNearest : (p q : ℕ) → 0 < q → IsNearest p q (round_half_even p q)
unfolding round_half_even
round_half_even-IsNearest p q h = IsNearest-of_neighbour p q h (ground arith)

pub round_half_up-IsNearest : (p q : ℕ) → 0 < q → IsNearest p q (round_half_up p q)
unfolding round_half_up
round_half_up-IsNearest p q h = IsNearest-of_neighbour p q h (ground arith)

-- p / q lies half-way above an even integer.
abbrev pub IsEvenTie : ℕ → ℕ → Type 0
IsEvenTie p q = (2 * (p % q) ≡ q) × ((p / q) % 2 ≡ 0)

-- The roundings differ exactly at the even ties.
pub roundings_differ_iff : (p q : ℕ) → (round_half_even p q ≢ round_half_up p q) ↔ IsEvenTie p q
unfolding round_half_even round_half_up
roundings_differ_iff p q = (λ h. ground arith, λ h e. ground arith)

pub roundings_agree : (p q : ℕ) → ¬ IsEvenTie p q → round_half_even p q ≡ round_half_up p q
roundings_agree p q untied = elim (ℕ_discrete (round_half_even p q) (round_half_up p q)) [
  | yes same ↦ same
  | no differ ↦ absurd (untied ((roundings_differ_iff p q).0 differ))
]
