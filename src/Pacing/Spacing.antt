-- ===== src/Pacing/Spacing.antt =====
-- The rate that the pacer of backlogg/shared/pacing.py keeps.
use backlogg.Prelude.{
  ℕ, zero, suc, ◌&&◌, List, [], ◌∷◌, ◌≡◌, refl, arith, ◌+◌, ◌*◌, ◌≤◌, ◌<◌, ltb, leb, length, filter,
  Bool-cases, inl, inr,
}
use Prim.Native.Nat.{max}
use native.Mathlib.Nat.{le_trans}
use backlogg.Pacing.{wait, starts}

-- The starts before an instant.
abbrev before : ℕ → List ℕ → List ℕ
before end = filter (λ s. ltb s end)

-- The starts in the n intervals from `from` on.
abbrev pub within : ℕ → ℕ → ℕ → List ℕ → List ℕ
within interval from n = filter (λ s. leb from s && ltb s (from + n * interval))

length-before-le :
    (rest from n next_at : ℕ) (times : List ℕ)
    → from ≤ next_at
    → length (before (from + n * suc rest) (starts (suc rest) times next_at)) ≤ n
unfolding starts wait filter
length-before-le rest from n next_at [] free = omega arith
length-before-le rest from zero next_at (now ∷ times) free =
    ground (arith, length-before-le rest from zero (max now next_at + suc rest) times)
length-before-le rest from (suc n) next_at (now ∷ times) free = ground (
  arith,
  length-before-le rest (from + suc rest) n (max now next_at + suc rest) times,
  length-before-le rest from (suc n) (max now next_at + suc rest) times,
)

length-within-before :
    (interval from n : ℕ) (ss : List ℕ)
    → length (within interval from n ss) ≤ length (before (from + n * interval) ss)
unfolding filter
length-within-before interval from n [] = omega arith
length-within-before interval from n (s ∷ ss) =
    ground (arith, length-within-before interval from n ss)

-- A caller that waits for no slot that is free before it may take its own time for the next free slot.
starts-max :
    (rest now next_at : ℕ) (times : List ℕ)
    → starts (suc rest) (now ∷ times) next_at ≡ starts (suc rest) (now ∷ times) (max now next_at)
unfolding starts wait
starts-max rest now next_at times = rw max_again refl
  where
    max_again : max now (max now next_at) ≡ max now next_at
    max_again = omega arith

length-within-late :
    (rest from n now next_at : ℕ) (times : List ℕ)
    → from ≤ max now next_at
    → length (within (suc rest) from n (starts (suc rest) (now ∷ times) next_at)) ≤ n
length-within-late rest from n now next_at times late = rw (starts-max rest now next_at times) (
    le_trans
      (length-within-before (suc rest) from n (starts (suc rest) (now ∷ times) (max now next_at)))
      (length-before-le rest from n (max now next_at) (now ∷ times) late))

-- Whenever the callers come, at most n requests start in any n intervals.
pub length-within-le :
    (min_interval from n next_at : ℕ) (times : List ℕ)
    → 0 < min_interval
    → length (within min_interval from n (starts min_interval times next_at)) ≤ n
unfolding starts wait filter
length-within-le zero from n next_at times some_interval = omega (arith, some_interval)
length-within-le (suc rest) from n next_at [] some_interval = omega arith
length-within-le (suc rest) from n next_at (now ∷ times) some_interval =
    elim (Bool-cases (leb from (max now next_at))) [
      | inl late ↦ length-within-late rest from n now next_at times (ground (arith, late))
      | inr early ↦ ground (
        arith,
        length-within-le (suc rest) from n (max now next_at + suc rest) times some_interval,
        early,
      )
    ]
