-- ===== src/Writer/Chunks.antt =====
-- The loop of the jobs of backlogg/scheduler/jobs.py over their ids: `for chunk_start in range(0, len(ids),
-- chunk_size)`, with each id of a chunk taken in turn, and a flush after each chunk. The fuel is the number
-- of ids.
use backlogg.Prelude.{
  ℕ, zero, suc, List, [], ◌∷◌, ◌++◌, String, ◌≡◌, refl, ap, arith, ◌-◌, ◌≤◌, length,
}
use Prim.Native.Nat.{max}

-- The chunk from the start of a list, and what is left.
unfoldable pub take {ℓ} : {A : Type ℓ} → ℕ → List A → List A
take zero xs = []
take (suc n) [] = []
take (suc n) (x ∷ xs) = x ∷ take n xs

unfoldable pub drop {ℓ} : {A : Type ℓ} → ℕ → List A → List A
drop zero xs = xs
drop (suc n) [] = []
drop (suc n) (x ∷ xs) = drop n xs

pub take-drop {ℓ} : {A : Type ℓ} (n : ℕ) (xs : List A) → take n xs ++ drop n xs ≡ xs
unfolding take drop
take-drop zero xs = refl
take-drop (suc n) [] = refl
take-drop (suc n) (x ∷ xs) = ap (λ ys. x ∷ ys) (take-drop n xs)

length-drop-le {ℓ} : {A : Type ℓ} (n : ℕ) (xs : List A) → length (drop n xs) ≤ length xs
unfolding drop
length-drop-le zero xs = omega arith
length-drop-le (suc n) [] = omega arith
length-drop-le (suc n) (x ∷ xs) = omega (arith, length-drop-le n xs)

-- A chunk takes at least one id.
length-drop-lt {ℓ} :
    {A : Type ℓ} (n : ℕ) (x : A) (xs : List A) → length (drop (max 1 n) (x ∷ xs)) ≤ length xs
unfolding drop
length-drop-lt n x xs =
    let size : max 1 n ≡ suc (max 1 n - 1) = omega arith in
    rw size (length-drop-le (max 1 n - 1) xs)

module _ {Pass : Type 0} (batch_size : ℕ) (one : String → Pass → Pass) (flush : Pass → Pass) where
  unfoldable pub each_id : List String → Pass → Pass
  each_id [] p = p
  each_id (id ∷ ids) p = each_id ids (one id p)

  unfoldable pub in_chunks : ℕ → List String → Pass → Pass
  in_chunks zero ids p = p
  in_chunks (suc fuel) [] p = p
  in_chunks (suc fuel) (id ∷ ids) p =
      let size = max 1 batch_size in
      in_chunks fuel (drop size (id ∷ ids)) (flush (each_id (take size (id ∷ ids)) p))

  -- The rule of the loop: what one id and one flush keep holds at the end. The ids are those still to come.
  module _ (Holds : List String → Pass → Type 0)
      (kept : (id : String) (ids : List String) (p : Pass)
        → Holds (id ∷ ids) p
        → Holds ids (one id p))
      (flushed : (ids : List String) (p : Pass) → Holds ids p → Holds ids (flush p)) where
    each_id_inv :
        (ids rest : List String) (p : Pass) → Holds (ids ++ rest) p → Holds rest (each_id ids p)
    unfolding each_id
    each_id_inv [] rest p h = h
    each_id_inv (id ∷ ids) rest p h = each_id_inv ids rest (one id p) (kept id (ids ++ rest) p h)

    pub in_chunks_inv :
        (fuel : ℕ) (ids : List String) (p : Pass)
        → length ids ≤ fuel
        → Holds ids p
        → Holds [] (in_chunks fuel ids p)
    unfolding in_chunks
    in_chunks_inv zero [] p le h = h
    in_chunks_inv zero (id ∷ ids) p le h = absurd (omega (arith, le))
    in_chunks_inv (suc fuel) [] p le h = h
    in_chunks_inv (suc fuel) (id ∷ ids) p le h =
        let size = max 1 batch_size in
        let now = take size (id ∷ ids) in
        let later = drop size (id ∷ ids) in
        in_chunks_inv fuel later (flush (each_id now p))
          (omega (arith, le, length-drop-lt batch_size id ids))
          (flushed later (each_id now p)
            (each_id_inv now later p (rw (take-drop size (id ∷ ids)) h)))
