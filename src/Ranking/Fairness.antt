-- ===== src/Ranking/Fairness.antt =====
-- The length and the share of the other types in what backlogg/recommendations/ranking.py answers.
use backlogg.Prelude.{
  ℕ, zero, suc, Bool, true, false, List, [], ◌∷◌, some, ◌≡◌, refl, ap, ◌∙◌, arith, ◌+◌, ◌-◌, ◌≤◌,
  length, filter, String,
}
use Prim.Native.Nat.{min}
use mathlib.Core.List.{Permᴰ}
use backlogg.Ranking.{FloatOps, Candidate}
use backlogg.Ranking.Titles.{TitleOps}
use backlogg.Ranking.Quota.{
  is_cross, reserve, take, at_positions, count_chosen, fill, apply_cross_type_quota, rank_similar,
}
use backlogg.Ranking.Diversity.{diversify}
use backlogg.Ranking.Shuffle.{Permᴰ-length, diversify-Shuffled}

-- Each candidate of the page comes from the list, in the order of the list.
pub data IsSublist {ℓ} {A : Type ℓ} : List A → List A → Type ℓ where
  nil : IsSublist [] []
  skip : {x : A} {xs ys : List A} → IsSublist xs ys → IsSublist xs (x ∷ ys)
  keep : {x : A} {xs ys : List A} → IsSublist xs ys → IsSublist (x ∷ xs) (x ∷ ys)

none_kept {ℓ} : {A : Type ℓ} (xs : List A) → IsSublist [] xs
none_kept [] = IsSublist.nil
none_kept (x ∷ xs) = IsSublist.skip (none_kept xs)

module _ {F : Type 0} (anchor_type : String) where
  -- The candidates of another type than the anchor's.
  abbrev pub available : List (Candidate F) → ℕ
  available cs = length (filter (is_cross anchor_type) cs)

  length-reserve : (cs : List (Candidate F)) (k : ℕ) → length (reserve anchor_type k cs) ≡ length cs
  unfolding reserve
  length-reserve [] k = refl
  length-reserve (c ∷ cs) zero = ap suc (length-reserve cs zero)
  length-reserve (c ∷ cs) (suc k) = ap suc (length-reserve cs _)

  available-Permᴰ : {cs ds : List (Candidate F)} → Permᴰ cs ds → available cs ≡ available ds
  unfolding filter
  available-Permᴰ Permᴰ.nil = refl
  available-Permᴰ (Permᴰ.cons e d) = rw e (ground (arith, available-Permᴰ d))
  available-Permᴰ (Permᴰ.swap e₁ e₂) = rw (e₁, e₂) (ground arith)
  available-Permᴰ (Permᴰ.trans d₁ d₂) = available-Permᴰ d₁ ∙ available-Permᴰ d₂

  -- The reservation takes as many of the other types as it may.
  count_chosen-reserve :
      (k : ℕ) (cs : List (Candidate F))
      → count_chosen (reserve anchor_type k cs) ≡ min k (available cs)
  unfolding reserve filter count_chosen
  count_chosen-reserve k [] = ground arith
  count_chosen-reserve zero (c ∷ cs) = ground (arith, count_chosen-reserve zero cs)
  count_chosen-reserve (suc k) (c ∷ cs) =
      ground (arith, count_chosen-reserve k cs, count_chosen-reserve (suc k) cs)

length-fill : (room : ℕ) (chosen : List Bool) → length (fill room chosen) ≡ length chosen
unfolding fill
length-fill room [] = refl
length-fill zero (b ∷ chosen) = refl
length-fill (suc room) (true ∷ chosen) = ap suc (length-fill (suc room) chosen)
length-fill (suc room) (false ∷ chosen) = ap suc (length-fill room chosen)

count_chosen-le : (chosen : List Bool) → count_chosen chosen ≤ length chosen
unfolding count_chosen
count_chosen-le [] = omega arith
count_chosen-le (b ∷ chosen) = ground (arith, count_chosen-le chosen)

count_chosen-fill :
    (room : ℕ) (chosen : List Bool)
    → count_chosen (fill room chosen) ≡ min (count_chosen chosen + room) (length chosen)
unfolding fill count_chosen
count_chosen-fill room [] = ground arith
count_chosen-fill zero (b ∷ chosen) = ground (arith, count_chosen-le chosen)
count_chosen-fill (suc room) (true ∷ chosen) = ground (arith, count_chosen-fill (suc room) chosen)
count_chosen-fill (suc room) (false ∷ chosen) = ground (arith, count_chosen-fill room chosen)

module _ {F : Type 0} where
  length-at_positions :
      (cs : List (Candidate F)) (chosen : List Bool)
      → length chosen ≡ length cs
      → length (at_positions cs chosen) ≡ count_chosen chosen
  unfolding at_positions count_chosen
  length-at_positions [] [] same = refl
  length-at_positions [] (b ∷ chosen) same = ground (arith, same)
  length-at_positions (c ∷ cs) [] same = ground (arith, same)
  length-at_positions (c ∷ cs) (b ∷ chosen) same =
      ground (arith, same, length-at_positions cs chosen)

  at_positions-IsSublist :
      (cs : List (Candidate F)) (chosen : List Bool) → IsSublist (at_positions cs chosen) cs
  unfolding at_positions
  at_positions-IsSublist [] chosen = IsSublist.nil
  at_positions-IsSublist (c ∷ cs) [] = none_kept (c ∷ cs)
  at_positions-IsSublist (c ∷ cs) (true ∷ chosen) =
      IsSublist.keep (at_positions-IsSublist cs chosen)
  at_positions-IsSublist (c ∷ cs) (false ∷ chosen) =
      IsSublist.skip (at_positions-IsSublist cs chosen)

  take-IsSublist : (n : ℕ) (cs : List (Candidate F)) → IsSublist (take n cs) cs
  unfolding take
  take-IsSublist n [] = IsSublist.nil
  take-IsSublist zero (c ∷ cs) = none_kept (c ∷ cs)
  take-IsSublist (suc n) (c ∷ cs) = IsSublist.keep (take-IsSublist n cs)

  length-take : (n : ℕ) (cs : List (Candidate F)) → length (take n cs) ≡ min n (length cs)
  unfolding take
  length-take n [] = omega arith
  length-take zero (c ∷ cs) = omega arith
  length-take (suc n) (c ∷ cs) = omega (arith, length-take n cs)

module _ {F : Type 0} (anchor_type : String) where
  -- What is reserved stays when the room is filled.
  available-fill :
      (room : ℕ) (cs : List (Candidate F)) (chosen : List Bool)
      → available anchor_type (at_positions cs chosen)
        ≤ available anchor_type (at_positions cs (fill room chosen))
  unfolding fill at_positions filter
  available-fill room [] chosen = omega arith
  available-fill room (c ∷ cs) [] = omega arith
  available-fill zero (c ∷ cs) (b ∷ chosen) = omega arith
  available-fill (suc room) (c ∷ cs) (true ∷ chosen) =
      ground (arith, available-fill (suc room) cs chosen)
  available-fill (suc room) (c ∷ cs) (false ∷ chosen) =
      ground (arith, available-fill room cs chosen)

  available-reserve :
      (cs : List (Candidate F)) (k : ℕ)
      → available anchor_type (at_positions cs (reserve anchor_type k cs))
        ≡ min k (available anchor_type cs)
  unfolding reserve at_positions filter
  available-reserve [] k = omega arith
  available-reserve (c ∷ cs) zero = ground (arith, available-reserve cs zero)
  available-reserve (c ∷ cs) (suc k) =
      ground (arith, available-reserve cs k, available-reserve cs (suc k))

-- What the page promises: its length, its share of the other types, and the order of the ranking.
pub record IsFair {F : Type 0} (anchor_type : String) (limit quota : ℕ)
    (ranked out : List (Candidate F)) : Type 0 where
  pub filled : length out ≡ min limit (length ranked)
  pub shared : min (min quota limit) (available anchor_type ranked) ≤ available anchor_type out
  pub in_order : IsSublist out ranked

module _ {F : Type 0} (anchor_type : String) where
  pub apply_cross_type_quota-IsFair :
      (ranked : List (Candidate F)) (limit quota : ℕ)
      → IsFair anchor_type limit quota ranked
          (apply_cross_type_quota anchor_type ranked limit quota)
  unfolding apply_cross_type_quota
  apply_cross_type_quota-IsFair ranked zero quota = record {
    filled = omega arith;
    shared = omega arith;
    in_order = none_kept ranked;
  }
  apply_cross_type_quota-IsFair ranked (suc limit) zero = record {
    filled = length-take (suc limit) ranked;
    shared = omega arith;
    in_order = take-IsSublist (suc limit) ranked;
  }
  apply_cross_type_quota-IsFair ranked (suc limit) (suc quota) =
      let k = min (suc quota) (suc limit) in
      let chosen = reserve anchor_type k ranked in
      let room = suc limit - count_chosen chosen in
      let size = length-reserve anchor_type ranked k in
      record {
        filled =
            length-at_positions ranked (fill room chosen) (length-fill room chosen ∙ size)
            ∙ count_chosen-fill room chosen
            ∙ omega (arith, size, count_chosen-reserve anchor_type k ranked);
        shared = omega (
          arith,
          available-reserve anchor_type ranked k,
          available-fill anchor_type room ranked chosen,
        );
        in_order = at_positions-IsSublist ranked (fill room chosen);
      }

  -- For any arithmetic, penalty and titles, the re-rank answers with a reordering of the candidates, and the
  -- ranker with a page that keeps the order of that re-rank, has the limit or all of them, and has the quota or all of the other types.
  pub rank_similar-IsFair :
      (floats : FloatOps F) (titles : TitleOps) (cs : List (Candidate F)) (limit quota : ℕ)
      (penalty : F)
      → (out : List (Candidate F)) × (diversified : List (Candidate F)) × (rank_similar floats
            titles anchor_type cs limit quota penalty
          ≡ some out)
        × (diversify floats titles penalty cs ≡ some diversified)
        × Permᴰ diversified cs
        × IsSublist out diversified
        × (length out ≡ min limit (length cs))
        × (min (min quota limit) (available anchor_type cs) ≤ available anchor_type out)
  unfolding rank_similar filter
  rank_similar-IsFair floats titles [] limit quota penalty =
      let (diversified, found, shuffled) = diversify-Shuffled floats titles penalty [] in
      ([], diversified, refl, found, shuffled, none_kept diversified, omega arith, omega arith)
  rank_similar-IsFair floats titles (c ∷ cs) limit quota penalty =
      let (diversified, found, shuffled) = diversify-Shuffled floats titles penalty (c ∷ cs) in
      let fair = apply_cross_type_quota-IsFair diversified limit quota in
      (
        _,
        diversified,
        rw found refl,
        found,
        shuffled,
        fair.in_order,
        fair.filled ∙ ap (min limit) (Permᴰ-length shuffled),
        rw (available-Permᴰ anchor_type shuffled) at fair.shared,
      )
