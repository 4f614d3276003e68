-- ===== src/Ranking/Quota.antt =====
-- The cross-type quota of backlogg/recommendations/ranking.py. A set of positions of a list is a mask
-- over it, so the items at the sorted positions are those under the mask, in the order of the list.
use backlogg.Prelude.{
  ℕ, zero, suc, Bool, true, false, not, List, [], ◌∷◌, Option, some, ◌-◌, ◌+◌, if◌then◌else◌,
  String, str_eq,
}
use Prim.Native.Nat.{min}
use mathlib.Core.Option
use backlogg.Ranking.{FloatOps, Candidate}
use backlogg.Ranking.Titles.{TitleOps}
use backlogg.Ranking.Diversity.{diversify}

module _ {F : Type 0} where
  unfoldable pub is_cross : String → Candidate F → Bool
  is_cross anchor_type c = not (str_eq c.item_type anchor_type)

  -- set(cross_positions[:reserved])
  unfoldable pub reserve : String → ℕ → List (Candidate F) → List Bool
  reserve anchor_type reserved [] = []
  reserve anchor_type zero (c ∷ cs) = false ∷ reserve anchor_type zero cs
  reserve anchor_type (suc reserved) (c ∷ cs) =
      let cross = is_cross anchor_type c in
      cross ∷ reserve anchor_type (if cross then reserved else suc reserved) cs

  unfoldable pub take : ℕ → List (Candidate F) → List (Candidate F)
  take n [] = []
  take zero (c ∷ cs) = []
  take (suc n) (c ∷ cs) = c ∷ take n cs

  -- [ranked[position] for position in sorted(chosen)]
  unfoldable pub at_positions : List (Candidate F) → List Bool → List (Candidate F)
  at_positions [] chosen = []
  at_positions (c ∷ cs) [] = []
  at_positions (c ∷ cs) (b ∷ chosen) =
      let rest = at_positions cs chosen in if b then c ∷ rest else rest

unfoldable pub count_chosen : List Bool → ℕ
count_chosen [] = 0
count_chosen (b ∷ chosen) = (if b then 1 else 0) + count_chosen chosen

-- The loop that fills the room left, from the best position on.
unfoldable pub fill : ℕ → List Bool → List Bool
fill room [] = []
fill zero (b ∷ chosen) = b ∷ chosen
fill (suc room) (true ∷ chosen) = true ∷ fill (suc room) chosen
fill (suc room) (false ∷ chosen) = true ∷ fill room chosen

module _ {F : Type 0} where
  unfoldable pub apply_cross_type_quota : String → List (Candidate F) → ℕ → ℕ → List (Candidate F)
  apply_cross_type_quota anchor_type ranked zero quota = []
  apply_cross_type_quota anchor_type ranked (suc limit) zero = take (suc limit) ranked
  apply_cross_type_quota anchor_type ranked (suc limit) (suc quota) =
      let chosen = reserve anchor_type (min (suc quota) (suc limit)) ranked in
      at_positions ranked (fill (suc limit - count_chosen chosen) chosen)

  unfoldable pub rank_similar :
      FloatOps F → TitleOps → String → List (Candidate F) → ℕ → ℕ → F → Option (List (Candidate F))
  rank_similar floats titles anchor_type [] limit quota penalty = some []
  rank_similar floats titles anchor_type (c ∷ cs) limit quota penalty =
      Option.map (λ diversified. apply_cross_type_quota anchor_type diversified limit quota)
        (diversify floats titles penalty (c ∷ cs))
