-- ===== src/Ranking/Diversity.antt =====
-- The greedy re-rank of backlogg/recommendations/ranking.py.
use backlogg.Prelude.{
  ℕ, zero, suc, Bool, false, not, ◌&&◌, ◌||◌, List, [], ◌∷◌, map, ◌++◌, Option, none, some, ◌+◌,
  ltb, ◌==◌, if◌then◌else◌, length, String, str_eq,
}
use Prim.Native.String.{compare}
use text.Mathlib.Text.{is_lt}
use mathlib.Core.Option
use backlogg.Ranking.{FloatOps, Candidate}
use backlogg.Ranking.Titles.{TitleOps, franchise_key}

pub data GroupKey : Type 0 where
  creator : ℕ → GroupKey
  franchise : String → GroupKey

unfoldable pub same_key : GroupKey → GroupKey → Bool
same_key (GroupKey.creator p) (GroupKey.creator q) = p == q
same_key (GroupKey.franchise s) (GroupKey.franchise t) = str_eq s t
same_key _ _ = false

abbrev pub franchise_group : Option String → List GroupKey
franchise_group none = []
franchise_group (some key) = GroupKey.franchise key ∷ []

-- How often each group was taken; a group that the dictionary lacks counts 0.
abbrev pub Taken : Type 0
Taken = GroupKey → ℕ

unfoldable pub take_groups : List GroupKey → Taken → Taken
take_groups [] taken = taken
take_groups (key ∷ keys) taken =
    take_groups keys (λ k. if same_key k key then taken key + 1 else taken k)

unfoldable pub count_repeats : Taken → List GroupKey → ℕ
count_repeats taken [] = 0
count_repeats taken (key ∷ keys) = taken key + count_repeats taken keys

-- list.pop(i); none is an IndexError
unfoldable pub pop {ℓ} : {A : Type ℓ} → ℕ → List A → Option (A × List A)
pop i [] = none
pop zero (x ∷ xs) = some (x, xs)
pop (suc i) (x ∷ xs) = Option.map (λ found. (found.0, x ∷ found.1)) (pop i xs)

module _ {F : Type 0} (floats : FloatOps F) (titles : TitleOps) where
  unfoldable pub group_keys : Candidate F → List GroupKey
  group_keys c =
      map GroupKey.creator c.creator_ids ++ franchise_group (franchise_key titles c.title)

  -- The order of the sort keys (-score, item_type, item_id).
  unfoldable pub ranks_before : Candidate F → Candidate F → Bool
  ranks_before c d =
      if floats.eq c.score d.score
      then is_lt (compare c.item_type d.item_type)
        || (str_eq c.item_type d.item_type && ltb c.item_id d.item_id)
      else floats.gt c.score d.score

  unfoldable pub insert : Candidate F → List (Candidate F) → List (Candidate F)
  insert c [] = c ∷ []
  insert c (d ∷ ds) = if ranks_before d c then d ∷ insert c ds else c ∷ d ∷ ds

  unfoldable pub sorted : List (Candidate F) → List (Candidate F)
  sorted [] = []
  sorted (c ∷ cs) = insert c (sorted cs)

  unfoldable pub adjusted : F → Taken → Candidate F → F
  adjusted factor taken c =
      floats.mul c.score (floats.pow factor (count_repeats taken (group_keys c)))

  -- The scan for the best adjusted score, from a position on.
  unfoldable pub best_index : (Candidate F → F) → ℕ → ℕ → F → List (Candidate F) → ℕ
  best_index score index best best_score [] = best
  best_index score index best best_score (c ∷ cs) =
      let better = floats.gt (score c) best_score in
      best_index score (suc index) (if better then index else best)
        (if better then score c else best_score) cs

  -- `while remaining`: the fuel is the number of candidates, and one of them goes in each round.
  unfoldable pub pick_all : F → ℕ → List (Candidate F) → Taken → Option (List (Candidate F))
  pick_all factor fuel [] taken = some []
  pick_all factor zero (c ∷ cs) taken = none
  pick_all factor (suc fuel) (c ∷ cs) taken =
      let best = best_index (adjusted factor taken) 0 0 floats.negative_infinity (c ∷ cs) in
      Option.bind (pop best (c ∷ cs)) (λ found.
        Option.map (λ selected. found.0 ∷ selected)
          (pick_all factor fuel found.1 (take_groups (group_keys found.0) taken)))

  unfoldable pub diversify : F → List (Candidate F) → Option (List (Candidate F))
  diversify penalty candidates =
      let ranked = sorted candidates in
      if not (floats.gt penalty floats.zero) || ltb (length ranked) 2
      then some ranked
      else pick_all (floats.max floats.zero (floats.sub floats.one penalty)) (length ranked) ranked
          (λ k. 0)
