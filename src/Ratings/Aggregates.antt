-- ===== src/Ratings/Aggregates.antt =====
-- backlogg/ratings/repository.py: which reviews are visible, and the recomputation of
-- rating_internal and rating_count_internal, for one item and for a batch.
use backlogg.Prelude.{
  ℕ, Bool, true, false, not, ◌&&◌, List, [], ◌∷◌, ◌++◌, Option, none, some, ◌==◌, if◌then◌else◌,
  length, find, any, update_where,
}
use backlogg.Db.Tables.{ItemType, same_type, Item, User, UserRating, Db}
use backlogg.Ratings.Rounding.{round_half_even, round_half_up, average}

-- `User.is_banned IS false`, through the join on the author.
unfoldable pub author_active : List User → ℕ → Bool
author_active users author = elim (find (λ u. u.id == author) users) [
  | none ↦ false
  | some u ↦ not u.is_banned
]

-- visible_review_filters
unfoldable pub is_visible : List User → UserRating → Bool
is_visible users r = not r.is_hidden && author_active users r.user_id

unfoldable pub rates_item : ItemType → ℕ → UserRating → Bool
rates_item item_type item_id r = same_type r.item_type item_type && r.item_id == item_id

unfoldable pub is_item : ItemType → ℕ → Item → Bool
is_item item_type item_id it = same_type it.item_type item_type && it.id == item_id

-- The score that a row adds to the aggregate query of one item.
unfoldable pub contribution : List User → ItemType → ℕ → UserRating → Option ℕ
contribution users item_type item_id r =
    if rates_item item_type item_id r && is_visible users r then r.score else none

abbrev pub add_score : Option ℕ → List ℕ → List ℕ
add_score none ss = ss
add_score (some s) ss = s ∷ ss

-- The scores that the aggregate query of one item reads.
unfoldable pub visible_scores : List User → ItemType → ℕ → List UserRating → List ℕ
visible_scores users item_type item_id [] = []
visible_scores users item_type item_id (r ∷ rs) =
    add_score (contribution users item_type item_id r) (visible_scores users item_type item_id rs)

abbrev pub with_aggregates : (ℕ → ℕ → ℕ) → List ℕ → Item → Item
with_aggregates round ss it = record it {
  rating_internal = average round ss;
  rating_count_internal = length ss;
}

unfoldable pub recalculate_item_aggregates : ItemType → ℕ → Db → Db
recalculate_item_aggregates item_type item_id d =
    let ss = visible_scores d.users.rows item_type item_id d.user_ratings.rows in
    record d {
      items = update_where (is_item item_type item_id) (with_aggregates round_half_even ss) d.items;
    }

-- `ids_by_type.setdefault(item_type, []).append(item_id)`
unfoldable pub add_id : List (ItemType × List ℕ) → ItemType × ℕ → List (ItemType × List ℕ)
add_id [] (item_type, item_id) = (item_type, item_id ∷ []) ∷ []
add_id ((t, ids) ∷ groups) (item_type, item_id) =
    if same_type t item_type
    then (t, ids ++ (item_id ∷ [])) ∷ groups
    else (t, ids) ∷ add_id groups (item_type, item_id)

unfoldable pub group_ids : List (ItemType × List ℕ) → List (ItemType × ℕ) → List (ItemType × List ℕ)
group_ids groups [] = groups
group_ids groups (i ∷ items) = group_ids (add_id groups i) items

unfoldable pub in_ids : List ℕ → ℕ → Bool
in_ids ids item_id = any (λ i. i == item_id) ids

-- One more row of the GROUP BY: the scores collected for each item id.
unfoldable pub add_to_group : ℕ → ℕ → List (ℕ × List ℕ) → List (ℕ × List ℕ)
add_to_group item_id s [] = (item_id, s ∷ []) ∷ []
add_to_group item_id s ((i, ss) ∷ groups) =
    if i == item_id then (i, s ∷ ss) ∷ groups else (i, ss) ∷ add_to_group item_id s groups

-- The score that a row adds to the grouped query of one content type.
unfoldable pub group_score : List User → ItemType → List ℕ → UserRating → Option ℕ
group_score users item_type ids r =
    if same_type r.item_type item_type && in_ids ids r.item_id && is_visible users r
    then r.score
    else none

abbrev pub add_group_score : ℕ → Option ℕ → List (ℕ × List ℕ) → List (ℕ × List ℕ)
add_group_score item_id none groups = groups
add_group_score item_id (some s) groups = add_to_group item_id s groups

-- `agg_subq`: the groups of the ids that still have a visible score.
unfoldable pub aggregate_groups :
    List User → ItemType → List ℕ → List UserRating → List (ℕ × List ℕ)
aggregate_groups users item_type ids [] = []
aggregate_groups users item_type ids (r ∷ rs) =
    add_group_score r.item_id (group_score users item_type ids r)
      (aggregate_groups users item_type ids rs)

unfoldable pub group_of : ℕ → List (ℕ × List ℕ) → Option (List ℕ)
group_of item_id [] = none
group_of item_id ((i, ss) ∷ groups) = if i == item_id then some ss else group_of item_id groups

-- UPDATE ... FROM agg_subq, on one row.
abbrev pub from_group : ItemType → List (ℕ × List ℕ) → Item → Item
from_group item_type groups it =
    if same_type it.item_type item_type
    then elim (group_of it.id groups) [ none ↦ it | some ss ↦ with_aggregates round_half_up ss it ]
    else it

-- The two UPDATE statements of one content type: the reset, and the values of the groups.
unfoldable pub update_type : List User → List UserRating → ItemType × List ℕ → List Item → List Item
update_type users ratings (item_type, ids) items =
    let groups = aggregate_groups users item_type ids ratings in
    update_where (λ it. true) (from_group item_type groups)
      (update_where (λ it. same_type it.item_type item_type && in_ids ids it.id)
        (λ it. record it { rating_internal = none; rating_count_internal = 0 }) items)

unfoldable pub update_types :
    List User → List UserRating → List (ItemType × List ℕ) → List Item → List Item
update_types users ratings [] items = items
update_types users ratings (g ∷ groups) items =
    update_types users ratings groups (update_type users ratings g items)

unfoldable pub recalculate_item_aggregates_batch : List (ItemType × ℕ) → Db → Db
recalculate_item_aggregates_batch items d = record d {
  items = update_types d.users.rows d.user_ratings.rows (group_ids [] items) d.items;
}
