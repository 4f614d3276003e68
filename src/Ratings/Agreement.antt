-- ===== src/Ratings/Agreement.antt =====
-- The batched recomputation of backlogg/ratings/repository.py beside the one for a single item.
use backlogg.Prelude.{
  ℕ, Bool, ◌||◌, List, [], ◌∷◌, ◌++◌, ◌==◌, ◌≡◌, arith, any, update_where, update_where_congr, inl,
  inr, Bool-cases, ap, ◌∙◌,
}
use backlogg.Db.Tables.{ItemType, same_type, Item, User, UserRating, Db, eq_of_same_type}
use backlogg.Ratings.Aggregates.{
  is_item, add_id, group_ids, in_ids, recalculate_item_aggregates_batch,
}
use backlogg.Ratings.Batch.{refreshed, in_groups, update_types-eq}

-- The item is one of those listed.
abbrev pub is_listed : List (ItemType × ℕ) → Item → Bool
is_listed items it = any (λ i. is_item i.0 i.1 it) items

in_ids-append : (ids : List ℕ) (j i : ℕ) → in_ids (ids ++ (j ∷ [])) i ≡ (in_ids ids i || i == j)
unfolding in_ids any
in_ids-append [] j i = ground arith
in_ids-append (x ∷ ids) j i = ground (arith, in_ids-append ids j i)

module _ (users : List User) (ratings : List UserRating) (it : Item) where
  in_groups-add_id :
      (groups : List (ItemType × List ℕ)) (t : ItemType) (i : ℕ)
      → in_groups users ratings (add_id groups (t, i)) it
        ≡ (in_groups users ratings groups it || is_item t i it)
  unfolding add_id any is_item in_ids
  in_groups-add_id [] t i = ground arith
  in_groups-add_id ((u, ids) ∷ groups) t i = elim (Bool-cases (same_type u t)) [
    | inl e ↦ rw (e, eq_of_same_type u t e) (ground (arith, in_ids-append ids i it.id))
    | inr e ↦ rw e (ground (arith, in_groups-add_id groups t i))
  ]

  in_groups-group_ids :
      (items : List (ItemType × ℕ)) (groups : List (ItemType × List ℕ))
      → in_groups users ratings (group_ids groups items) it
        ≡ (in_groups users ratings groups it || is_listed items it)
  unfolding group_ids any
  in_groups-group_ids [] groups = ground arith
  in_groups-group_ids ((t, i) ∷ items) groups =
      ground (arith, in_groups-group_ids items (add_id groups (t, i)), in_groups-add_id groups t i)

-- The batch refreshes exactly the listed items, each from its own visible scores, and changes
-- nothing else in the database.
pub recalculate_batch_lem :
    (items : List (ItemType × ℕ)) (d : Db)
    → recalculate_item_aggregates_batch items d ≡ record d {
      items = update_where (is_listed items) (refreshed d.users.rows d.user_ratings.rows) d.items;
    }
unfolding recalculate_item_aggregates_batch any
recalculate_batch_lem items d =
    let us = d.users.rows in
    let rs = d.user_ratings.rows in
    ap (λ xs. record d { items = xs })
      (update_types-eq us rs (group_ids [] items) d.items
        ∙ update_where_congr (in_groups us rs (group_ids [] items)) (is_listed items)
            (refreshed us rs) d.items (λ it. in_groups-group_ids us rs it items []))
