-- ===== src/Ratings/Sound.antt =====
-- The invariant that every request keeps: fresh aggregates, over tables whose ids are those of their
-- sequences and whose reviews have authors that were once registered.
use backlogg.Prelude.{ℕ, String, List, Option, none, some, ◌≡◌, refl, arith, ◌<◌}
use backlogg.Prelude.Rows.{
  HasUniqueIds, IdsBelow, All-of, All-append, All-update, All-map, HasUniqueIds-append,
  HasUniqueIds-update,
}
use backlogg.Db.Tables.{ItemType, User, UserRating, insert_row, Db, same_type_refl}
use backlogg.Ratings.Aggregates.{
  rates_item, recalculate_item_aggregates, recalculate_item_aggregates_batch,
}
use backlogg.Ratings.Repository.{is_rating_of, write_rating}
use backlogg.Ratings.Scores.{is_key, visible_scores-update, visible_scores-insert}
use backlogg.Ratings.Freshness.{HasFreshAggregates, AgreeOutside}

pub record HasSoundTables (d : Db) : Type 0 where
  pub rating_ids : HasUniqueIds (λ (r : UserRating). r.id) d.user_ratings.rows
  pub ratings_below : IdsBelow (λ (r : UserRating). r.id) d.user_ratings.next_id d.user_ratings.rows
  pub authors_below : IdsBelow (λ (r : UserRating). r.user_id) d.users.next_id d.user_ratings.rows
  pub users_below : IdsBelow (λ (u : User). u.id) d.users.next_id d.users.rows

pub record IsSound (d : Db) : Type 0 where
  pub fresh : HasFreshAggregates d
  pub tables : HasSoundTables d

-- Only the recomputed columns change, so the tables stay sound.
pub recalculate-HasSoundTables :
    (t : ItemType) (i : ℕ) (d : Db)
    → HasSoundTables d
    → HasSoundTables (recalculate_item_aggregates t i d)
unfolding recalculate_item_aggregates
recalculate-HasSoundTables t i d h = record {
  rating_ids = h.rating_ids;
  ratings_below = h.ratings_below;
  authors_below = h.authors_below;
  users_below = h.users_below;
}

pub recalculate_batch-HasSoundTables :
    (items : List (ItemType × ℕ)) (d : Db)
    → HasSoundTables d
    → HasSoundTables (recalculate_item_aggregates_batch items d)
unfolding recalculate_item_aggregates_batch
recalculate_batch-HasSoundTables items d h = record {
  rating_ids = h.rating_ids;
  ratings_below = h.ratings_below;
  authors_below = h.authors_below;
  users_below = h.users_below;
}

-- A new or changed rating of one item.
module _ (user_id : ℕ) (t : ItemType) (i : ℕ) (score : Option ℕ) (text : Option String)
    (d : Db) where
  pub write_rating-AgreeOutside :
      (found : Option UserRating)
      → AgreeOutside d (write_rating found user_id t i score text d).1 (is_key t i)
  unfolding write_rating is_rating_of insert_row rates_item
  write_rating-AgreeOutside (some old) u j other =
      visible_scores-update d.users.rows t i (is_rating_of user_id t i)
        (λ r. record r { score = score; review_text = text }) d.user_ratings.rows
        (All-of _ (λ r e. (ground arith, ground arith)) d.user_ratings.rows) u j other
  write_rating-AgreeOutside none u j other =
      visible_scores-insert d.users.rows t i _ d.user_ratings.rows
        (rw same_type_refl (ground arith)) u j other

  pub write_rating-items :
      (found : Option UserRating) → (write_rating found user_id t i score text d).1.items ≡ d.items
  unfolding write_rating
  write_rating-items (some old) = refl
  write_rating-items none = refl

  pub write_rating-HasSoundTables :
      (found : Option UserRating)
      → user_id < d.users.next_id
      → HasSoundTables d
      → HasSoundTables (write_rating found user_id t i score text d).1
  unfolding write_rating insert_row
  write_rating-HasSoundTables (some old) known h = record {
    rating_ids =
        HasUniqueIds-update _ (is_rating_of user_id t i) _ (λ r. refl) d.user_ratings.rows
          h.rating_ids;
    ratings_below = All-update _ (is_rating_of user_id t i) _ _ (λ r p. p) h.ratings_below;
    authors_below = All-update _ (is_rating_of user_id t i) _ _ (λ r p. p) h.authors_below;
    users_below = h.users_below;
  }
  write_rating-HasSoundTables none known h = record {
    rating_ids = HasUniqueIds-append _ _ d.user_ratings.rows h.ratings_below h.rating_ids;
    ratings_below =
        All-append _ _ d.user_ratings.rows
          (All-map _ _ d.user_ratings.rows (λ r p. omega arith) h.ratings_below) (omega arith);
    authors_below = All-append _ _ d.user_ratings.rows h.authors_below known;
    users_below = h.users_below;
  }
