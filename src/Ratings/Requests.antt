-- ===== src/Ratings/Requests.antt =====
-- Every request of backlogg/ratings/service.py keeps the invariant of Ratings/Sound.antt.
use backlogg.Prelude.{ℕ, String, Option, some, ◌≡◌, refl, arith, ◌<◌, inl, inr, Option-cases}
use backlogg.Db.Tables.{ItemType, User, UserRating, Db}
use backlogg.Db.Session.{request}
use backlogg.Feed.{create_rating_event, delete_rating_event}
use backlogg.Ratings.Aggregates.{recalculate_item_aggregates}
use backlogg.Ratings.Repository.{
  is_rating_of, get_item_by_slug, get_rating, write_rating, upsert_rating, delete_rating,
}
use backlogg.Ratings.Freshness.{recalculate-HasFreshAggregates}
use backlogg.Ratings.Sound.{
  HasSoundTables, IsSound, recalculate-HasSoundTables, write_rating-AgreeOutside,
  write_rating-items, write_rating-HasSoundTables,
}
use backlogg.Ratings.Removal.{
  SameCore, SameCore-IsSound, get_rating-rates_item, found-AllOfItem, AllOfItem,
  delete_rating-AgreeOutside, delete_rating-HasSoundTables,
}
use backlogg.Ratings.Service.{RatingIn, write_rating_event, rate_item, delete_item_rating}

create_rating_event-SameCore :
    (u : ℕ) (t : ItemType) (i k : ℕ) (d : Db) → SameCore d (create_rating_event u t i k d)
unfolding create_rating_event
create_rating_event-SameCore u t i k d = ground arith

delete_rating_event-SameCore : (k : ℕ) (d : Db) → SameCore d (delete_rating_event k d)
unfolding delete_rating_event
delete_rating_event-SameCore k d = ground arith

write_rating_event-SameCore :
    (u : ℕ) (t : ItemType) (i : ℕ) (r : UserRating) (d : Db)
    → SameCore d (write_rating_event u t i r d)
unfolding write_rating_event
write_rating_event-SameCore u t i r d =
    ground (arith, create_rating_event-SameCore u t i r.id d, delete_rating_event-SameCore r.id d)

-- A rating is written, its item is recomputed, and the feed is updated.
rated-IsSound :
    (t : ItemType) (i : ℕ) (payload : RatingIn) (u : ℕ) (d : Db) (found : Option UserRating)
    → u < d.users.next_id
    → IsSound d
    → let (r, d') = write_rating found u t i payload.score payload.review_text d in
      IsSound (write_rating_event u t i r (recalculate_item_aggregates t i d'))
rated-IsSound t i payload u d found known s =
    let (r, d') = write_rating found u t i payload.score payload.review_text d in
    SameCore-IsSound (recalculate_item_aggregates t i d') _
      (write_rating_event-SameCore u t i r (recalculate_item_aggregates t i d'))
      (record {
        fresh =
            recalculate-HasFreshAggregates d d' t i
              (write_rating-items u t i payload.score payload.review_text d found)
              (write_rating-AgreeOutside u t i payload.score payload.review_text d found) s.fresh;
        tables = recalculate-HasSoundTables t i d' (
            write_rating-HasSoundTables u t i payload.score payload.review_text d found known
              s.tables);
      })

-- PUT /{type}/{slug}/rating by a registered user keeps every item's rating and count equal to the
-- average and the number of its visible scores.
pub rate_item-IsSound :
    (t : ItemType) (slug : String) (payload : RatingIn) (user : User) (d : Db)
    → user.id < d.users.next_id
    → IsSound d
    → IsSound (request (rate_item t slug payload user) d).1
unfolding rate_item upsert_rating
rate_item-IsSound t slug payload user d known s = elim (Option-cases (get_item_by_slug t slug d)) [
  | inl e ↦ rw e s
  | inr (item, e) ↦
      rw e (rated-IsSound t item.id payload user.id d (get_rating user.id t item.id d) known s)
]

get_rating-AllOfItem :
    (u : ℕ) (t : ItemType) (i : ℕ) (d : Db) (r : UserRating)
    → get_rating u t i d ≡ some r
    → HasSoundTables d
    → AllOfItem d r t i
unfolding get_rating
get_rating-AllOfItem u t i d r e h =
    found-AllOfItem d r t i (is_rating_of u t i) e (get_rating-rates_item u t i d r e) h

removed-IsSound :
    (t : ItemType) (i : ℕ) (r : UserRating) (d : Db)
    → AllOfItem d r t i
    → IsSound d
    → IsSound (recalculate_item_aggregates t i (delete_rating r d))
unfolding delete_rating
removed-IsSound t i r d own s = record {
  fresh =
      recalculate-HasFreshAggregates d (delete_rating r d) t i refl
        (delete_rating-AgreeOutside d r t i own) s.fresh;
  tables =
      recalculate-HasSoundTables t i (delete_rating r d)
        (delete_rating-HasSoundTables d r t i s.tables);
}

-- DELETE /{type}/{slug}/rating keeps them too.
pub delete_item_rating-IsSound :
    (t : ItemType) (slug : String) (user : User) (d : Db)
    → IsSound d
    → IsSound (request (delete_item_rating t slug user) d).1
unfolding delete_item_rating
delete_item_rating-IsSound t slug user d s = elim (Option-cases (get_item_by_slug t slug d)) [
  | inl e ↦ rw e s
  | inr (item, e) ↦ elim (Option-cases (get_rating user.id t item.id d)) [
    | inl e' ↦ rw (e, e') s
    | inr (r, e') ↦
        rw (e, e')
          (removed-IsSound t item.id r d (get_rating-AllOfItem user.id t item.id d r e' s.tables) s)
  ]
]
