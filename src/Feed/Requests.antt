-- ===== src/Feed/Requests.antt =====
-- The requests that write reviews or events, under the invariant of the feed.
use backlogg.Prelude.{
  ℕ, Bool, ◌&&◌, String, ◌==◌, ◌≡◌, refl, sym, ap, ◌∙◌, arith, ◌≤◌, same_flag, if◌then◌else◌,
  delete_where, inl, inr, Option-cases, Bool-cases,
}
use backlogg.Prelude.Counts.{
  count, count-append, count-update, count-delete, count-delete_all, count-delete-le,
}
use backlogg.Prelude.Rows.{
  HasUniqueIds-delete, HasUniqueIds-append, All-delete, All-append, All-map, All-of,
}
use native.Mathlib.Nat.{le_trans}
use backlogg.Feed.{is_event_of, create_status_completed_event}
use backlogg.Db.Tables.{ItemType, User, UserRating, insert_row, Db}
use backlogg.Db.Session.{request}
use backlogg.Ratings.Aggregates.{rates_item, recalculate_item_aggregates}
use backlogg.Ratings.Repository.{
  is_rating_of, get_item_by_slug, get_rating, write_rating, upsert_rating, delete_rating,
  set_rating_hidden,
}
use backlogg.Ratings.Service.{RatingIn, write_rating_event, rate_item, delete_item_rating}
use backlogg.Ratings.Sound.{HasSoundTables}
use backlogg.Feed.Announced.{
  has_content, announces, shows, HasFeed, Announces, write_rating_event-Announces,
}
use backlogg.Feed.Written.{Shows, written-Shows, write_rating-activity_events, write_rating-keys}

-- A review and its event were written, and nothing else about the feed.
together :
    (n u c : ℕ) (d d' d'' : Db)
    → Shows n u c d.user_ratings.rows d'.user_ratings.rows
    → Announces n u c d' d''
    → d'.activity_events ≡ d.activity_events
    → ((v : ℕ) (t : ItemType) (i : ℕ) → count (is_rating_of v t i) d'.user_ratings.rows ≤ 1)
    → HasFeed d
    → HasFeed d''
together n u c d d' d'' s a events keys h = record {
  announced = λ k v. elim (Bool-cases (k == n && v == u)) [
    | inl same ↦
        let k_is : k ≡ n = ground (arith, same) in
        let v_is : v ≡ u = ground (arith, same) in rw (k_is, v_is, a.ratings) (a.own ∙ sym s.own)
    | inr other ↦ rw a.ratings (
        a.others k v other
        ∙ ap (λ es. count (announces k v) es.rows) events
        ∙ h.announced k v
        ∙ sym (s.others k v other))
  ];
  keys = rw a.ratings keys;
  event_ids = a.ids;
  events_below = a.below;
}

-- The event of a review is written after the review, on events that the review did not touch.
followed-HasFeed :
    (u : ℕ) (t : ItemType) (i : ℕ) (r : UserRating) (d d' : Db)
    → Shows r.id u (if has_content r then 1 else 0) d.user_ratings.rows d'.user_ratings.rows
    → d'.activity_events ≡ d.activity_events
    → ((v : ℕ) (t : ItemType) (i : ℕ) → count (is_rating_of v t i) d'.user_ratings.rows ≤ 1)
    → HasFeed d
    → HasFeed (write_rating_event u t i r d')
followed-HasFeed u t i r d d' s events keys h =
    together r.id u (if has_content r then 1 else 0) d d' (write_rating_event u t i r d') s
      (write_rating_event-Announces r.id u d' (rw events h.event_ids) (rw events h.events_below)
        (rw (events, h.announced r.id u) s.few)
        (λ v other. rw (events, h.announced r.id v) (s.alone v other)) t i r refl)
      events keys h

module _ (u : ℕ) (t : ItemType) (i : ℕ) (payload : RatingIn) (d : Db) (h : HasSoundTables d)
    (feed : HasFeed d) where
  rated-HasFeed :
      let (r, d') = write_rating (get_rating u t i d) u t i payload.score payload.review_text d in
      HasFeed (write_rating_event u t i r (recalculate_item_aggregates t i d'))
  unfolding recalculate_item_aggregates
  rated-HasFeed =
      let found = get_rating u t i d in
      let (r, d') = write_rating found u t i payload.score payload.review_text d in
      followed-HasFeed u t i r d (recalculate_item_aggregates t i d')
        (written-Shows u t i payload.score payload.review_text d h feed found refl)
        (write_rating-activity_events u t i payload.score payload.review_text d h feed found)
        (λ v t' j.
          write_rating-keys u t i payload.score payload.review_text d h feed found v t' j refl)
        feed

pub rate_item-HasFeed :
    (t : ItemType) (slug : String) (payload : RatingIn) (user : User) (d : Db)
    → HasSoundTables d
    → HasFeed d
    → HasFeed (request (rate_item t slug payload user) d).1
unfolding rate_item upsert_rating
rate_item-HasFeed t slug payload user d h feed = elim (Option-cases (get_item_by_slug t slug d)) [
  | inl e ↦ rw e feed
  | inr (item, e) ↦ rw e (rated-HasFeed user.id t item.id payload d h feed)
]

-- Deleting a review takes its events with it, and no others.
removed-announced :
    (r : UserRating) (d : Db) (k v : ℕ)
    → HasFeed d
    → count (announces k v) (delete_where (is_event_of r.id) d.activity_events.rows)
      ≡ count (shows k v) (delete_where (λ x. x.id == r.id) d.user_ratings.rows)
unfolding announces shows is_event_of
removed-announced r d k v h = elim (Bool-cases (k == r.id)) [
  | inl same ↦
      let k_is : k ≡ r.id = ground (arith, same) in
      rw k_is (
        count-delete_all (announces r.id v) (is_event_of r.id) d.activity_events.rows
          (λ x hit. ground (arith, hit))
        ∙ sym (
            count-delete_all (shows r.id v) (λ x. x.id == r.id) d.user_ratings.rows
              (λ x hit. ground (arith, hit))))
  | inr other ↦
      count-delete (announces k v) (is_event_of r.id) d.activity_events.rows
        (All-of _ (λ x hit. ground (arith, hit, other)) d.activity_events.rows)
      ∙ h.announced k v
      ∙ sym (
          count-delete (shows k v) (λ x. x.id == r.id) d.user_ratings.rows
            (All-of _ (λ x hit. ground (arith, hit, other)) d.user_ratings.rows))
]

removed-HasFeed :
    (t : ItemType) (i : ℕ) (r : UserRating) (d : Db)
    → HasFeed d
    → HasFeed (recalculate_item_aggregates t i (delete_rating r d))
unfolding recalculate_item_aggregates delete_rating
removed-HasFeed t i r d h = record {
  announced = λ k v. removed-announced r d k v h;
  keys = λ v t' j.
      le_trans (count-delete-le (is_rating_of v t' j) (λ x. x.id == r.id) d.user_ratings.rows)
        (h.keys v t' j);
  event_ids = HasUniqueIds-delete _ (is_event_of r.id) d.activity_events.rows h.event_ids;
  events_below = All-delete _ (is_event_of r.id) d.activity_events.rows h.events_below;
}

pub delete_item_rating-HasFeed :
    (t : ItemType) (slug : String) (user : User) (d : Db)
    → HasFeed d
    → HasFeed (request (delete_item_rating t slug user) d).1
unfolding delete_item_rating
delete_item_rating-HasFeed t slug user d h = elim (Option-cases (get_item_by_slug t slug d)) [
  | inl e ↦ rw e h
  | inr (item, e) ↦ elim (Option-cases (get_rating user.id t item.id d)) [
    | inl e' ↦ rw (e, e') h
    | inr (r, e') ↦ rw (e, e') (removed-HasFeed t item.id r d h)
  ]
]

-- Hiding a review changes neither what it shows nor its key.
pub set_rating_hidden-HasFeed :
    (r : UserRating) (hidden : Bool) (d : Db) → HasFeed d → HasFeed (set_rating_hidden r hidden d)
unfolding set_rating_hidden shows is_rating_of rates_item
set_rating_hidden-HasFeed r hidden d h = elim (Bool-cases (same_flag r.is_hidden hidden)) [
  | inl e ↦ rw (e, set_rating_hidden) h
  | inr e ↦
      rw (e, set_rating_hidden)
        (record {
          announced = λ k v.
              h.announced k v
              ∙ sym (
                  count-update (shows k v) (λ x. x.id == r.id)
                    (λ x. record x { is_hidden = hidden }) d.user_ratings.rows
                    (All-of _ (λ x hit. refl) d.user_ratings.rows));
          keys = λ v t j.
              rw
                (count-update (is_rating_of v t j) (λ x. x.id == r.id)
                  (λ x. record x { is_hidden = hidden }) d.user_ratings.rows
                  (All-of _ (λ x hit. refl) d.user_ratings.rows))
                (h.keys v t j);
          event_ids = h.event_ids;
          events_below = h.events_below;
        })
]

-- An event of a finished item is about no review.
pub create_status_completed_event-HasFeed :
    (u : ℕ) (t : ItemType) (i : ℕ) (d : Db)
    → HasFeed d
    → HasFeed (create_status_completed_event u t i d)
unfolding create_status_completed_event insert_row announces is_event_of
create_status_completed_event-HasFeed u t i d h = record {
  announced = λ k v.
      count-append (announces k v) _ d.activity_events.rows ∙ ground (arith, h.announced k v);
  keys = h.keys;
  event_ids = HasUniqueIds-append _ _ d.activity_events.rows h.events_below h.event_ids;
  events_below =
      All-append _ _ d.activity_events.rows
        (All-map _ _ d.activity_events.rows (λ x p. omega arith) h.events_below) (omega arith);
}
