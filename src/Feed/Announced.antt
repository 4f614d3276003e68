-- ===== src/Feed/Announced.antt =====
-- The invariant of the feed, and what the writers of backlogg/feed/repository.py do to it.
use backlogg.Prelude.{
  ℕ, Bool, true, false, ◌&&◌, ◌||◌, none, some, ◌==◌, ◌≡◌, refl, ◌∙◌, arith, ◌≤◌, is_some,
  if◌then◌else◌, find, find_passes, inl, inr, Option-cases, Bool-cases,
}
use backlogg.Prelude.Rows.{
  HasUniqueIds, IdsBelow, HasUniqueIds-append, HasUniqueIds-delete, All-append, All-delete, All-map,
  All-of_found,
}
use backlogg.Prelude.Counts.{
  count, count-append, count-delete, count-find, count-none, count-delete_found,
}
use backlogg.Db.Tables.{ItemType, UserRating, ActivityEvent, insert_row, Db}
use backlogg.Feed.{is_event_of, create_rating_event, delete_rating_event}
use backlogg.Ratings.Repository.{is_rating_of}
use backlogg.Ratings.Service.{write_rating_event}

abbrev pub has_content : UserRating → Bool
has_content r = is_some r.score || is_some r.review_text

-- An event of a user about a review.
unfoldable pub announces : ℕ → ℕ → ActivityEvent → Bool
announces rating_id user_id e = is_event_of rating_id e && e.user_id == user_id

-- A review of a user with something to show.
unfoldable pub shows : ℕ → ℕ → UserRating → Bool
shows rating_id user_id r = r.id == rating_id && (r.user_id == user_id && has_content r)

-- Each review with a score or a text has one event of its author, and there is no other event of a review.
pub record HasFeed (d : Db) : Type 0 where
  pub announced :
      (k u : ℕ)
      → count (announces k u) d.activity_events.rows ≡ count (shows k u) d.user_ratings.rows
  pub keys : (u : ℕ) (t : ItemType) (i : ℕ) → count (is_rating_of u t i) d.user_ratings.rows ≤ 1
  pub event_ids : HasUniqueIds (λ (e : ActivityEvent). e.id) d.activity_events.rows
  pub events_below :
      IdsBelow (λ (e : ActivityEvent). e.id) d.activity_events.next_id d.activity_events.rows

-- A request that leaves events and reviews as they are.
abbrev pub SameFeed : Db → Db → Type 0
SameFeed d d' = (d'.activity_events ≡ d.activity_events) × (d'.user_ratings ≡ d.user_ratings)

pub SameFeed-HasFeed : (d d' : Db) → SameFeed d d' → HasFeed d → HasFeed d'
SameFeed-HasFeed d d' (events, ratings) h = record {
  announced = rw (events, ratings) h.announced;
  keys = rw ratings h.keys;
  event_ids = rw events h.event_ids;
  events_below = rw events h.events_below;
}

-- The events after one review of one user got as many as it should have.
pub record Announces (n u c : ℕ) (d d' : Db) : Type 0 where
  pub own : count (announces n u) d'.activity_events.rows ≡ c
  pub others :
      (k v : ℕ)
      → (k == n && v == u) ≡ false
      → count (announces k v) d'.activity_events.rows ≡ count (announces k v) d.activity_events.rows
  pub ids : HasUniqueIds (λ (e : ActivityEvent). e.id) d'.activity_events.rows
  pub below :
      IdsBelow (λ (e : ActivityEvent). e.id) d'.activity_events.next_id d'.activity_events.rows
  pub ratings : d'.user_ratings ≡ d.user_ratings

announces-apart :
    (n u k v : ℕ) (x : ActivityEvent)
    → (k == n && v == u) ≡ false
    → announces n u x ≡ true
    → announces k v x ≡ false
unfolding announces is_event_of
announces-apart n u k v x other own = ground (arith, other, own)

module _ (n u : ℕ) (d : Db)
    (ids : HasUniqueIds (λ (e : ActivityEvent). e.id) d.activity_events.rows)
    (below : IdsBelow
      (λ (e : ActivityEvent). e.id)
      d.activity_events.next_id
      d.activity_events.rows)
    (few : count (announces n u) d.activity_events.rows ≤ 1)
    (alone : (v : ℕ) → (v == u) ≡ false → count (announces n v) d.activity_events.rows ≡ 0) where
  unannounced :
      find (is_event_of n) d.activity_events.rows ≡ none
      → count (announces n u) d.activity_events.rows ≡ 0
  unfolding announces
  unannounced e =
      count-none (announces n u) (is_event_of n) d.activity_events.rows e
        (λ x hit. ground (arith, hit))

  unchanged-Announces :
      (c : ℕ) → count (announces n u) d.activity_events.rows ≡ c → Announces n u c d d
  unchanged-Announces c e = record {
    own = e;
    others = λ k v other. refl;
    ids = ids;
    below = below;
    ratings = refl;
  }

  -- The event that is there is of this user.
  found-announces :
      (e : ActivityEvent)
      → find (is_event_of n) d.activity_events.rows ≡ some e
      → announces n u e ≡ true
  unfolding announces
  found-announces e found = elim (Bool-cases (e.user_id == u)) [
    | inl own ↦ ground (arith, own, find_passes (is_event_of n) d.activity_events.rows e found)
    | inr other ↦ absurd (
        ground (
          arith,
          alone e.user_id other,
          count-find (announces n e.user_id) (is_event_of n) d.activity_events.rows e found
              (ground (arith, find_passes (is_event_of n) d.activity_events.rows e found)),
        ))
  ]

  create-Announces : (t : ItemType) (i : ℕ) → Announces n u 1 d (create_rating_event u t i n d)
  unfolding create_rating_event insert_row announces is_event_of
  create-Announces t i = elim (Option-cases (find (is_event_of n) d.activity_events.rows)) [
    | inl e ↦
        rw (e, create_rating_event)
          (record {
            own =
                count-append (announces n u) _ d.activity_events.rows
                ∙ ground (arith, unannounced e);
            others = λ k v other.
                count-append (announces k v) _ d.activity_events.rows ∙ ground (arith, other);
            ids = HasUniqueIds-append _ _ d.activity_events.rows below ids;
            below =
                All-append _ _ d.activity_events.rows
                  (All-map _ _ d.activity_events.rows (λ x p. omega arith) below) (omega arith);
            ratings = refl;
          })
    | inr (x, e) ↦
        rw (e, create_rating_event)
          (unchanged-Announces 1 (
            ground (
              arith,
              few,
              count-find (announces n u) (is_event_of n) d.activity_events.rows x e
                  (found-announces x e),
            )))
  ]

  delete-Announces : Announces n u 0 d (delete_rating_event n d)
  unfolding delete_rating_event announces
  delete-Announces = elim (Option-cases (find (is_event_of n) d.activity_events.rows)) [
    | inl e ↦ rw (e, delete_rating_event) (unchanged-Announces 0 (unannounced e))
    | inr (x, e) ↦
        rw (e, delete_rating_event)
          (record {
            own = ground (
              arith,
              few,
              count-delete_found (announces n u) (λ y. y.id == x.id) (is_event_of n)
                  d.activity_events.rows x e (ground arith) (found-announces x e),
            );
            others = λ k v other.
                count-delete (announces k v) (λ y. y.id == x.id) d.activity_events.rows
                  (All-of_found (λ (y : ActivityEvent). y.id) (λ y. announces k v y ≡ false)
                    (is_event_of n) d.activity_events.rows x ids e
                    (announces-apart n u k v x other (found-announces x e)));
            ids = HasUniqueIds-delete _ (λ y. y.id == x.id) d.activity_events.rows ids;
            below = All-delete _ (λ y. y.id == x.id) d.activity_events.rows below;
            ratings = refl;
          })
  ]

  pub write_rating_event-Announces :
      (t : ItemType) (i : ℕ) (r : UserRating)
      → r.id ≡ n
      → Announces n u (if has_content r then 1 else 0) d (write_rating_event u t i r d)
  unfolding write_rating_event
  write_rating_event-Announces t i r same = elim (Bool-cases (has_content r)) [
    | inl full ↦ rw (same, full) (create-Announces t i)
    | inr empty ↦ rw (same, empty) delete-Announces
  ]
