-- ===== src/Feed/Erased.antt =====
-- Deleting an account, backlogg/users/repository.py, under the invariant of the feed.
use backlogg.Prelude.{
  ℕ, Bool, true, false, ◌&&◌, ◌||◌, ◌==◌, ◌≡◌, refl, sym, ◌∙◌, arith, delete_where, inl, inr,
  Bool-cases, Option-cases,
}
use backlogg.Prelude.Rows.{HasUniqueIds-delete, All-delete, All-of}
use backlogg.Prelude.Counts.{
  count, count-delete, count-delete_all, count-delete-le, count-any, count-apart, count-id-le,
}
use native.Mathlib.Nat.{le_trans}
use backlogg.Db.Tables.{UserRating, ActivityEvent, Db}
use backlogg.Feed.{is_event_of}
use backlogg.Feed.Announced.{announces, shows, HasFeed}
use backlogg.Ratings.Repository.{is_rating_of}
use backlogg.Ratings.Sound.{HasSoundTables}
use backlogg.Users.Repository.{of_author, of_authored, delete_user}

module _ (u : ℕ) (d : Db) (h : HasSoundTables d) (feed : HasFeed d) where
  -- The events that go with the account.
  abbrev goes : ActivityEvent → Bool
  goes e = e.user_id == u || of_authored u d.user_ratings.rows e.rating_id

  -- A review of the account is of no other user.
  shows-other :
      (k v : ℕ)
      → of_author u d.user_ratings.rows k ≡ true
      → (v == u) ≡ false
      → count (shows k v) d.user_ratings.rows ≡ 0
  unfolding of_author shows
  shows-other k v hit other =
      let mine : UserRating → Bool = λ r. r.id == k && r.user_id == u in
      ground (
        arith,
        count-apart (shows k v) mine (λ r. r.id == k) d.user_ratings.rows (λ x h. ground (arith, h))
            (λ x h. ground (arith, h)) (λ x h. ground (arith, h, other)),
        count-any mine d.user_ratings.rows hit,
        count-id-le (λ (r : UserRating). r.id) k d.user_ratings.rows h.rating_ids,
      )

  stays :
      (k v : ℕ) (x : ActivityEvent)
      → of_author u d.user_ratings.rows k ≡ false
      → (v == u) ≡ false
      → goes x ≡ true
      → announces k v x ≡ false
  unfolding announces is_event_of
  stays k v x free other gone = elim (Option-cases x.rating_id) [
    | inl e ↦ rw e refl
    | inr (j, e) ↦ elim (Bool-cases (j == k)) [
      | inr far ↦ rw (e, far) refl
      | inl near ↦
          let same : j ≡ k = ground (arith, near) in
          let user : x.user_id ≡ u = ground (arith, rw (e, same, free) at gone) in
          rw (e, user) (ground (arith, other))
    ]
  ]

  kept-events :
      (k v : ℕ)
      → (v == u) ≡ false
      → count (announces k v) (delete_where goes d.activity_events.rows)
        ≡ count (announces k v) d.activity_events.rows
  unfolding announces is_event_of
  kept-events k v other = elim (Bool-cases (of_author u d.user_ratings.rows k)) [
    | inl hit ↦ ground (
      arith,
      count-delete-le (announces k v) goes d.activity_events.rows,
      feed.announced k v,
      shows-other k v hit other,
    )
    | inr free ↦
        count-delete (announces k v) goes d.activity_events.rows
          (All-of _ (λ x gone. stays k v x free other gone) d.activity_events.rows)
  ]

  kept-ratings :
      (k v : ℕ)
      → (v == u) ≡ false
      → count (shows k v) (delete_where (λ r. r.user_id == u) d.user_ratings.rows)
        ≡ count (shows k v) d.user_ratings.rows
  unfolding shows
  kept-ratings k v other =
      count-delete (shows k v) (λ r. r.user_id == u) d.user_ratings.rows
        (All-of _ (λ x gone. ground (arith, gone, other)) d.user_ratings.rows)

  both_gone :
      (k : ℕ)
      → count (announces k u) (delete_where goes d.activity_events.rows)
        ≡ count (shows k u) (delete_where (λ r. r.user_id == u) d.user_ratings.rows)
  unfolding announces shows
  both_gone k =
      count-delete_all (announces k u) goes d.activity_events.rows (λ x hit. ground (arith, hit))
      ∙ sym (
          count-delete_all (shows k u) (λ r. r.user_id == u) d.user_ratings.rows
            (λ x hit. ground (arith, hit)))

  pub delete_user-HasFeed : HasFeed (delete_user u d)
  unfolding delete_user
  delete_user-HasFeed = record {
    announced = λ k v. elim (Bool-cases (v == u)) [
      | inl same ↦ let v_is : v ≡ u = ground (arith, same) in rw v_is (both_gone k)
      | inr other ↦ kept-events k v other ∙ feed.announced k v ∙ sym (kept-ratings k v other)
    ];
    keys = λ v t j.
        le_trans (count-delete-le (is_rating_of v t j) (λ r. r.user_id == u) d.user_ratings.rows)
          (feed.keys v t j);
    event_ids = HasUniqueIds-delete _ goes d.activity_events.rows feed.event_ids;
    events_below = All-delete _ goes d.activity_events.rows feed.events_below;
  }
