-- ===== src/Feed/Written.antt =====
-- Writing a review, backlogg/ratings/repository.py, under the invariant of the feed.
use backlogg.Prelude.{
  ℕ, Bool, true, false, ◌&&◌, ◌||◌, String, List, Option, none, some, ◌==◌, ◌≡◌, refl, sym, ◌∙◌,
  arith, ◌≤◌, is_some, if◌then◌else◌, find_passes, update_where, All, inl, inr, Bool-cases,
}
use backlogg.Prelude.Rows.{HasUniqueIds-update, All-map, All-of, All-of_found, find-update}
use backlogg.Prelude.Counts.{
  count, count-append, count-update, count-update_none, count-find, count-none, count-le,
  count-apart, count-one-All, count-below, count-id-le,
}
use native.Mathlib.Nat.{le_trans, le_antisymm}
use backlogg.Db.Tables.{ItemType, same_type, UserRating, insert_row, Db, eq_of_same_type}
use backlogg.Ratings.Aggregates.{rates_item}
use backlogg.Ratings.Repository.{is_rating_of, get_rating, write_rating}
use backlogg.Ratings.Sound.{HasSoundTables}
use backlogg.Feed.Announced.{has_content, shows, HasFeed}

-- The reviews after one review of one user was written.
pub record Shows (n u c : ℕ) (before after : List UserRating) : Type 0 where
  pub own : count (shows n u) after ≡ c
  pub others :
      (k v : ℕ) → (k == n && v == u) ≡ false → count (shows k v) after ≡ count (shows k v) before
  pub few : count (shows n u) before ≤ 1
  pub alone : (v : ℕ) → (v == u) ≡ false → count (shows n v) before ≡ 0

shows-le_id : (k v : ℕ) (rs : List UserRating) → count (shows k v) rs ≤ count (λ r. r.id == k) rs
unfolding shows
shows-le_id k v rs = count-le (shows k v) (λ r. r.id == k) rs (λ x hit. ground (arith, hit))

-- A stored review of another id or user shows nothing under this id and user, whatever its content.
module _ (u : ℕ) (t : ItemType) (i : ℕ) (score : Option ℕ) (text : Option String) (d : Db)
    (h : HasSoundTables d) (feed : HasFeed d) where
  abbrev pub content : ℕ
  content = if is_some score || is_some text then 1 else 0

  abbrev rewrite : UserRating → UserRating
  rewrite r = record r { score = score; review_text = text }

  pub inserted-Shows :
      Shows d.user_ratings.next_id u content d.user_ratings.rows
        (write_rating none u t i score text d).1.user_ratings.rows
  unfolding write_rating insert_row shows
  inserted-Shows =
      let absent : (v : ℕ) → count (shows d.user_ratings.next_id v) d.user_ratings.rows ≡ 0 = λ v.
        omega (
          arith,
          shows-le_id d.user_ratings.next_id v d.user_ratings.rows,
          count-below (λ (r : UserRating). r.id) d.user_ratings.next_id d.user_ratings.rows
              h.ratings_below,
        ) in
      record {
        own =
            count-append (shows d.user_ratings.next_id u) _ d.user_ratings.rows
            ∙ ground (arith, absent u);
        others =
            λ k v other. count-append (shows k v) _ d.user_ratings.rows ∙ ground (arith, other);
        few = omega (arith, absent u);
        alone = λ v other. absent v;
      }

  module _ (old : UserRating) (e : get_rating u t i d ≡ some old) where
    old-is_rating_of : is_rating_of u t i old ≡ true
    unfolding get_rating
    old-is_rating_of = find_passes (is_rating_of u t i) d.user_ratings.rows old e

    old-user : old.user_id ≡ u
    unfolding is_rating_of
    old-user = ground (arith, old-is_rating_of)

    -- The update reaches the found review alone.
    rewritten_alone : All (λ r. is_rating_of u t i r ≡ true → r ≡ old) d.user_ratings.rows
    unfolding get_rating
    rewritten_alone = count-one-All (is_rating_of u t i) d.user_ratings.rows old e (feed.keys u t i)

    shows-apart :
        (k v : ℕ) (x : UserRating)
        → (k == old.id && v == u) ≡ false
        → x ≡ old
        → shows k v (rewrite x) ≡ shows k v x
    unfolding shows
    shows-apart k v x other same = rw same (ground (arith, other, old-user))

    -- No review with the id of the found one is of another user.
    no_other_user : (v : ℕ) → (v == u) ≡ false → count (shows old.id v) d.user_ratings.rows ≡ 0
    unfolding shows get_rating
    no_other_user v other =
        let mine : UserRating → Bool = λ r. r.id == old.id && r.user_id == u in
        ground (
          arith,
          count-apart (shows old.id v) mine (λ r. r.id == old.id) d.user_ratings.rows
              (λ x hit. ground (arith, hit)) (λ x hit. ground (arith, hit))
              (λ x hit. ground (arith, hit, other)),
          count-find mine (is_rating_of u t i) d.user_ratings.rows old e (ground (arith, old-user)),
          count-id-le (λ (r : UserRating). r.id) old.id d.user_ratings.rows h.rating_ids,
        )

    of_key : All (λ x. (x.id == old.id) ≡ true → is_rating_of u t i x ≡ true) d.user_ratings.rows
    unfolding get_rating
    of_key =
        All-of_found (λ (r : UserRating). r.id) (λ x. is_rating_of u t i x ≡ true)
          (is_rating_of u t i) d.user_ratings.rows old h.rating_ids e old-is_rating_of

    abbrev rewritten : List UserRating
    rewritten = update_where (is_rating_of u t i) rewrite d.user_ratings.rows

    rewritten-le : count (shows old.id u) rewritten ≤ 1
    rewritten-le = le_trans (shows-le_id old.id u rewritten) (
        count-id-le (λ (r : UserRating). r.id) old.id rewritten
          (HasUniqueIds-update _ (is_rating_of u t i) _ (λ r. refl) d.user_ratings.rows
            h.rating_ids))

    rewritten-has : (is_some score || is_some text) ≡ true → 1 ≤ count (shows old.id u) rewritten
    unfolding get_rating shows is_rating_of rates_item
    rewritten-has full =
        count-find (shows old.id u) (is_rating_of u t i) rewritten (rewrite old)
          (find-update (is_rating_of u t i) (is_rating_of u t i) rewrite d.user_ratings.rows old
            (λ y. refl) e old-is_rating_of)
          (ground (arith, old-user, full))

    rewritten-none : (is_some score || is_some text) ≡ false → count (shows old.id u) rewritten ≡ 0
    unfolding shows
    rewritten-none empty =
        count-update_none (shows old.id u) (is_rating_of u t i) rewrite d.user_ratings.rows
          (All-map _ _ d.user_ratings.rows (λ x own hit. own (ground (arith, hit))) of_key)
          (λ x. ground (arith, empty))

    pub updated-Shows :
        Shows old.id u content d.user_ratings.rows
          (write_rating (some old) u t i score text d).1.user_ratings.rows
    unfolding write_rating
    updated-Shows = record {
      own = elim (Bool-cases (is_some score || is_some text)) [
        | inl full ↦ rw full (le_antisymm rewritten-le (rewritten-has full))
        | inr empty ↦ rw empty (rewritten-none empty)
      ];
      others = λ k v other.
          count-update (shows k v) (is_rating_of u t i) rewrite d.user_ratings.rows (
            All-map _ _ d.user_ratings.rows (λ x same hit. shows-apart k v x other (same hit))
              rewritten_alone);
      few = omega (
        arith,
        shows-le_id old.id u d.user_ratings.rows,
        count-id-le (λ (r : UserRating). r.id) old.id d.user_ratings.rows h.rating_ids,
      );
      alone = no_other_user;
    }

  -- A key that the new review has is the key that was looked up.
  count-key_of_new :
      (v : ℕ) (t' : ItemType) (j : ℕ)
      → get_rating u t i d ≡ none
      → (u == v && (same_type t t' && i == j)) ≡ true
      → count (is_rating_of v t' j) d.user_ratings.rows ≡ 0
  unfolding get_rating
  count-key_of_new v t' j e same =
      let user : v ≡ u = ground (arith, same) in
      let type : t' ≡ t = sym (eq_of_same_type t t' (ground (arith, same))) in
      let item : j ≡ i = ground (arith, same) in
      rw (user, type, item)
        (count-none (is_rating_of u t i) (is_rating_of u t i) d.user_ratings.rows e (λ x hit. hit))

  -- A user keeps at most one review of an item.
  pub write_rating-keys :
      (found : Option UserRating) (v : ℕ) (t' : ItemType) (j : ℕ)
      → get_rating u t i d ≡ found
      → count (is_rating_of v t' j) (write_rating found u t i score text d).1.user_ratings.rows ≤ 1
  unfolding write_rating is_rating_of rates_item insert_row
  write_rating-keys (some old) v t' j e =
      rw
        (count-update (is_rating_of v t' j) (is_rating_of u t i) rewrite d.user_ratings.rows
          (All-of _ (λ x hit. refl) d.user_ratings.rows))
        (feed.keys v t' j)
  write_rating-keys none v t' j e = elim (Bool-cases (u == v && (same_type t t' && i == j))) [
    | inl same ↦
        rw
          (
            count-append (is_rating_of v t' j) _ d.user_ratings.rows,
            count-key_of_new v t' j e same,
            same,
          )
          (omega arith)
    | inr other ↦
        rw (count-append (is_rating_of v t' j) _ d.user_ratings.rows, other)
          (ground (arith, feed.keys v t' j))
  ]

  -- The review that is answered shows what it was given, and no other review changes what it shows.
  pub written-Shows :
      (found : Option UserRating)
      → get_rating u t i d ≡ found
      → let (r, d') = write_rating found u t i score text d in
        Shows r.id u (if has_content r then 1 else 0) d.user_ratings.rows d'.user_ratings.rows
  unfolding write_rating
  written-Shows none e = inserted-Shows
  written-Shows (some old) e = updated-Shows old e

  pub write_rating-activity_events :
      (found : Option UserRating)
      → (write_rating found u t i score text d).1.activity_events ≡ d.activity_events
  unfolding write_rating
  write_rating-activity_events none = refl
  write_rating-activity_events (some old) = refl
