-- ===== src/Users/Soundness.antt =====
-- Bans, roles, registration and account deletion keep the invariant of Ratings/Sound.antt.
use backlogg.Prelude.{
  ℕ, Bool, String, List, [], ◌∷◌, ◌++◌, Option, ◌==◌, ◌≡◌, refl, arith, ◌<◌, any, find, filter, sym,
  ◌∙◌,
}
use backlogg.Prelude.Rows.{
  HasUniqueIds-delete, All-append, All-delete, All-update, All-map, IdsBelow,
}
use backlogg.Db.Tables.{ItemType, User, UserRating, Db, insert_row}
use backlogg.Ratings.Aggregates.{
  author_active, is_visible, contribution, visible_scores, recalculate_item_aggregates_batch,
}
use backlogg.Ratings.Repository.{get_distinct_rated_items_for_user}
use backlogg.Ratings.Scores.{is_key}
use backlogg.Ratings.Authors.{
  has_rated, any-distinct_items, visible_scores-author, visible_scores-delete_author,
  author_active-update, author_active-delete,
}
use backlogg.Ratings.Freshness.{
  AgreeOutside, keep-All-IsFresh, recalculate_batch-HasFreshAggregates,
}
use backlogg.Ratings.Sound.{HasSoundTables, IsSound, recalculate_batch-HasSoundTables}
use backlogg.Users.Repository.{create_user, update_user_row, delete_user}

-- Some item of the user's distinct rated items is (t, i).
abbrev pub among_rated : ℕ → Db → ItemType → ℕ → Bool
among_rated user_id d t i =
    any (λ k. is_key k.0 k.1 t i) (get_distinct_rated_items_for_user user_id d)

among_rated-eq :
    (u : ℕ) (d : Db) (t : ItemType) (i : ℕ)
    → among_rated u d t i ≡ has_rated u t i d.user_ratings.rows
unfolding get_distinct_rated_items_for_user
among_rated-eq u d t i = any-distinct_items t i (filter (λ r. r.user_id == u) d.user_ratings.rows)

module _ (d : Db) (u : ℕ) where
  abbrev pub rated : List (ItemType × ℕ)
  rated = get_distinct_rated_items_for_user u d

  module _ (f : User → User) (keeps : (x : User) → (f x).id ≡ x.id) where
    update_user_row-HasSoundTables : HasSoundTables d → HasSoundTables (update_user_row u f d)
    unfolding update_user_row
    update_user_row-HasSoundTables h = record {
      rating_ids = h.rating_ids;
      ratings_below = h.ratings_below;
      authors_below = h.authors_below;
      users_below =
          All-update _ (λ x. x.id == u) f d.users.rows (λ x p. rw (keeps x) p) h.users_below;
    }

    update_user_row-AgreeOutside : AgreeOutside d (update_user_row u f d) (among_rated u d)
    unfolding update_user_row
    update_user_row-AgreeOutside t i other =
        visible_scores-author d.users.rows _ u
          (λ a e. author_active-update d.users.rows u f a keeps e) t i d.user_ratings.rows
          (sym (among_rated-eq u d t i) ∙ other)

    -- A change of one user's row, and the recomputation of every item that user has rated.
    pub updated-IsSound :
        IsSound d → IsSound (recalculate_item_aggregates_batch rated (update_user_row u f d))
    unfolding update_user_row
    updated-IsSound s = record {
      fresh =
          recalculate_batch-HasFreshAggregates d (update_user_row u f d) rated refl
            update_user_row-AgreeOutside s.fresh;
      tables =
          recalculate_batch-HasSoundTables rated (update_user_row u f d)
            (update_user_row-HasSoundTables s.tables);
    }

  -- No change at all, and the same recomputation.
  pub unchanged-IsSound : IsSound d → IsSound (recalculate_item_aggregates_batch rated d)
  unchanged-IsSound s = record {
    fresh = recalculate_batch-HasFreshAggregates d d rated refl (λ t i other. refl) s.fresh;
    tables = recalculate_batch-HasSoundTables rated d s.tables;
  }

  delete_user-HasSoundTables : HasSoundTables d → HasSoundTables (delete_user u d)
  unfolding delete_user
  delete_user-HasSoundTables h = record {
    rating_ids = HasUniqueIds-delete _ (λ r. r.user_id == u) d.user_ratings.rows h.rating_ids;
    ratings_below = All-delete _ (λ r. r.user_id == u) d.user_ratings.rows h.ratings_below;
    authors_below = All-delete _ (λ r. r.user_id == u) d.user_ratings.rows h.authors_below;
    users_below = All-delete _ (λ x. x.id == u) d.users.rows h.users_below;
  }

  delete_user-AgreeOutside : AgreeOutside d (delete_user u d) (among_rated u d)
  unfolding delete_user
  delete_user-AgreeOutside t i other =
      let unrated = sym (among_rated-eq u d t i) ∙ other in
      visible_scores-delete_author _ u t i d.user_ratings.rows unrated
      ∙ visible_scores-author d.users.rows _ u (λ a e. author_active-delete d.users.rows u a e) t i
          d.user_ratings.rows unrated

  pub deleted-IsSound :
      IsSound d → IsSound (recalculate_item_aggregates_batch rated (delete_user u d))
  unfolding delete_user
  deleted-IsSound s = record {
    fresh =
        recalculate_batch-HasFreshAggregates d (delete_user u d) rated refl delete_user-AgreeOutside
          s.fresh;
    tables =
        recalculate_batch-HasSoundTables rated (delete_user u d)
          (delete_user-HasSoundTables s.tables);
  }

-- The author of no stored review, newly registered.
module _ (n : ℕ) (u : User) (new : u.id ≡ n) where
  author_active-insert :
      (users : List User) (a : ℕ)
      → a < n
      → author_active (users ++ (u ∷ [])) a ≡ author_active users a
  unfolding author_active find
  author_active-insert [] a h = ground arith
  author_active-insert (x ∷ users) a h = ground (arith, author_active-insert users a h)

  visible_scores-new_author :
      (users : List User) (t : ItemType) (i : ℕ) (rs : List UserRating)
      → IdsBelow (λ (r : UserRating). r.user_id) n rs
      → visible_scores (users ++ (u ∷ [])) t i rs ≡ visible_scores users t i rs
  unfolding visible_scores contribution is_visible
  visible_scores-new_author users t i [] h = refl
  visible_scores-new_author users t i (r ∷ rs) h =
      rw (author_active-insert users r.user_id h.0, visible_scores-new_author users t i rs h.1) refl

pub registered-IsSound :
    (name email hash : String) (display : Option String) (d : Db)
    → IsSound d
    → IsSound (create_user name email hash display d).1
unfolding create_user insert_row
registered-IsSound name email hash display d s = record {
  fresh =
      keep-All-IsFresh d.users.rows _ d.user_ratings.rows d.user_ratings.rows d.items
        (λ t i.
          visible_scores-new_author d.users.next_id _ refl d.users.rows t i d.user_ratings.rows
            s.tables.authors_below)
        s.fresh;
  tables = record {
    rating_ids = s.tables.rating_ids;
    ratings_below = s.tables.ratings_below;
    authors_below = All-map _ _ d.user_ratings.rows (λ r p. omega arith) s.tables.authors_below;
    users_below =
        All-append _ _ d.users.rows
          (All-map _ _ d.users.rows (λ x p. omega arith) s.tables.users_below) (omega arith);
  };
}
