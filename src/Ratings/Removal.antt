-- ===== src/Ratings/Removal.antt =====
-- Deleting and hiding a review, and the statements that touch neither reviews, users nor items, under
-- the invariant of Ratings/Sound.antt.
use backlogg.Prelude.{
  ℕ, Bool, true, some, ◌==◌, ◌≡◌, refl, arith, find, find_passes, All, inl, inr, Bool-cases,
  same_flag,
}
use backlogg.Prelude.Rows.{
  All-delete, All-update, All-map, All-of_found, HasUniqueIds-delete, HasUniqueIds-update,
}
use backlogg.Db.Tables.{ItemType, UserRating, Db, same_type_refl}
use backlogg.Ratings.Aggregates.{rates_item}
use backlogg.Ratings.Repository.{is_rating_of, get_rating, delete_rating, set_rating_hidden}
use backlogg.Ratings.Scores.{is_key, visible_scores-update, visible_scores-delete}
use backlogg.Ratings.Freshness.{AgreeOutside}
use backlogg.Ratings.Sound.{HasSoundTables, IsSound}

-- A statement that leaves items, users and ratings as they are.
abbrev pub SameCore : Db → Db → Type 0
SameCore d d' = (d'.items ≡ d.items) × (d'.users ≡ d.users) × (d'.user_ratings ≡ d.user_ratings)

pub SameCore-IsSound : (d d' : Db) → SameCore d d' → IsSound d → IsSound d'
SameCore-IsSound d d' (items, users, ratings) s = record {
  fresh = rw (items, users, ratings) s.fresh;
  tables = record {
    rating_ids = rw ratings s.tables.rating_ids;
    ratings_below = rw ratings s.tables.ratings_below;
    authors_below = rw (users, ratings) s.tables.authors_below;
    users_below = rw users s.tables.users_below;
  };
}

pub get_rating-rates_item :
    (user_id : ℕ) (t : ItemType) (i : ℕ) (d : Db) (r : UserRating)
    → get_rating user_id t i d ≡ some r
    → rates_item t i r ≡ true
unfolding get_rating is_rating_of
get_rating-rates_item user_id t i d r e =
    ground (arith, find_passes (is_rating_of user_id t i) d.user_ratings.rows r e)

pub rates_item_self : (r : UserRating) → rates_item r.item_type r.item_id r ≡ true
unfolding rates_item
rates_item_self r = rw same_type_refl (ground arith)

module _ (d : Db) (r : UserRating) (t : ItemType) (i : ℕ) where
  -- The rows with the id of a found review are of its item.
  abbrev pub AllOfItem : Type 0
  AllOfItem =
      All (λ (x : UserRating). (x.id == r.id) ≡ true → rates_item t i x ≡ true) d.user_ratings.rows

  pub found-AllOfItem :
      (p : UserRating → Bool)
      → find p d.user_ratings.rows ≡ some r
      → rates_item t i r ≡ true
      → HasSoundTables d
      → AllOfItem
  found-AllOfItem p e own h =
      All-of_found (λ (x : UserRating). x.id) (λ x. rates_item t i x ≡ true) p d.user_ratings.rows r
        h.rating_ids e own

  pub delete_rating-AgreeOutside : AllOfItem → AgreeOutside d (delete_rating r d) (is_key t i)
  unfolding delete_rating
  delete_rating-AgreeOutside own u j other =
      visible_scores-delete d.users.rows t i (λ x. x.id == r.id) d.user_ratings.rows own u j other

  pub delete_rating-HasSoundTables : HasSoundTables d → HasSoundTables (delete_rating r d)
  unfolding delete_rating
  delete_rating-HasSoundTables h = record {
    rating_ids = HasUniqueIds-delete _ (λ x. x.id == r.id) d.user_ratings.rows h.rating_ids;
    ratings_below = All-delete _ (λ x. x.id == r.id) d.user_ratings.rows h.ratings_below;
    authors_below = All-delete _ (λ x. x.id == r.id) d.user_ratings.rows h.authors_below;
    users_below = h.users_below;
  }

  module _ (hidden : Bool) where
    pub set_rating_hidden-AgreeOutside :
        AllOfItem → AgreeOutside d (set_rating_hidden r hidden d) (is_key t i)
    unfolding set_rating_hidden rates_item
    set_rating_hidden-AgreeOutside own u j other =
        elim (Bool-cases (same_flag r.is_hidden hidden)) [
          | inl e ↦ rw (e, set_rating_hidden) refl
          | inr e ↦
              rw (e, set_rating_hidden)
                (visible_scores-update d.users.rows t i (λ x. x.id == r.id)
                  (λ x. record x { is_hidden = hidden }) d.user_ratings.rows
                  (All-map _ _ d.user_ratings.rows (λ x f e'. (f e', f e')) own) u j other)
        ]

    pub set_rating_hidden-items : (set_rating_hidden r hidden d).items ≡ d.items
    unfolding set_rating_hidden
    set_rating_hidden-items = ground arith

    pub set_rating_hidden-HasSoundTables :
        HasSoundTables d → HasSoundTables (set_rating_hidden r hidden d)
    unfolding set_rating_hidden
    set_rating_hidden-HasSoundTables h = elim (Bool-cases (same_flag r.is_hidden hidden)) [
      | inl e ↦ rw (e, set_rating_hidden) h
      | inr e ↦
          rw (e, set_rating_hidden)
            (record {
              rating_ids =
                  HasUniqueIds-update _ (λ x. x.id == r.id) _ (λ x. refl) d.user_ratings.rows
                    h.rating_ids;
              ratings_below = All-update _ (λ x. x.id == r.id) _ _ (λ x p. p) h.ratings_below;
              authors_below = All-update _ (λ x. x.id == r.id) _ _ (λ x p. p) h.authors_below;
              users_below = h.users_below;
            })
    ]
