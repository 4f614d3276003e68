-- ===== src/Ratings/Repository.antt =====
-- backlogg/ratings/repository.py: the statements on user_ratings and review_likes. A row is deleted
-- with the rows that its foreign keys cascade to.
use backlogg.Prelude.{
  ℕ, Bool, true, false, ◌&&◌, String, str_eq, List, [], ◌∷◌, Option, none, some, ◌==◌,
  if◌then◌else◌, is_some, same_flag, length, filter, find, any, update_where, delete_where,
}
use backlogg.Db.Tables.{ItemType, same_type, Item, UserRating, ReviewLike, insert_row, Db}
use backlogg.Feed.{is_event_of}
use backlogg.Ratings.Aggregates.{rates_item}

unfoldable pub get_item_by_slug : ItemType → String → Db → Option Item
get_item_by_slug item_type slug d =
    find (λ it. same_type it.item_type item_type && str_eq it.slug slug) d.items

-- The key of uq_user_rating_item.
unfoldable pub is_rating_of : ℕ → ItemType → ℕ → UserRating → Bool
is_rating_of user_id item_type item_id r = r.user_id == user_id && rates_item item_type item_id r

unfoldable pub get_rating : ℕ → ItemType → ℕ → Db → Option UserRating
get_rating user_id item_type item_id d =
    find (is_rating_of user_id item_type item_id) d.user_ratings.rows

unfoldable pub get_rating_by_id : ℕ → Db → Option UserRating
get_rating_by_id rating_id d = find (λ r. r.id == rating_id) d.user_ratings.rows

-- INSERT ... ON CONFLICT uq_user_rating_item DO UPDATE, and the row that it leaves, given the row
-- with this key.
unfoldable pub write_rating :
    Option UserRating → ℕ → ItemType → ℕ → Option ℕ → Option String → Db → UserRating × Db
write_rating (some old) user_id item_type item_id score review_text d = (
  record old { score = score; review_text = review_text },
  record d {
    user_ratings = record (d.user_ratings) {
      rows =
          update_where (is_rating_of user_id item_type item_id)
            (λ r. record r { score = score; review_text = review_text }) d.user_ratings.rows;
    };
  },
)
write_rating none user_id item_type item_id score review_text d =
    let row : ℕ → UserRating = λ id. record {
      id = id;
      user_id = user_id;
      item_type = item_type;
      item_id = item_id;
      score = score;
      review_text = review_text;
      is_hidden = false;
    } in
    (row d.user_ratings.next_id, record d { user_ratings = insert_row row d.user_ratings })

unfoldable pub upsert_rating : ℕ → ItemType → ℕ → Option ℕ → Option String → Db → UserRating × Db
upsert_rating user_id item_type item_id score review_text d =
    write_rating (get_rating user_id item_type item_id d) user_id item_type item_id score
      review_text d

-- The likes, reports and feed event of a review go with it (ON DELETE CASCADE).
unfoldable pub delete_rating : UserRating → Db → Db
delete_rating rating d = record d {
  user_ratings = record (d.user_ratings) {
    rows = delete_where (λ r. r.id == rating.id) d.user_ratings.rows;
  };
  review_likes = record (d.review_likes) {
    rows = delete_where (λ l. l.rating_id == rating.id) d.review_likes.rows;
  };
  review_reports = record (d.review_reports) {
    rows = delete_where (λ p. p.rating_id == rating.id) d.review_reports.rows;
  };
  activity_events = record (d.activity_events) {
    rows = delete_where (is_event_of rating.id) d.activity_events.rows;
  };
}

unfoldable pub set_rating_hidden : UserRating → Bool → Db → Db
set_rating_hidden rating hidden d = if same_flag rating.is_hidden hidden then d else record d {
  user_ratings = record (d.user_ratings) {
    rows =
        update_where (λ r. r.id == rating.id) (λ r. record r { is_hidden = hidden })
          d.user_ratings.rows;
  };
}

-- SELECT DISTINCT item_type, item_id
unfoldable pub add_distinct : ItemType × ℕ → List (ItemType × ℕ) → List (ItemType × ℕ)
add_distinct (t, i) items =
    if any (λ k. same_type t k.0 && i == k.1) items then items else (t, i) ∷ items

unfoldable pub distinct_items : List UserRating → List (ItemType × ℕ)
distinct_items [] = []
distinct_items (r ∷ rs) = add_distinct (r.item_type, r.item_id) (distinct_items rs)

unfoldable pub get_distinct_rated_items_for_user : ℕ → Db → List (ItemType × ℕ)
get_distinct_rated_items_for_user user_id d =
    distinct_items (filter (λ r. r.user_id == user_id) d.user_ratings.rows)

unfoldable pub is_like_of : ℕ → ℕ → ReviewLike → Bool
is_like_of user_id rating_id l = l.user_id == user_id && l.rating_id == rating_id

unfoldable pub get_like : ℕ → ℕ → Db → Option ReviewLike
get_like user_id rating_id d = find (is_like_of user_id rating_id) d.review_likes.rows

-- INSERT ... ON CONFLICT uq_review_like DO NOTHING: was a row inserted?
unfoldable pub create_like_if_not_exists : ℕ → ℕ → Db → Bool × Db
create_like_if_not_exists user_id rating_id d =
    if is_some (get_like user_id rating_id d) then (false, d) else (
      true,
      record d {
        review_likes =
            insert_row (λ id. record { id = id; user_id = user_id; rating_id = rating_id })
              d.review_likes;
      },
    )

unfoldable pub delete_like_if_exists : ℕ → ℕ → Db → Db
delete_like_if_exists user_id rating_id d = elim (get_like user_id rating_id d) [
  | none ↦ d
  | some like ↦ record d {
    review_likes = record (d.review_likes) {
      rows = delete_where (λ l. l.id == like.id) d.review_likes.rows;
    };
  }
]

unfoldable pub count_likes : ℕ → Db → ℕ
count_likes rating_id d = length (filter (λ l. l.rating_id == rating_id) d.review_likes.rows)
