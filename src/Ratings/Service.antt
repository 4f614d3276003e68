-- ===== src/Ratings/Service.antt =====
-- backlogg/ratings/service.py, function by function. `fails` says that the notification of a like
-- raises; the request's body is already validated by its schema.
use backlogg.Prelude.{ℕ, Bool, false, not, ◌&&◌, ◌||◌, String, Option, ◌==◌, if◌then◌else◌, is_some}
use backlogg.Db.Tables.{ItemType, movie, series, book, game, Item, User, UserRating, Db}
use backlogg.Db.Session.{Action, pure, gets, execute, modify, commit, or_error, ◌>>=◌, ◌>>◌}
use backlogg.Feed.{create_rating_event, delete_rating_event}
use backlogg.Notifications.{notify_review_like}
use backlogg.Ratings.Aggregates.{recalculate_item_aggregates}
use backlogg.Ratings.Repository.{
  get_item_by_slug, get_rating, get_rating_by_id, upsert_rating, delete_rating,
  create_like_if_not_exists, delete_like_if_exists, count_likes,
}

pub record RatingIn : Type 0 where
  pub score : Option ℕ
  pub review_text : Option String

pub record RatingOut : Type 0 where
  pub id : ℕ
  pub username : String
  pub score : Option ℕ
  pub review_text : Option String
  pub like_count : ℕ
  pub liked_by_viewer : Bool

unfoldable pub item_not_found_detail : ItemType → String
item_not_found_detail movie = "Movie not found"
item_not_found_detail series = "Series not found"
item_not_found_detail book = "Book not found"
item_not_found_detail game = "Game not found"

unfoldable pub rating_to_out : UserRating → User → ℕ → Bool → RatingOut
rating_to_out rating user like_count liked_by_viewer = record {
  id = rating.id;
  username = user.username;
  score = rating.score;
  review_text = rating.review_text;
  like_count = like_count;
  liked_by_viewer = liked_by_viewer;
}

abbrev pub get_item_or_404 : ItemType → String → Action Item
get_item_or_404 item_type slug = do
  item ← gets (get_item_by_slug item_type slug)
  or_error 404 (item_not_found_detail item_type) item

-- A rating with a score or a text has an event in the feed; one with neither has none.
unfoldable pub write_rating_event : ℕ → ItemType → ℕ → UserRating → Db → Db
write_rating_event user_id item_type item_id rating d =
    if is_some rating.score || is_some rating.review_text
    then create_rating_event user_id item_type item_id rating.id d
    else delete_rating_event rating.id d

unfoldable pub rate_item : ItemType → String → RatingIn → User → Action RatingOut
rate_item item_type slug payload user = do
  item ← get_item_or_404 item_type slug
  rating ← execute (upsert_rating user.id item_type item.id payload.score payload.review_text)
  modify (recalculate_item_aggregates item_type item.id)
  modify (write_rating_event user.id item_type item.id rating)
  commit
  like_count ← gets (count_likes rating.id)
  pure (rating_to_out rating user like_count false)

unfoldable pub delete_item_rating : ItemType → String → User → Action (Unit {0})
delete_item_rating item_type slug user = do
  item ← get_item_or_404 item_type slug
  found ← gets (get_rating user.id item_type item.id)
  rating ← or_error 404 "Rating not found" found
  modify (delete_rating rating)
  modify (recalculate_item_aggregates item_type item.id)
  commit

abbrev pub get_review_or_404 : String → ℕ → Action UserRating
get_review_or_404 text rating_id = do
  found ← gets (get_rating_by_id rating_id)
  or_error 404 text found

unfoldable pub like_review : Bool → ℕ → User → Action (Unit {0})
like_review fails rating_id user = do
  rating ← get_review_or_404 "Rating not found" rating_id
  created ← execute (create_like_if_not_exists user.id rating_id)
  commit
  if created && not (rating.user_id == user.id)
      then notify_review_like fails rating.user_id user.id rating_id
      else pure tt

unfoldable pub unlike_review : ℕ → User → Action (Unit {0})
unlike_review rating_id user = do
  get_review_or_404 "Rating not found" rating_id
  modify (delete_like_if_exists user.id rating_id)
  commit
