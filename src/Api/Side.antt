-- ===== src/Api/Side.antt =====
-- Requests that leave sessions, account tokens and reports as they are.
use backlogg.Prelude.{ℕ, Bool, String, List, Option, ◌≡◌, arith}
use backlogg.Db.Tables.{ItemType, User, LibraryStatus, Db}
use backlogg.Db.Session.{request}
use backlogg.Feed.{create_rating_event, delete_rating_event, create_status_completed_event}
use backlogg.Notifications.{
  create_notification, create_user_completed_notifications_for_followers, notify_new_follower,
  notify_review_like, notify_user_completed_fanout, mark_read_rows, mark_read,
  delete_notification_row, delete_notification,
}
use backlogg.Ratings.Aggregates.{recalculate_item_aggregates, recalculate_item_aggregates_batch}
use backlogg.Ratings.Repository.{
  upsert_rating, write_rating, set_rating_hidden, create_like_if_not_exists, delete_like_if_exists,
}
use backlogg.Ratings.Service.{RatingIn, rate_item, write_rating_event, like_review, unlike_review}
use backlogg.Users.Repository.{
  update_user_row, create_user, set_user_banned as set_banned_flag, set_user_admin,
}
use backlogg.Users.Account.{UserCreate, UserUpdate, register_user, update_current_user}
use backlogg.Follows.{
  create_follow_if_not_exists, delete_follow_if_exists, follow_user, unfollow_user,
}
use backlogg.Moderation.{
  insert_admin_action, set_review_hidden, set_user_banned, set_user_admin_role,
}
use backlogg.Library.{
  write_entry, upsert_library_entry, delete_library_entry, set_library_status, remove_library_entry,
}

unfoldable pub SameSide : Db → Db → Type 0
SameSide d d' =
    (d'.refresh_tokens ≡ d.refresh_tokens)
    × (d'.account_tokens ≡ d.account_tokens)
    × (d'.review_reports ≡ d.review_reports)

pub follow_user-SameSide :
    (fails : Bool) (username : String) (user : User) (d : Db)
    → SameSide d (request (follow_user fails username user) d).1
unfolding SameSide follow_user create_follow_if_not_exists notify_new_follower create_notification
follow_user-SameSide fails username user d = ground arith

pub unfollow_user-SameSide :
    (username : String) (user : User) (d : Db)
    → SameSide d (request (unfollow_user username user) d).1
unfolding SameSide unfollow_user delete_follow_if_exists
unfollow_user-SameSide username user d = ground arith

pub like_review-SameSide :
    (fails : Bool) (rating_id : ℕ) (user : User) (d : Db)
    → SameSide d (request (like_review fails rating_id user) d).1
unfolding SameSide like_review create_like_if_not_exists notify_review_like create_notification
like_review-SameSide fails rating_id user d = ground arith

pub unlike_review-SameSide :
    (rating_id : ℕ) (user : User) (d : Db) → SameSide d (request (unlike_review rating_id user) d).1
unfolding SameSide unlike_review delete_like_if_exists
unlike_review-SameSide rating_id user d = ground arith

pub set_library_status-SameSide :
    (fails : Bool) (t : ItemType) (slug : String) (status : LibraryStatus) (user : User) (d : Db)
    → SameSide d (request (set_library_status fails t slug status user) d).1
unfolding SameSide set_library_status upsert_library_entry write_entry create_status_completed_event
    notify_user_completed_fanout create_user_completed_notifications_for_followers
set_library_status-SameSide fails t slug status user d = ground arith

pub remove_library_entry-SameSide :
    (t : ItemType) (slug : String) (user : User) (d : Db)
    → SameSide d (request (remove_library_entry t slug user) d).1
unfolding SameSide remove_library_entry delete_library_entry
remove_library_entry-SameSide t slug user d = ground arith

pub mark_read-SameSide :
    (user_id : ℕ) (ids : Option (List ℕ)) (d : Db)
    → SameSide d (request (mark_read user_id ids) d).1
unfolding SameSide mark_read mark_read_rows
mark_read-SameSide user_id ids d = ground arith

pub delete_notification-SameSide :
    (user_id i : ℕ) (d : Db) → SameSide d (request (delete_notification user_id i) d).1
unfolding SameSide delete_notification delete_notification_row
delete_notification-SameSide user_id i d = ground arith

pub rate_item-SameSide :
    (t : ItemType) (slug : String) (payload : RatingIn) (user : User) (d : Db)
    → SameSide d (request (rate_item t slug payload user) d).1
unfolding SameSide rate_item upsert_rating write_rating recalculate_item_aggregates
    write_rating_event create_rating_event delete_rating_event
rate_item-SameSide t slug payload user d = ground arith

pub update_current_user-SameSide :
    (user : User) (payload : UserUpdate) (d : Db)
    → SameSide d (request (update_current_user user payload) d).1
unfolding SameSide update_current_user update_user_row
update_current_user-SameSide user payload d = ground arith

pub register_user-SameSide :
    (hash : String → String) (payload : UserCreate) (d : Db)
    → SameSide d (request (register_user hash payload) d).1
unfolding SameSide register_user create_user
register_user-SameSide hash payload d = ground arith

pub set_review_hidden-SameSide :
    (i : ℕ) (hidden : Bool) (d : Db) → SameSide d (request (set_review_hidden i hidden) d).1
unfolding SameSide set_review_hidden set_rating_hidden recalculate_item_aggregates
    insert_admin_action
set_review_hidden-SameSide i hidden d = ground arith

pub set_user_banned-SameSide :
    (username : String) (banned : Bool) (d : Db)
    → SameSide d (request (set_user_banned username banned) d).1
unfolding SameSide set_user_banned set_banned_flag update_user_row recalculate_item_aggregates_batch
    insert_admin_action
set_user_banned-SameSide username banned d = ground arith

pub set_user_admin_role-SameSide :
    (caller : User) (username : String) (is_admin : Bool) (d : Db)
    → SameSide d (request (set_user_admin_role caller username is_admin) d).1
unfolding SameSide set_user_admin_role set_user_admin update_user_row insert_admin_action
set_user_admin_role-SameSide caller username is_admin d = ground arith
