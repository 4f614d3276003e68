-- ===== src/Api/Frames.antt =====
-- Requests that touch neither items, users nor reviews: likes, follows, library entries,
-- notifications and sessions.
use backlogg.Prelude.{ℕ, Bool, String, List, Option, refl, arith, Option-cases, inl, inr}
use backlogg.Db.Tables.{ItemType, User, LibraryStatus, ReviewReport, Db}
use backlogg.Db.Session.{request}
use backlogg.Feed.{create_status_completed_event}
use backlogg.Notifications.{
  create_notification, create_user_completed_notifications_for_followers, notify_new_follower,
  notify_review_like, notify_user_completed_fanout, mark_read_rows, mark_read,
  delete_notification_row, delete_notification,
}
use backlogg.Ratings.Repository.{create_like_if_not_exists, delete_like_if_exists}
use backlogg.Ratings.Service.{like_review, unlike_review}
use backlogg.Ratings.Removal.{SameCore}
use backlogg.Users.Repository.{
  create_refresh_token, revoke_refresh_token, revoke_all_active_for_user,
}
use backlogg.Users.Sessions.{
  Security, login_user, refresh_tokens, rotate, reuse_defense, logout_user,
}
use backlogg.Follows.{
  create_follow_if_not_exists, delete_follow_if_exists, follow_user, unfollow_user,
}
use backlogg.Moderation.{insert_admin_action}
use backlogg.Reports.{
  write_report, create_report_if_not_exists, get_report_by_id, resolve_row, resolve_report_row,
  report_review, resolve_report,
}
use backlogg.Library.{
  write_entry, upsert_library_entry, delete_library_entry, set_library_status, remove_library_entry,
}

pub follow_user-SameCore :
    (fails : Bool) (username : String) (user : User) (d : Db)
    → SameCore d (request (follow_user fails username user) d).1
unfolding follow_user create_follow_if_not_exists notify_new_follower create_notification
follow_user-SameCore fails username user d = ground arith

pub unfollow_user-SameCore :
    (username : String) (user : User) (d : Db)
    → SameCore d (request (unfollow_user username user) d).1
unfolding unfollow_user delete_follow_if_exists
unfollow_user-SameCore username user d = ground arith

pub like_review-SameCore :
    (fails : Bool) (rating_id : ℕ) (user : User) (d : Db)
    → SameCore d (request (like_review fails rating_id user) d).1
unfolding like_review create_like_if_not_exists notify_review_like create_notification
like_review-SameCore fails rating_id user d = ground arith

pub unlike_review-SameCore :
    (rating_id : ℕ) (user : User) (d : Db) → SameCore d (request (unlike_review rating_id user) d).1
unfolding unlike_review delete_like_if_exists
unlike_review-SameCore rating_id user d = ground arith

pub set_library_status-SameCore :
    (fails : Bool) (t : ItemType) (slug : String) (status : LibraryStatus) (user : User) (d : Db)
    → SameCore d (request (set_library_status fails t slug status user) d).1
unfolding set_library_status upsert_library_entry write_entry create_status_completed_event
    notify_user_completed_fanout create_user_completed_notifications_for_followers
set_library_status-SameCore fails t slug status user d = ground arith

pub remove_library_entry-SameCore :
    (t : ItemType) (slug : String) (user : User) (d : Db)
    → SameCore d (request (remove_library_entry t slug user) d).1
unfolding remove_library_entry delete_library_entry
remove_library_entry-SameCore t slug user d = ground arith

pub report_review-SameCore :
    (i : ℕ) (reason : Option String) (user_id : ℕ) (d : Db)
    → SameCore d (request (report_review i reason user_id) d).1
unfolding report_review create_report_if_not_exists write_report
report_review-SameCore i reason user_id d = ground arith

resolve_report_row-SameCore :
    (report : ReviewReport) (d : Db) → SameCore d (resolve_report_row report d).1
unfolding resolve_report_row resolve_row
resolve_report_row-SameCore report d = ground arith

pub resolve_report-SameCore : (i : ℕ) (d : Db) → SameCore d (request (resolve_report i) d).1
unfolding resolve_report insert_admin_action
resolve_report-SameCore i d = elim (Option-cases (get_report_by_id i d)) [
  | inl e ↦ rw e (refl, refl, refl)
  | inr (report, e) ↦ rw e (resolve_report_row-SameCore report d)
]

pub mark_read-SameCore :
    (user_id : ℕ) (ids : Option (List ℕ)) (d : Db)
    → SameCore d (request (mark_read user_id ids) d).1
unfolding mark_read mark_read_rows
mark_read-SameCore user_id ids d = (refl, refl, refl)

pub delete_notification-SameCore :
    (user_id i : ℕ) (d : Db) → SameCore d (request (delete_notification user_id i) d).1
unfolding delete_notification delete_notification_row
delete_notification-SameCore user_id i d = ground arith

module _ (security : Security) where
  pub login_user-SameCore :
      (now : ℕ) (plaintext username password : String) (d : Db)
      → SameCore d (request (login_user security now plaintext username password) d).1
  unfolding login_user create_refresh_token
  login_user-SameCore now plaintext username password d = ground arith

  pub refresh_tokens-SameCore :
      (now : ℕ) (plaintext presented : String) (d : Db)
      → SameCore d (request (refresh_tokens security now plaintext presented) d).1
  unfolding refresh_tokens rotate reuse_defense create_refresh_token revoke_refresh_token
      revoke_all_active_for_user
  refresh_tokens-SameCore now plaintext presented d = ground arith

  pub logout_user-SameCore :
      (now : ℕ) (user : User) (presented : String) (d : Db)
      → SameCore d (request (logout_user security now user presented) d).1
  unfolding logout_user revoke_refresh_token
  logout_user-SameCore now user presented d = ground arith
