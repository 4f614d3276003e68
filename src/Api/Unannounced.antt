-- ===== src/Api/Unannounced.antt =====
-- Requests that leave the reviews and their events as they are.
use backlogg.Prelude.{
  ℕ, Bool, String, List, Option, refl, arith, if◌then◌else◌, Option-cases, Bool-cases, inl, inr,
}
use backlogg.Db.Tables.{ItemType, User, LibraryStatus, Db}
use backlogg.Db.Session.{request}
use backlogg.Feed.{create_status_completed_event}
use backlogg.Feed.Announced.{HasFeed, SameFeed, SameFeed-HasFeed}
use backlogg.Feed.Requests.{create_status_completed_event-HasFeed}
use backlogg.Notifications.{
  create_notification, create_user_completed_notifications_for_followers, notify_new_follower,
  notify_review_like, notify_user_completed_fanout, mark_read_rows, mark_read,
  delete_notification_row, delete_notification,
}
use backlogg.Ratings.Aggregates.{recalculate_item_aggregates_batch}
use backlogg.Ratings.Repository.{get_item_by_slug, create_like_if_not_exists, delete_like_if_exists}
use backlogg.Ratings.Service.{like_review, unlike_review}
use backlogg.Users.Repository.{
  create_account_token, consume_account_token, set_email_verified, set_password_hash,
  update_user_row, create_user, set_user_banned as set_banned_flag, set_user_admin,
  create_refresh_token, revoke_refresh_token, revoke_all_active_for_user,
}
use backlogg.Users.Sessions.{
  Security, login_user, refresh_tokens, rotate, reuse_defense, logout_user,
}
use backlogg.Users.Recovery.{
  request_email_verification, confirm_email_verification, request_password_reset, reset_password,
}
use backlogg.Users.Account.{UserCreate, UserUpdate, register_user, update_current_user}
use backlogg.Follows.{
  create_follow_if_not_exists, delete_follow_if_exists, follow_user, unfollow_user,
}
use backlogg.Moderation.{insert_admin_action, set_user_banned, set_user_admin_role}
use backlogg.Reports.{
  write_report, create_report_if_not_exists, resolve_row, resolve_report_row, report_review,
  resolve_report,
}
use backlogg.Library.{
  write_entry, upsert_library_entry, get_library_status, delete_library_entry, is_new_completion,
  set_library_status, remove_library_entry,
}

pub follow_user-SameFeed :
    (fails : Bool) (username : String) (user : User) (d : Db)
    → SameFeed d (request (follow_user fails username user) d).1
unfolding follow_user create_follow_if_not_exists notify_new_follower create_notification
follow_user-SameFeed fails username user d = ground arith

pub unfollow_user-SameFeed :
    (username : String) (user : User) (d : Db)
    → SameFeed d (request (unfollow_user username user) d).1
unfolding unfollow_user delete_follow_if_exists
unfollow_user-SameFeed username user d = ground arith

pub like_review-SameFeed :
    (fails : Bool) (rating_id : ℕ) (user : User) (d : Db)
    → SameFeed d (request (like_review fails rating_id user) d).1
unfolding like_review create_like_if_not_exists notify_review_like create_notification
like_review-SameFeed fails rating_id user d = ground arith

pub unlike_review-SameFeed :
    (rating_id : ℕ) (user : User) (d : Db) → SameFeed d (request (unlike_review rating_id user) d).1
unfolding unlike_review delete_like_if_exists
unlike_review-SameFeed rating_id user d = ground arith

pub remove_library_entry-SameFeed :
    (t : ItemType) (slug : String) (user : User) (d : Db)
    → SameFeed d (request (remove_library_entry t slug user) d).1
unfolding remove_library_entry delete_library_entry
remove_library_entry-SameFeed t slug user d = ground arith

pub mark_read-SameFeed :
    (user_id : ℕ) (ids : Option (List ℕ)) (d : Db)
    → SameFeed d (request (mark_read user_id ids) d).1
unfolding mark_read mark_read_rows
mark_read-SameFeed user_id ids d = (refl, refl)

pub delete_notification-SameFeed :
    (user_id i : ℕ) (d : Db) → SameFeed d (request (delete_notification user_id i) d).1
unfolding delete_notification delete_notification_row
delete_notification-SameFeed user_id i d = ground arith

pub report_review-SameFeed :
    (i : ℕ) (reason : Option String) (user_id : ℕ) (d : Db)
    → SameFeed d (request (report_review i reason user_id) d).1
unfolding report_review create_report_if_not_exists write_report
report_review-SameFeed i reason user_id d = ground arith

pub resolve_report-SameFeed : (i : ℕ) (d : Db) → SameFeed d (request (resolve_report i) d).1
unfolding resolve_report insert_admin_action resolve_report_row resolve_row
resolve_report-SameFeed i d = ground arith

pub update_current_user-SameFeed :
    (user : User) (payload : UserUpdate) (d : Db)
    → SameFeed d (request (update_current_user user payload) d).1
unfolding update_current_user update_user_row
update_current_user-SameFeed user payload d = (refl, refl)

pub register_user-SameFeed :
    (hash : String → String) (payload : UserCreate) (d : Db)
    → SameFeed d (request (register_user hash payload) d).1
unfolding register_user create_user
register_user-SameFeed hash payload d = ground arith

pub set_user_banned-SameFeed :
    (username : String) (banned : Bool) (d : Db)
    → SameFeed d (request (set_user_banned username banned) d).1
unfolding set_user_banned set_banned_flag update_user_row recalculate_item_aggregates_batch
    insert_admin_action
set_user_banned-SameFeed username banned d = ground arith

pub set_user_admin_role-SameFeed :
    (caller : User) (username : String) (is_admin : Bool) (d : Db)
    → SameFeed d (request (set_user_admin_role caller username is_admin) d).1
unfolding set_user_admin_role set_user_admin update_user_row insert_admin_action
set_user_admin_role-SameFeed caller username is_admin d = ground arith

module _ (security : Security) (now : ℕ) where
  pub login_user-SameFeed :
      (plaintext username password : String) (d : Db)
      → SameFeed d (request (login_user security now plaintext username password) d).1
  unfolding login_user create_refresh_token
  login_user-SameFeed plaintext username password d = ground arith

  pub refresh_tokens-SameFeed :
      (plaintext presented : String) (d : Db)
      → SameFeed d (request (refresh_tokens security now plaintext presented) d).1
  unfolding refresh_tokens rotate reuse_defense create_refresh_token revoke_refresh_token
      revoke_all_active_for_user
  refresh_tokens-SameFeed plaintext presented d = ground arith

  pub logout_user-SameFeed :
      (user : User) (presented : String) (d : Db)
      → SameFeed d (request (logout_user security now user presented) d).1
  unfolding logout_user revoke_refresh_token
  logout_user-SameFeed user presented d = ground arith

  pub request_email_verification-SameFeed :
      (plaintext : String) (ttl : ℕ) (user : User) (d : Db)
      → SameFeed d (request (request_email_verification security now plaintext ttl user) d).1
  unfolding request_email_verification create_account_token
  request_email_verification-SameFeed plaintext ttl user d = (refl, refl)

  pub request_password_reset-SameFeed :
      (plaintext : String) (ttl : ℕ) (email : String) (d : Db)
      → SameFeed d (request (request_password_reset security now plaintext ttl email) d).1
  unfolding request_password_reset create_account_token
  request_password_reset-SameFeed plaintext ttl email d = ground arith

  pub confirm_email_verification-SameFeed :
      (presented : String) (d : Db)
      → SameFeed d (request (confirm_email_verification security now presented) d).1
  unfolding confirm_email_verification consume_account_token set_email_verified update_user_row
  confirm_email_verification-SameFeed presented d = ground arith

  pub reset_password-SameFeed :
      (presented new_password : String) (d : Db)
      → SameFeed d (request (reset_password security now presented new_password) d).1
  unfolding reset_password consume_account_token set_password_hash update_user_row
      revoke_all_active_for_user
  reset_password-SameFeed presented new_password d = ground arith

module _ (t : ItemType) (status : LibraryStatus) (user : User) (d : Db) where
  -- The entry, and the event of a transition into completed.
  abbrev after_status : ℕ → Db
  after_status i =
      let d' = (upsert_library_entry user.id t i status d).1 in
      if is_new_completion status (get_library_status user.id t i d)
      then create_status_completed_event user.id t i d'
      else d'

  upsert_entry-SameFeed : (i : ℕ) → SameFeed d (upsert_library_entry user.id t i status d).1
  unfolding upsert_library_entry write_entry
  upsert_entry-SameFeed i = ground arith

  after_status-HasFeed : (i : ℕ) → HasFeed d → HasFeed (after_status i)
  after_status-HasFeed i h =
      let kept =
        SameFeed-HasFeed d (upsert_library_entry user.id t i status d).1 (upsert_entry-SameFeed i)
          h in
      elim (Bool-cases (is_new_completion status (get_library_status user.id t i d))) [
        | inl new ↦ rw new (create_status_completed_event-HasFeed user.id t i _ kept)
        | inr old ↦ rw old kept
      ]

  pub set_library_status-HasFeed :
      (fails : Bool) (slug : String)
      → HasFeed d
      → HasFeed (request (set_library_status fails t slug status user) d).1
  unfolding set_library_status notify_user_completed_fanout
      create_user_completed_notifications_for_followers
  set_library_status-HasFeed fails slug h = elim (Option-cases (get_item_by_slug t slug d)) [
    | inl e ↦ rw e h
    | inr (item, e) ↦
        SameFeed-HasFeed (after_status item.id) _ (rw e (ground arith))
          (after_status-HasFeed item.id h)
  ]
