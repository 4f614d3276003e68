-- ===== src/Api.antt =====
-- The requests that the routers pass to the services, one after the other on one database. A route
-- with Depends(get_current_user) takes the caller from the bearer token (backlogg/users/auth.py);
-- the admin routes are behind an API key that is checked before the service runs.
pub mod Frames
pub mod Soundness
pub mod Degradation
pub mod Unannounced
pub mod Announced
pub mod Side
pub mod Moderated
pub mod Spent
pub mod Once
pub mod Credentials
pub mod Reported
use backlogg.Prelude.{ℕ, Bool, String, List, [], ◌∷◌, Option}
use backlogg.Db.Tables.{ItemType, User, LibraryStatus, Db}
use backlogg.Db.Session.{Action, Result, request, ◌>>=◌}
use backlogg.Notifications.{mark_read, delete_notification}
use backlogg.Ratings.Service.{RatingIn, rate_item, delete_item_rating, like_review, unlike_review}
use backlogg.Users.Sessions.{Security, get_current_user, login_user, refresh_tokens, logout_user}
use backlogg.Users.Recovery.{
  request_email_verification, confirm_email_verification, request_password_reset, reset_password,
}
use backlogg.Users.Account.{
  UserCreate, UserUpdate, register_user, update_current_user, delete_current_user,
}
use backlogg.Moderation.{set_review_hidden, set_user_banned, set_user_admin_role}
use backlogg.Follows.{follow_user, unfollow_user}
use backlogg.Reports.{report_review, resolve_report}
use backlogg.Library.{set_library_status, remove_library_entry}

-- The services behind an authenticated route.
pub data Member : Type 0 where
  rate : ItemType → String → RatingIn → Member
  unrate : ItemType → String → Member
  like : Bool → ℕ → Member
  unlike : ℕ → Member
  follow : Bool → String → Member
  unfollow : String → Member
  set_status : Bool → ItemType → String → LibraryStatus → Member
  remove_entry : ItemType → String → Member
  read_notifications : Option (List ℕ) → Member
  remove_notification : ℕ → Member
  edit_profile : UserUpdate → Member
  delete_account : Member
  logout : String → Member
  set_role : String → Bool → Member
  report : ℕ → Option String → Member
  verify_email : String → ℕ → Member

pub data Call : Type 0 where
  member : Option String → Member → Call
  register : UserCreate → Call
  login : String → String → String → Call
  refresh : String → String → Call
  hide : ℕ → Bool → Call
  set_ban : String → Bool → Call
  resolve : ℕ → Call
  confirm_email : String → Call
  forgot_password : String → ℕ → String → Call
  reset : String → String → Call

module _ (security : Security) (now : ℕ) where
  -- What the service leaves stored, on behalf of a user.
  unfoldable pub serve_member : Member → User → Db → Db
  serve_member (rate t slug payload) user d = (request (rate_item t slug payload user) d).1
  serve_member (unrate t slug) user d = (request (delete_item_rating t slug user) d).1
  serve_member (like fails i) user d = (request (like_review fails i user) d).1
  serve_member (unlike i) user d = (request (unlike_review i user) d).1
  serve_member (follow fails name) user d = (request (follow_user fails name user) d).1
  serve_member (unfollow name) user d = (request (unfollow_user name user) d).1
  serve_member (set_status fails t slug status) user d =
      (request (set_library_status fails t slug status user) d).1
  serve_member (remove_entry t slug) user d = (request (remove_library_entry t slug user) d).1
  serve_member (read_notifications ids) user d = (request (mark_read user.id ids) d).1
  serve_member (remove_notification i) user d = (request (delete_notification user.id i) d).1
  serve_member (edit_profile payload) user d = (request (update_current_user user payload) d).1
  serve_member delete_account user d = (request (delete_current_user user) d).1
  serve_member (logout presented) user d = (request (logout_user security now user presented) d).1
  serve_member (set_role name is_admin) user d =
      (request (set_user_admin_role user name is_admin) d).1
  serve_member (report i reason) user d = (request (report_review i reason user.id) d).1
  serve_member (verify_email plaintext ttl) user d =
      (request (request_email_verification security now plaintext ttl user) d).1

  -- The dependency runs first; the service runs only for the user that it returns.
  abbrev pub on_behalf : Member → Result User → Db → Db
  on_behalf m (Result.ok user) d = serve_member m user d
  on_behalf m (Result.raised e) d = d

  unfoldable pub serve : Call → Db → Db
  serve (member credentials m) d =
      on_behalf m (request (get_current_user security now credentials) d).0 d
  serve (register payload) d = (request (register_user security.hash_password payload) d).1
  serve (login plaintext name password) d =
      (request (login_user security now plaintext name password) d).1
  serve (refresh plaintext presented) d =
      (request (refresh_tokens security now plaintext presented) d).1
  serve (hide i hidden) d = (request (set_review_hidden i hidden) d).1
  serve (set_ban name banned) d = (request (set_user_banned name banned) d).1
  serve (resolve i) d = (request (resolve_report i) d).1
  serve (confirm_email presented) d =
      (request (confirm_email_verification security now presented) d).1
  serve (forgot_password plaintext ttl email) d =
      (request (request_password_reset security now plaintext ttl email) d).1
  serve (reset presented new_password) d =
      (request (reset_password security now presented new_password) d).1

-- A history of calls, each with the time at which it is served.
unfoldable pub serve_all : Security → List (ℕ × Call) → Db → Db
serve_all security [] d = d
serve_all security ((now, c) ∷ calls) d = serve_all security calls (serve security now c d)
