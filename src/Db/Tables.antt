-- ===== src/Db/Tables.antt =====
-- The tables of the social core as rows: backlogg/users/models.py, backlogg/ratings/models.py,
-- backlogg/feed/models.py, backlogg/follows/models.py, backlogg/library/models.py,
-- backlogg/notifications/models.py, backlogg/reports/models.py, backlogg/admin/models.py and the
-- columns of the four catalog tables that these domains read or write. Timestamps that no modelled
-- operation reads are left out.
use backlogg.Prelude.{
  ℕ, suc, String, Bool, true, false, Option, List, [], ◌∷◌, ◌++◌, ◌≡◌, refl, arith,
}

-- The keys of ITEM_MODELS.
pub data ItemType : Type 0 where
  movie series book game : ItemType

unfoldable pub same_type : ItemType → ItemType → Bool
same_type movie movie = true
same_type series series = true
same_type book book = true
same_type game game = true
same_type _ _ = false

-- A row of movies, series, books or games. The rating is in hundredths (NUMERIC(3, 2)).
pub record Item : Type 0 where
  pub item_type : ItemType
  pub id : ℕ
  pub title : String
  pub slug : String
  pub rating_internal : Option ℕ
  pub rating_count_internal : ℕ

pub record User : Type 0 where
  pub id : ℕ
  pub username : String
  pub email : String
  pub password_hash : String
  pub display_name : Option String
  pub bio : Option String
  pub avatar_url : Option String
  pub email_verified : Bool
  pub is_banned : Bool
  pub is_admin : Bool
  pub is_superadmin : Bool

-- The score is in tenths (NUMERIC(2, 1)): 10, 15, ..., 50.
pub record UserRating : Type 0 where
  pub id : ℕ
  pub user_id : ℕ
  pub item_type : ItemType
  pub item_id : ℕ
  pub score : Option ℕ
  pub review_text : Option String
  pub is_hidden : Bool

pub record ReviewLike : Type 0 where
  pub id : ℕ
  pub user_id : ℕ
  pub rating_id : ℕ

pub data ReportStatus : Type 0 where
  opened resolved : ReportStatus

pub record ReviewReport : Type 0 where
  pub id : ℕ
  pub reporter_id : ℕ
  pub rating_id : ℕ
  pub reason : Option String
  pub status : ReportStatus

pub data EventType : Type 0 where
  rating_created status_completed : EventType

pub record ActivityEvent : Type 0 where
  pub id : ℕ
  pub user_id : ℕ
  pub event_type : EventType
  pub item_type : ItemType
  pub item_id : ℕ
  pub rating_id : Option ℕ

pub record Follow : Type 0 where
  pub id : ℕ
  pub follower_id : ℕ
  pub followed_id : ℕ

-- LIBRARY_STATUSES
pub data LibraryStatus : Type 0 where
  want in_progress completed dropped : LibraryStatus

pub record LibraryEntry : Type 0 where
  pub id : ℕ
  pub user_id : ℕ
  pub item_type : ItemType
  pub item_id : ℕ
  pub status : LibraryStatus

pub data NotificationType : Type 0 where
  new_follower review_like user_completed : NotificationType

-- The `target_type` column: 'review', or the item type in upper case.
pub data TargetType : Type 0 where
  review : TargetType
  content : ItemType → TargetType

pub record Notification : Type 0 where
  pub id : ℕ
  pub recipient_id : ℕ
  pub actor_id : ℕ
  pub type : NotificationType
  pub target_type : Option TargetType
  pub target_id : Option ℕ
  pub is_read : Bool

pub data ActionName : Type 0 where
  hide_review unhide_review ban_user unban_user resolve_report grant_admin revoke_admin : ActionName

pub data ActionTarget : Type 0 where
  target_review target_user target_report : ActionTarget

pub record AdminAction : Type 0 where
  pub id : ℕ
  pub actor_id : Option ℕ
  pub action : ActionName
  pub target_type : ActionTarget
  pub target_id : ℕ

pub record RefreshToken : Type 0 where
  pub id : ℕ
  pub user_id : ℕ
  pub token_hash : String
  pub expires_at : ℕ
  pub revoked_at : Option ℕ

pub data TokenPurpose : Type 0 where
  email_verify password_reset : TokenPurpose

pub record AccountToken : Type 0 where
  pub id : ℕ
  pub user_id : ℕ
  pub token_hash : String
  pub purpose : TokenPurpose
  pub expires_at : ℕ
  pub consumed_at : Option ℕ

-- A table with its id sequence.
pub record Table (A : Type 0) : Type 0 where
  pub rows : List A
  pub next_id : ℕ

-- INSERT of the row that the next id completes.
unfoldable pub insert_row : {A : Type 0} → (ℕ → A) → Table A → Table A
insert_row row t = record { rows = t.rows ++ (row t.next_id ∷ []); next_id = suc t.next_id }

pub record Db : Type 0 where
  pub items : List Item
  pub users : Table User
  pub user_ratings : Table UserRating
  pub review_likes : Table ReviewLike
  pub review_reports : Table ReviewReport
  pub activity_events : Table ActivityEvent
  pub follows : Table Follow
  pub library_entries : Table LibraryEntry
  pub notifications : Table Notification
  pub refresh_tokens : Table RefreshToken
  pub account_tokens : Table AccountToken
  pub admin_actions : Table AdminAction

pub same_type_refl : (t : ItemType) → same_type t t ≡ true
unfolding same_type
same_type_refl movie = refl
same_type_refl series = refl
same_type_refl book = refl
same_type_refl game = refl

pub eq_of_same_type : (a b : ItemType) → same_type a b ≡ true → a ≡ b
unfolding same_type
eq_of_same_type movie movie h = refl
eq_of_same_type series series h = refl
eq_of_same_type book book h = refl
eq_of_same_type game game h = refl
eq_of_same_type _ _ h = ground arith

pub same_type_comm : (a b : ItemType) → same_type a b ≡ same_type b a
unfolding same_type
same_type_comm movie movie = refl
same_type_comm series series = refl
same_type_comm book book = refl
same_type_comm game game = refl
same_type_comm _ _ = ground arith
