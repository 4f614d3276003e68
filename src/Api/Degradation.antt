-- ===== src/Api/Degradation.antt =====
-- What a failing notification changes of a request: nothing but the notifications.
use backlogg.Prelude.{ℕ, true, false, String, [], ◌≡◌, arith}
use backlogg.Db.Tables.{ItemType, User, LibraryStatus, Db}
use backlogg.Db.Session.{Result, request}
use backlogg.Notifications.{
  create_notification, create_user_completed_notifications_for_followers, notify_new_follower,
  notify_review_like, notify_user_completed_fanout,
}
use backlogg.Ratings.Service.{like_review}
use backlogg.Follows.{follow_user}
use backlogg.Library.{set_library_status}

-- A database but for its notifications.
abbrev pub forget : Db → Db
forget d = record d { notifications = record { rows = []; next_id = 0 } }

-- The same answer, and the same stored rows but for the notifications.
abbrev pub SameOutcome : {A : Type 0} → Result A × Db → Result A × Db → Type 0
SameOutcome (r, d) (r', d') = (r ≡ r') × (forget d ≡ forget d')

module _ (user : User) (d : Db) where
  like_review-SameOutcome :
      (i : ℕ)
      → SameOutcome (request (like_review true i user) d) (request (like_review false i user) d)
  unfolding like_review notify_review_like create_notification
  like_review-SameOutcome i = ground arith

  follow_user-SameOutcome :
      (name : String)
      → SameOutcome
          (request (follow_user true name user) d)
          (request (follow_user false name user) d)
  unfolding follow_user notify_new_follower create_notification
  follow_user-SameOutcome name = ground arith

  set_library_status-SameOutcome :
      (t : ItemType) (slug : String) (status : LibraryStatus)
      → SameOutcome
          (request (set_library_status true t slug status user) d)
          (request (set_library_status false t slug status user) d)
  unfolding set_library_status notify_user_completed_fanout
      create_user_completed_notifications_for_followers
  set_library_status-SameOutcome t slug status = ground arith

  -- A like, a follow and a change of a library status answer and store the same whether their notification fails or
  -- not, the notifications aside.
  pub failed_notifications-SameOutcome :
      (i : ℕ) (name : String) (t : ItemType) (slug : String) (status : LibraryStatus)
      → SameOutcome (request (like_review true i user) d) (request (like_review false i user) d)
        × SameOutcome
            (request (follow_user true name user) d)
            (request (follow_user false name user) d)
        × SameOutcome
            (request (set_library_status true t slug status user) d)
            (request (set_library_status false t slug status user) d)
  failed_notifications-SameOutcome i name t slug status = (
    like_review-SameOutcome i,
    follow_user-SameOutcome name,
    set_library_status-SameOutcome t slug status,
  )
