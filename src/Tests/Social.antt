-- ===== src/Tests/Social.antt =====
-- Reports, requests whose notification fails, and notifications.
use backlogg.Prelude.{ℕ, List, [], ◌∷◌, filter, true, false, none, some, ◌≡◌, refl}
use backlogg.Notifications.{count_unread, mark_read, delete_notification}
use backlogg.Notifications.Inbox.{inbox, inbox_lem}
use backlogg.Db.Tables.{Notification, new_follower, Db, movie, completed, opened, ReviewReport}
use backlogg.Db.Session.{request}
use backlogg.Ratings.Service.{like_review}
use backlogg.Follows.{follow_user}
use backlogg.Library.{set_library_status}
use backlogg.Api.{Member, Call}
use backlogg.Api.Degradation.{SameOutcome, failed_notifications-SameOutcome}
use backlogg.Tests.Sample.{ben, tied}

abbrev complaint : ReviewReport
complaint = record { id = 1; reporter_id = 2; rating_id = 3; reason = some "spam"; status = opened }

-- The report is resolved, and another member likes and edits in between.
abbrev between : List (ℕ × Call)
between =
    (5, Call.resolve 1)
    ∷ (6, Call.member (some "ben") (Member.like false 3))
    ∷ (7, Call.hide 3 true)
    ∷ []

failed_notifications-SameOutcome_example :
    SameOutcome (request (like_review true 3 ben) tied) (request (like_review false 3 ben) tied)
    × SameOutcome
        (request (follow_user true "ana" ben) tied)
        (request (follow_user false "ana" ben) tied)
    × SameOutcome
        (request (set_library_status true movie "alien-1979" completed ben) tied)
        (request (set_library_status false movie "alien-1979" completed ben) tied)
failed_notifications-SameOutcome_example =
    failed_notifications-SameOutcome ben tied 3 "ana" movie "alien-1979" completed

abbrev follower_of : ℕ → ℕ → Notification
follower_of recipient id = record {
  id = id;
  recipient_id = recipient;
  actor_id = 3;
  type = new_follower;
  target_type = none;
  target_id = none;
  is_read = false;
}

abbrev notified : Db
notified = record tied {
  notifications = record {
    rows = follower_of 1 1 ∷ follower_of 2 2 ∷ follower_of 1 3 ∷ [];
    next_id = 4;
  };
}

two_unread : count_unread 1 notified ≡ 2
unfolding count_unread filter
two_unread = refl

inbox_lem_example :
    (count_unread 1 (request (mark_read 1 none) notified).1 ≡ 0)
    × (inbox 2 (request (mark_read 1 (some (2 ∷ []))) notified).1 ≡ inbox 2 notified)
    × (inbox 2 (request (delete_notification 1 2) notified).1 ≡ inbox 2 notified)
inbox_lem_example = inbox_lem 1 2 (some (2 ∷ [])) 2 notified refl
