-- ===== src/Notifications.antt =====
-- Notifications: backlogg/notifications/repository.py and backlogg/notifications/service.py. The
-- argument `fails` of a notifier says that the database raises inside its `try`.
pub mod Inbox
use backlogg.Prelude.{
  ℕ, Bool, true, false, not, ◌&&◌, List, [], ◌∷◌, Option, none, some, ◌==◌, if◌then◌else◌, length,
  filter, any, update_where, delete_where,
}
use backlogg.Db.Tables.{
  ItemType, TargetType, review, content, NotificationType, new_follower, review_like,
  user_completed, Notification, Follow, Table, insert_row, Db,
}
use backlogg.Db.Session.{Action, pure, execute, modify, commit, rollback, ◌>>=◌, ◌>>◌}

abbrev notification : ℕ → ℕ → NotificationType → Option TargetType → Option ℕ → ℕ → Notification
notification recipient_id actor_id type target_type target_id id = record {
  id = id;
  recipient_id = recipient_id;
  actor_id = actor_id;
  type = type;
  target_type = target_type;
  target_id = target_id;
  is_read = false;
}

unfoldable pub create_notification :
    ℕ → ℕ → NotificationType → Option TargetType → Option ℕ → Db → Db
create_notification recipient_id actor_id type target_type target_id d = record d {
  notifications =
      insert_row (notification recipient_id actor_id type target_type target_id) d.notifications;
}

-- INSERT ... SELECT: one row for each row of the select, in its order.
unfoldable pub insert_for_followers :
    ℕ → ItemType → ℕ → List Follow → Table Notification → Table Notification
unfolding insert_row
insert_for_followers actor_id item_type item_id [] t = t
insert_for_followers actor_id item_type item_id (f ∷ fs) t =
    insert_for_followers actor_id item_type item_id fs (
      insert_row
        (notification f.follower_id actor_id user_completed (some (content item_type))
          (some item_id))
        t)

unfoldable pub create_user_completed_notifications_for_followers : ℕ → ItemType → ℕ → Db → Db
create_user_completed_notifications_for_followers actor_id item_type item_id d = record d {
  notifications =
      insert_for_followers actor_id item_type item_id
        (filter (λ f. f.followed_id == actor_id) d.follows.rows) d.notifications;
}

unfoldable pub notify_new_follower : Bool → ℕ → ℕ → Action (Unit {0})
notify_new_follower fails recipient_id actor_id =
    if fails
    then rollback
    else (modify (create_notification recipient_id actor_id new_follower none none) >> commit)

unfoldable pub notify_review_like : Bool → ℕ → ℕ → ℕ → Action (Unit {0})
notify_review_like fails recipient_id actor_id rating_id =
    if fails
    then rollback
    else (modify
          (create_notification recipient_id actor_id review_like (some review) (some rating_id))
        >> commit)

unfoldable pub notify_user_completed_fanout : Bool → ℕ → ItemType → ℕ → Action (Unit {0})
notify_user_completed_fanout fails actor_id item_type item_id =
    if fails
    then rollback
    else (modify (create_user_completed_notifications_for_followers actor_id item_type item_id)
        >> commit)

unfoldable pub count_unread : ℕ → Db → ℕ
count_unread recipient_id d =
    length (filter (λ n. n.recipient_id == recipient_id && not n.is_read) d.notifications.rows)

-- `ids is None` marks all of them.
abbrev pub named_by : Option (List ℕ) → ℕ → Bool
named_by none i = true
named_by (some ids) i = any (λ j. j == i) ids

unfoldable pub mark_read_rows : ℕ → Option (List ℕ) → Db → Db
mark_read_rows recipient_id ids d = record d {
  notifications = record (d.notifications) {
    rows =
        update_where (λ n. (n.recipient_id == recipient_id && not n.is_read) && named_by ids n.id)
          (λ n. record n { is_read = true }) d.notifications.rows;
  };
}

unfoldable pub delete_notification_row : ℕ → ℕ → Db → Bool × Db
delete_notification_row recipient_id notification_id d = (
  any (λ n. n.id == notification_id && n.recipient_id == recipient_id) d.notifications.rows,
  record d {
    notifications = record (d.notifications) {
      rows =
          delete_where (λ n. n.id == notification_id && n.recipient_id == recipient_id)
            d.notifications.rows;
    };
  },
)

unfoldable pub mark_read : ℕ → Option (List ℕ) → Action (Unit {0})
mark_read user_id ids = modify (mark_read_rows user_id ids) >> commit

unfoldable pub delete_notification : ℕ → ℕ → Action Bool
delete_notification user_id notification_id = do
  deleted ← execute (delete_notification_row user_id notification_id)
  if deleted then commit else pure tt
  pure deleted
