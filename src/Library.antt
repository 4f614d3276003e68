-- ===== src/Library.antt =====
-- A user's library: backlogg/library/repository.py and backlogg/library/service.py. `fails` says that
-- the notification fan-out raises.
use backlogg.Prelude.{
  ℕ, Bool, true, false, not, ◌&&◌, String, Option, none, some, ◌==◌, if◌then◌else◌, length, filter,
  find, update_where, delete_where,
}
use backlogg.Db.Tables.{
  ItemType, same_type, User, LibraryStatus, want, in_progress, completed, dropped, LibraryEntry,
  insert_row, Db,
}
use backlogg.Db.Session.{Action, pure, gets, execute, modify, commit, or_error, ◌>>=◌, ◌>>◌}
use backlogg.Feed.{create_status_completed_event}
use backlogg.Notifications.{notify_user_completed_fanout}
use backlogg.Ratings.Service.{get_item_or_404}

unfoldable pub same_status : LibraryStatus → LibraryStatus → Bool
same_status want want = true
same_status in_progress in_progress = true
same_status completed completed = true
same_status dropped dropped = true
same_status _ _ = false

-- The key of uq_library_entry_item.
unfoldable pub is_entry_of : ℕ → ItemType → ℕ → LibraryEntry → Bool
is_entry_of user_id item_type item_id e =
    e.user_id == user_id && (same_type e.item_type item_type && e.item_id == item_id)

unfoldable pub get_library_entry : ℕ → ItemType → ℕ → Db → Option LibraryEntry
get_library_entry user_id item_type item_id d =
    find (is_entry_of user_id item_type item_id) d.library_entries.rows

abbrev pub status_of : Option LibraryEntry → Option LibraryStatus
status_of none = none
status_of (some e) = some e.status

unfoldable pub get_library_status : ℕ → ItemType → ℕ → Db → Option LibraryStatus
get_library_status user_id item_type item_id d =
    status_of (get_library_entry user_id item_type item_id d)

-- INSERT ... ON CONFLICT uq_library_entry_item DO UPDATE, given the row with this key.
unfoldable pub write_entry :
    Option LibraryEntry → ℕ → ItemType → ℕ → LibraryStatus → Db → LibraryEntry × Db
write_entry (some old) user_id item_type item_id status d = (
  record old { status = status },
  record d {
    library_entries = record (d.library_entries) {
      rows =
          update_where (is_entry_of user_id item_type item_id) (λ e. record e { status = status })
            d.library_entries.rows;
    };
  },
)
write_entry none user_id item_type item_id status d =
    let row : ℕ → LibraryEntry = λ id. record {
      id = id;
      user_id = user_id;
      item_type = item_type;
      item_id = item_id;
      status = status;
    } in
    (row d.library_entries.next_id, record d { library_entries = insert_row row d.library_entries })

unfoldable pub upsert_library_entry : ℕ → ItemType → ℕ → LibraryStatus → Db → LibraryEntry × Db
upsert_library_entry user_id item_type item_id status d =
    write_entry (get_library_entry user_id item_type item_id d) user_id item_type item_id status d

unfoldable pub delete_library_entry : LibraryEntry → Db → Db
delete_library_entry entry d = record d {
  library_entries = record (d.library_entries) {
    rows = delete_where (λ e. e.id == entry.id) d.library_entries.rows;
  };
}

pub record LibraryStatusOut : Type 0 where
  pub item_type : ItemType
  pub slug : String
  pub status : LibraryStatus

abbrev pub was_completed : Option LibraryStatus → Bool
was_completed none = false
was_completed (some s) = same_status s completed

-- A transition into completed, whatever the status was before.
unfoldable pub is_new_completion : LibraryStatus → Option LibraryStatus → Bool
is_new_completion status previous_status =
    same_status status completed && not (was_completed previous_status)

unfoldable pub set_library_status :
    Bool → ItemType → String → LibraryStatus → User → Action LibraryStatusOut
set_library_status fails item_type slug status user = do
  item ← get_item_or_404 item_type slug
  previous_status ← gets (get_library_status user.id item_type item.id)
  entry ← execute (upsert_library_entry user.id item_type item.id status)
  if is_new_completion status previous_status
      then modify (create_status_completed_event user.id item_type item.id)
      else pure tt
  commit
  if is_new_completion status previous_status
      then notify_user_completed_fanout fails user.id item_type item.id
      else pure tt
  pure (record { item_type = item_type; slug = slug; status = entry.status })

unfoldable pub remove_library_entry : ItemType → String → User → Action (Unit {0})
remove_library_entry item_type slug user = do
  item ← get_item_or_404 item_type slug
  found ← gets (get_library_entry user.id item_type item.id)
  entry ← or_error 404 "Library entry not found" found
  modify (delete_library_entry entry)
  commit

-- An anonymous viewer has no status.
abbrev pub get_viewer_status : ItemType → ℕ → Option ℕ → Db → Option LibraryStatus
get_viewer_status item_type item_id none d = none
get_viewer_status item_type item_id (some viewer_id) d =
    get_library_status viewer_id item_type item_id d

pub record LibraryCounts : Type 0 where
  pub want : ℕ
  pub in_progress : ℕ
  pub completed : ℕ
  pub dropped : ℕ

unfoldable pub count_by_status : ℕ → Db → LibraryCounts
count_by_status user_id d =
    let count = λ (s : LibraryStatus).
      length
        (filter (λ e. e.user_id == user_id && same_status e.status s) d.library_entries.rows) in
    record {
      want = count LibraryStatus.want;
      in_progress = count LibraryStatus.in_progress;
      completed = count LibraryStatus.completed;
      dropped = count LibraryStatus.dropped;
    }
