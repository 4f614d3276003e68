-- ===== src/Feed.antt =====
-- The activity feed's writers: backlogg/feed/repository.py, « Event generation ».
pub mod Announced
pub mod Written
pub mod Requests
pub mod Erased
use backlogg.Prelude.{ℕ, Bool, false, none, some, ◌==◌, if◌then◌else◌, is_some, find, delete_where}
use backlogg.Db.Tables.{ItemType, ActivityEvent, rating_created, status_completed, insert_row, Db}

unfoldable pub is_event_of : ℕ → ActivityEvent → Bool
is_event_of rating_id e = elim (e.rating_id) [ none ↦ false | some i ↦ i == rating_id ]

-- INSERT ... ON CONFLICT uq_activity_events_rating_id DO NOTHING
unfoldable pub create_rating_event : ℕ → ItemType → ℕ → ℕ → Db → Db
create_rating_event user_id item_type item_id rating_id d =
    if is_some (find (is_event_of rating_id) d.activity_events.rows) then d else record d {
      activity_events =
          insert_row
            (λ id. record {
              id = id;
              user_id = user_id;
              event_type = rating_created;
              item_type = item_type;
              item_id = item_id;
              rating_id = some rating_id;
            })
            d.activity_events;
    }

unfoldable pub delete_rating_event : ℕ → Db → Db
delete_rating_event rating_id d = elim (find (is_event_of rating_id) d.activity_events.rows) [
  | none ↦ d
  | some event ↦ record d {
    activity_events = record (d.activity_events) {
      rows = delete_where (λ e. e.id == event.id) d.activity_events.rows;
    };
  }
]

unfoldable pub create_status_completed_event : ℕ → ItemType → ℕ → Db → Db
create_status_completed_event user_id item_type item_id d = record d {
  activity_events =
      insert_row
        (λ id. record {
          id = id;
          user_id = user_id;
          event_type = status_completed;
          item_type = item_type;
          item_id = item_id;
          rating_id = none;
        })
        d.activity_events;
}
