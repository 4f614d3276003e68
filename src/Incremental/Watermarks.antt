-- ===== src/Incremental/Watermarks.antt =====
-- The watermarks that backlogg/scheduler/repository.py keeps, and their reading in scheduler/jobs.py.
use backlogg.Prelude.{
  ℕ, Bool, ◌&&◌, List, [], ◌∷◌, Option, none, some, String, str_eq, find, if◌then◌else◌,
}

-- One row of sync_watermarks. The cursor is a day, or a text that is no date.
pub data Cursor : Type 0 where
  day : ℕ → Cursor
  text : String → Cursor

pub record SyncWatermark : Type 0 where
  pub source : String
  pub kind : String
  pub item_type : String
  pub cursor_value : Option Cursor
  pub last_run_at : ℕ

abbrev pub keyed : String → String → String → SyncWatermark → Bool
keyed source kind item_type r =
    str_eq r.source source && str_eq r.kind kind && str_eq r.item_type item_type

unfoldable pub get_sync_watermark :
    List SyncWatermark → String → String → String → Option SyncWatermark
get_sync_watermark rows source kind item_type = find (keyed source kind item_type) rows

-- INSERT ... ON CONFLICT DO UPDATE on the primary key.
unfoldable pub set_sync_watermark : SyncWatermark → List SyncWatermark → List SyncWatermark
set_sync_watermark r [] = r ∷ []
set_sync_watermark r (row ∷ rows) =
    if keyed r.source r.kind r.item_type row
    then record row { cursor_value = r.cursor_value; last_run_at = r.last_run_at } ∷ rows
    else row ∷ set_sync_watermark r rows

unfoldable pub cursor_date : Option Cursor → Option ℕ
cursor_date none = none
cursor_date (some (Cursor.text t)) = none
cursor_date (some (Cursor.day d)) = some d

unfoldable pub watermark_date : Option SyncWatermark → Option ℕ
watermark_date none = none
watermark_date (some w) = cursor_date w.cursor_value

abbrev pub tmdb : String
tmdb = "TMDB"

unfoldable pub read_watermark_date : String → String → List SyncWatermark → Option ℕ
read_watermark_date item_type kind rows =
    watermark_date (get_sync_watermark rows tmdb kind item_type)

unfoldable pub advance_watermark : ℕ → String → String → ℕ → List SyncWatermark → List SyncWatermark
advance_watermark now item_type kind cursor rows =
    set_sync_watermark
      (record {
        source = tmdb;
        kind = kind;
        item_type = item_type;
        cursor_value = some (Cursor.day cursor);
        last_run_at = now;
      })
      rows
