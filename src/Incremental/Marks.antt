-- ===== src/Incremental/Marks.antt =====
-- The rows of sync_watermarks, of backlogg/scheduler/repository.py: each mechanism has its own.
use backlogg.Prelude.{
  ℕ, false, ◌&&◌, List, [], ◌∷◌, some, String, str_eq, find, ◌≡◌, arith, if◌then◌else◌, Bool-cases,
  inl, inr,
}
use text.Mathlib.TextEquality.{eq_iff}
use backlogg.Incremental.Watermarks.{
  Cursor, SyncWatermark, keyed, get_sync_watermark, set_sync_watermark, cursor_date, watermark_date,
  tmdb, read_watermark_date, advance_watermark,
}

-- A date of the row found, with the row itself out of sight.
set_sync_watermark-read :
    (r : SyncWatermark) (rows : List SyncWatermark)
    → watermark_date (find (keyed r.source r.kind r.item_type) (set_sync_watermark r rows))
      ≡ cursor_date r.cursor_value
unfolding set_sync_watermark watermark_date find
set_sync_watermark-read r [] =
    ground (arith, eq_iff r.source r.source, eq_iff r.kind r.kind, eq_iff r.item_type r.item_type)
set_sync_watermark-read r (row ∷ rows) = ground (arith, set_sync_watermark-read r rows)

set_sync_watermark-other :
    (r : SyncWatermark) (rows : List SyncWatermark) (source kind item_type : String)
    → keyed source kind item_type r ≡ false
    → watermark_date (find (keyed source kind item_type) (set_sync_watermark r rows))
      ≡ watermark_date (find (keyed source kind item_type) rows)
unfolding set_sync_watermark watermark_date find
set_sync_watermark-other r [] source kind item_type h = ground (arith, h)
set_sync_watermark-other r (row ∷ rows) source kind item_type h = ground (
  arith,
  h,
  set_sync_watermark-other r rows source kind item_type,
  eq_iff row.source r.source,
  eq_iff row.kind r.kind,
  eq_iff row.item_type r.item_type,
)

-- A watermark that was advanced reads back as the day, and no other mechanism's or type's is changed.
pub advance_watermark-read :
    (now cursor : ℕ) (item_type kind item_type' kind' : String) (rows : List SyncWatermark)
    → read_watermark_date item_type' kind' (advance_watermark now item_type kind cursor rows) ≡ (
        if str_eq item_type item_type' && str_eq kind kind'
        then some cursor
        else read_watermark_date item_type' kind' rows)
unfolding read_watermark_date get_sync_watermark advance_watermark cursor_date
advance_watermark-read now cursor item_type kind item_type' kind' rows =
    let r : SyncWatermark = record {
      source = tmdb;
      kind = kind;
      item_type = item_type;
      cursor_value = some (Cursor.day cursor);
      last_run_at = now;
    } in
    elim (Bool-cases (str_eq item_type item_type' && str_eq kind kind')) [
      | inl same ↦
          let types : item_type ≡ item_type' =
            (eq_iff item_type item_type').0 (ground (arith, same)) in
          let kinds : kind ≡ kind' = (eq_iff kind kind').0 (ground (arith, same)) in
          rw same (rw (← types, ← kinds) (set_sync_watermark-read r rows))
      | inr other ↦
          rw other (set_sync_watermark-other r rows tmdb kind' item_type' (ground (arith, other)))
    ]
