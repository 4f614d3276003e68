-- ===== src/Incremental.antt =====
-- The lane of backlogg/scheduler/jobs.py that follows /changes: _hydrate_ids, the watermarks, which
-- scheduler/repository.py keeps, and _incremental_changes. Session and write path are those of Writer;
-- the detail requests, the mapping of a detail and the external_ids of a session are arguments. A chunk of
-- ids is written after it is fetched; the fuel is the number of ids.
pub mod Watermarks
pub mod Hydration
pub mod Marks
pub mod Honesty
use backlogg.Prelude.{
  ℕ, zero, suc, Bool, true, false, not, ◌&&◌, ◌||◌, List, [], ◌∷◌, ◌++◌, Option, none, some, String,
  str_eq, filter, find, ◌+◌, ◌-◌, ltb, leb, if◌then◌else◌, length,
}
use Prim.Native.Nat.{max}
use backlogg.Writer
use backlogg.Writer.Chunks.{in_chunks}
use backlogg.Writer.{BulkItem, WriteCounts, WritePath, BatchWriter}
use backlogg.Discovery.{Label, DateWindow, ChangesPlan, uncovered_days, plan_change_windows}
use backlogg.Discovery.Gate.{Detail, ReleaseGate, Reason, release_gate_verdict}
use backlogg.Discovery.Changes.{
  PageFetcher, Outcome, returned, raised, out_of_fuel, ChangeFeed, truncated_windows,
  fetch_change_ids,
}
use backlogg.Incremental.Watermarks.{SyncWatermark, read_watermark_date, advance_watermark}

-- What asyncio.gather has for one id: an exception, None for a 404, or the detail.
pub data Fetched : Type 0 where
  failed : Fetched
  absent : Fetched
  got : Detail → Fetched

pub record HydrationOutcome : Type 0 where
  pub considered : ℕ
  pub written : ℕ
  pub gated_out : ℕ
  pub gone : ℕ
  pub fetch_errors : ℕ
  pub write_errors : ℕ
  pub people_errors : ℕ
  pub reasons : List Reason

-- What a hydration is made with: the write path, BULK_LOAD_BATCH_SIZE, the requests and the mapping.
pub record HydrationSpec (S Payload Person : Type 0) : Type 0 where
  pub path : WritePath S Payload Person
  pub batch_size : ℕ
  pub fetch_detail : String → Fetched
  pub map_detail : String → Detail → BulkItem Payload Person

module _ {S Payload Person : Type 0} (spec : HydrationSpec S Payload Person) where
  open spec use {path, batch_size, fetch_detail, map_detail}

  -- What one pass has so far.
  abbrev pub Pass : Type 0
  Pass = HydrationOutcome × BatchWriter S Payload Person

  -- The gate is absent in the lane of /changes.
  abbrev pub gate_reason : Option ReleaseGate → Detail → ℕ → Option Reason
  gate_reason none detail today = none
  gate_reason (some gate) detail today = release_gate_verdict detail gate today

  unfoldable pub hydrate_detail : String → Detail → Option Reason → Pass → Pass
  hydrate_detail external_id detail (some reason) (outcome, writer) = (
    record outcome { gated_out = outcome.gated_out + 1; reasons = outcome.reasons ++ reason ∷ [] },
    writer,
  )
  hydrate_detail external_id detail none (outcome, writer) =
      (outcome, Writer.add path batch_size (map_detail external_id detail) writer)

  unfoldable pub hydrate_one : Option ReleaseGate → ℕ → String → Fetched → Pass → Pass
  hydrate_one gate today external_id failed (outcome, writer) =
      (record outcome { fetch_errors = outcome.fetch_errors + 1 }, writer)
  hydrate_one gate today external_id absent (outcome, writer) =
      (record outcome { gone = outcome.gone + 1 }, writer)
  hydrate_one gate today external_id (got detail) (outcome, writer) =
      hydrate_detail external_id detail (gate_reason gate detail today) (outcome, writer)

  abbrev pub flush_pass : Pass → Pass
  flush_pass (outcome, writer) = (outcome, Writer.flush path writer)

  -- One id of a chunk, with what was fetched for it.
  abbrev pub hydrate_id : Option ReleaseGate → ℕ → String → Pass → Pass
  hydrate_id gate today external_id p =
      hydrate_one gate today external_id (fetch_detail external_id) p

  abbrev pub no_outcome : ℕ → HydrationOutcome
  no_outcome considered = record {
    considered = considered;
    written = 0;
    gated_out = 0;
    gone = 0;
    fetch_errors = 0;
    write_errors = 0;
    people_errors = 0;
    reasons = [];
  }

  abbrev pub new_writer : S → BatchWriter S Payload Person
  new_writer s = record {
    session = s;
    pending = [];
    counts = record { synced = 0; errors = 0; people_errors = 0 };
  }

  abbrev pub with_counts : Pass → S × HydrationOutcome
  with_counts (outcome, writer) = (
    writer.session,
    record outcome {
      written = writer.counts.synced;
      write_errors = writer.counts.errors;
      people_errors = writer.counts.people_errors;
    },
  )

  unfoldable pub hydrate_ids : Option ReleaseGate → ℕ → List String → S → S × HydrationOutcome
  hydrate_ids gate today external_ids s = with_counts (
      in_chunks batch_size (hydrate_id gate today) flush_pass (length external_ids) external_ids
        (no_outcome (length external_ids), new_writer s))

pub record ChangesResult : Type 0 where
  pub windows_planned : ℕ
  pub windows_covered : ℕ
  pub uncovered_days : ℕ
  pub truncated_windows : ℕ
  pub truncated_labels : List Label
  pub changed_ids : ℕ
  pub in_catalog : ℕ
  pub refreshed : ℕ
  pub gone : ℕ
  pub errors : ℕ
  pub people_errors : ℕ
  pub covered_through : Option ℕ

-- The database of the lane, its session and its result.
pub record Lane (S : Type 0) : Type 0 where
  pub watermarks : List SyncWatermark
  pub session : S
  pub result : ChangesResult

abbrev pub changes : String
changes = "CHANGES"

-- MAX_CHANGES_WINDOW_DAYS
abbrev pub max_changes_window_days : ℕ
max_changes_window_days = 14

-- The part that the lane of /changes reads, with the clock and the reading of the catalog's ids.
pub record ChangesSpec (S Payload Person : Type 0) : Type 0 where
  pub hydration : HydrationSpec S Payload Person
  pub now : ℕ
  pub item_type : String
  pub fetch_page : PageFetcher
  pub catalogued : S → String → Bool

module _ {S Payload Person : Type 0} (spec : ChangesSpec S Payload Person) where
  open spec use {hydration, now, item_type, fetch_page, catalogued}

  abbrev pub failed_window : Lane S → Lane S
  failed_window lane = record lane {
    result = record lane.result { errors = lane.result.errors + 1 };
  }

  -- The counts of the feed of a window, and of the hydration of its catalogued ids.
  unfoldable pub count_window :
      ChangeFeed → List String → HydrationOutcome → ChangesResult → ChangesResult
  count_window feed to_refresh outcome r = record r {
    truncated_windows = r.truncated_windows + truncated_windows feed;
    truncated_labels = r.truncated_labels ++ feed.truncated_labels;
    changed_ids = r.changed_ids + length feed.ids;
    in_catalog = r.in_catalog + length to_refresh;
    refreshed = r.refreshed + outcome.written;
    gone = r.gone + outcome.gone;
    errors = r.errors + (outcome.fetch_errors + outcome.write_errors);
    people_errors = r.people_errors + outcome.people_errors;
  }

  -- `go_on` is the rest of the loop, and a return without it is a `break`.
  unfoldable pub mark_window : DateWindow → Option ℕ → (Lane S → Lane S) → Lane S → Lane S
  mark_window window none go_on lane = lane
  mark_window window (some through) go_on lane =
      let marked = record lane {
        watermarks = advance_watermark now item_type changes through lane.watermarks;
        result = record lane.result { covered_through = some through };
      } in
      if ltb through window.end
      then marked
      else go_on (record marked {
        result = record marked.result { windows_covered = lane.result.windows_covered + 1 };
      })

  unfoldable pub take_feed : DateWindow → Outcome ChangeFeed → (Lane S → Lane S) → Lane S → Lane S
  take_feed window raised go_on lane = failed_window lane
  take_feed window out_of_fuel go_on lane = failed_window lane
  take_feed window (returned feed) go_on lane =
      let to_refresh = filter (catalogued lane.session) feed.ids in
      let (s, outcome) = hydrate_ids hydration none 0 to_refresh lane.session in
      let lane' = record lane {
        session = s;
        result = count_window feed to_refresh outcome lane.result;
      } in
      if ltb 0 outcome.fetch_errors
      then lane'
      else mark_window window feed.covered_through go_on lane'

  unfoldable pub walk_windows : List DateWindow → Lane S → Lane S
  walk_windows [] lane = lane
  walk_windows (window ∷ windows) lane =
      take_feed window (fetch_change_ids fetch_page window) (walk_windows windows) lane

  abbrev pub no_result : ChangesPlan → ChangesResult
  no_result plan = record {
    windows_planned = length plan.windows;
    windows_covered = 0;
    uncovered_days = uncovered_days plan;
    truncated_windows = 0;
    truncated_labels = [];
    changed_ids = 0;
    in_catalog = 0;
    refreshed = 0;
    gone = 0;
    errors = 0;
    people_errors = 0;
    covered_through = none;
  }

  unfoldable pub follow_plan : Option ChangesPlan → List SyncWatermark → S → Option (Lane S)
  follow_plan none watermarks s = none
  follow_plan (some plan) watermarks s = some (
      walk_windows plan.windows
        (record { watermarks = watermarks; session = s; result = no_result plan }))

  -- none is an exception of the plan, with nothing written.
  unfoldable pub incremental_changes : ℕ → List SyncWatermark → S → Option (Lane S)
  incremental_changes today watermarks s =
      follow_plan
        (plan_change_windows (read_watermark_date item_type changes watermarks) today
          max_changes_window_days max_changes_window_days)
        watermarks s
