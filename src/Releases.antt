-- ===== src/Releases.antt =====
-- The lane of backlogg/scheduler/jobs.py that admits new releases: _incremental_new_releases, over the daily
-- id exports of backlogg/scheduler/tmdb_exports.py. An export is a function of its day, whose none is
-- ExportUnavailable, with its lines already parsed. The order of the popularities is an argument, and so are
-- the ids that a session knows (get_known_source_ids).
pub mod Entries
pub mod Baseline
use backlogg.Prelude.{
  ℕ, zero, suc, Bool, true, false, not, ◌&&◌, ◌||◌, List, [], ◌∷◌, map, any, filter, Option, none,
  some, String, str_eq, ◌+◌, ◌-◌, ltb, leb, if◌then◌else◌, length,
}
use Prim.Native.Nat.{max}
use backlogg.Writer.{BulkItem, WritePath}
use backlogg.Discovery.Gate.{Detail, ReleaseGate, Reason}
use backlogg.Incremental.Watermarks.{SyncWatermark, read_watermark_date, advance_watermark}
use backlogg.Incremental.{HydrationSpec, Fetched, HydrationOutcome, hydrate_ids}

-- The popularity of an entry is of any type.
pub record ExportEntry (Float : Type 0) : Type 0 where
  pub external_id : String
  pub popularity : Float
  pub adult : Bool
  pub video : Bool

abbrev pub export_publish_hour : ℕ
export_publish_hour = 8

unfoldable pub latest_export_date : ℕ → ℕ → ℕ
latest_export_date today hour = if leb export_publish_hour hour then today else today - 1

pub data RebaselineReason : Type 0 where
  cold_start : RebaselineReason
  gap_too_large : RebaselineReason
  baseline_unavailable : RebaselineReason

pub record ReleasesResult : Type 0 where
  pub rebaseline_reason : Option RebaselineReason
  pub skipped_days : ℕ
  pub appeared : ℕ
  pub admitted : ℕ
  pub gated_out : ℕ
  pub gate_reasons : List Reason
  pub gone : ℕ
  pub errors : ℕ
  pub people_errors : ℕ
  pub watermark_advanced : Bool

abbrev pub daily_id_export : String
daily_id_export = "DAILY_ID_EXPORT"

module _ {Float : Type 0} (before : ExportEntry Float → ExportEntry Float → Bool) where
  unfoldable pub in_export : List (ExportEntry Float) → String → Bool
  in_export entries id = any (λ e. str_eq e.external_id id) entries

  unfoldable pub is_new : List (ExportEntry Float) → (String → Bool) → ExportEntry Float → Bool
  is_new baseline known e =
      not (in_export baseline e.external_id || known e.external_id) && not (e.adult || e.video)

  unfoldable pub place_entry :
      ExportEntry Float → List (ExportEntry Float) → List (ExportEntry Float)
  place_entry e [] = e ∷ []
  place_entry e (d ∷ ds) = if before d e then d ∷ place_entry e ds else e ∷ d ∷ ds

  unfoldable pub sort_entries : List (ExportEntry Float) → List (ExportEntry Float)
  sort_entries [] = []
  sort_entries (e ∷ es) = place_entry e (sort_entries es)

  unfoldable pub collect_appeared_entries :
      List (ExportEntry Float)
      → (String → Bool)
      → List (ExportEntry Float)
      → List (ExportEntry Float)
  collect_appeared_entries baseline known entries =
      sort_entries (filter (is_new baseline known) entries)

pub record ReleasesLane (S : Type 0) : Type 0 where
  pub watermarks : List SyncWatermark
  pub session : S
  pub result : ReleasesResult

-- The part that the lane of new releases reads, with the clock, the exports and the order of their entries.
pub record ReleasesSpec (S Payload Person Float : Type 0) : Type 0 where
  pub hydration : HydrationSpec S Payload Person
  pub now : ℕ
  pub item_type : String
  pub before : ExportEntry Float → ExportEntry Float → Bool
  pub export : ℕ → Option (List (ExportEntry Float))
  pub known : S → String → Bool
  pub gate : ReleaseGate
  pub max_gap_days : ℕ
  pub today : ℕ
  pub export_day : ℕ

module _ {S Payload Person Float : Type 0} (spec : ReleasesSpec S Payload Person Float) where
  open spec use {
    hydration, now, item_type, before, export, known, gate, max_gap_days, today, export_day,
  }

  abbrev pub no_release : ReleasesResult
  no_release = record {
    rebaseline_reason = none;
    skipped_days = 0;
    appeared = 0;
    admitted = 0;
    gated_out = 0;
    gate_reasons = [];
    gone = 0;
    errors = 0;
    people_errors = 0;
    watermark_advanced = false;
  }

  abbrev pub mark : ℕ → List SyncWatermark → List SyncWatermark
  mark = advance_watermark now item_type daily_id_export

  unfoldable pub rebaseline : RebaselineReason → ℕ → List SyncWatermark → S → ReleasesLane S
  rebaseline reason skipped_days watermarks s = record {
    watermarks = mark export_day watermarks;
    session = s;
    result = record no_release {
      rebaseline_reason = some reason;
      skipped_days = skipped_days;
      watermark_advanced = true;
    };
  }

  abbrev pub released : ℕ → HydrationOutcome → ReleasesResult
  released appeared outcome = record no_release {
    appeared = appeared;
    admitted = outcome.written;
    gated_out = outcome.gated_out;
    gate_reasons = outcome.reasons;
    gone = outcome.gone;
    errors = outcome.fetch_errors + outcome.write_errors;
    people_errors = outcome.people_errors;
  }

  unfoldable pub admit_appeared : List (ExportEntry Float) → List SyncWatermark → S → ReleasesLane S
  admit_appeared appeared watermarks s =
      let (s', outcome) =
        hydrate_ids hydration (some gate) today (map (λ e. e.external_id) appeared) s in
      let result = released (length appeared) outcome in
      if ltb 0 outcome.fetch_errors
      then record { watermarks = watermarks; session = s'; result = result }
      else record {
        watermarks = mark export_day watermarks;
        session = s';
        result = record result { watermark_advanced = true };
      }

  -- none is an exception of the export of today.
  unfoldable pub diff_exports :
      List (ExportEntry Float)
      → Option (List (ExportEntry Float))
      → List SyncWatermark
      → S
      → Option (ReleasesLane S)
  diff_exports baseline none watermarks s = none
  diff_exports baseline (some entries) watermarks s =
      some
        (admit_appeared (collect_appeared_entries before baseline (known s) entries) watermarks s)

  unfoldable pub against_baseline :
      ℕ → Option (List (ExportEntry Float)) → List SyncWatermark → S → Option (ReleasesLane S)
  against_baseline gap_days none watermarks s =
      some (rebaseline baseline_unavailable gap_days watermarks s)
  against_baseline gap_days (some baseline) watermarks s =
      diff_exports baseline (export export_day) watermarks s

  unfoldable pub since_baseline : Option ℕ → List SyncWatermark → S → Option (ReleasesLane S)
  since_baseline none watermarks s = some (rebaseline cold_start 0 watermarks s)
  since_baseline (some baseline_day) watermarks s =
      let gap_days = export_day - baseline_day in
      if leb export_day baseline_day
      then some
          (record { watermarks = mark baseline_day watermarks; session = s; result = no_release })
      else if ltb (max 1 max_gap_days) gap_days
      then some (rebaseline gap_too_large gap_days watermarks s)
      else against_baseline gap_days (export baseline_day) watermarks s

  unfoldable pub incremental_new_releases : List SyncWatermark → S → Option (ReleasesLane S)
  incremental_new_releases watermarks s =
      since_baseline (read_watermark_date item_type daily_id_export watermarks) watermarks s
