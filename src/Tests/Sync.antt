-- ===== src/Tests/Sync.antt =====
-- The walk of /changes and its lane, on days 700 to 730 of a source where one day has too many pages.
use backlogg.Prelude.{
  ℕ, Bool, true, false, List, [], ◌∷◌, ◌++◌, Option, none, some, String, str_eq, ◌≡◌, ◌⊎◌, ◌↔◌,
  refl, arith, ◌+◌, ◌-◌, ◌≤◌, ltb, leb, ◌==◌, if◌then◌else◌, any, All, length,
}
use backlogg.Writer.{BulkItem, BulkLoadResult, WritePath}
use backlogg.Writer.Accounting.{CountsBulk}
use backlogg.Discovery.{
  Label, DateWindow, change_window, ChangesPlan, windows_from, change_windows, halves,
  split_change_window, plan_since, plan_change_windows,
}
use backlogg.Discovery.Tiling.{days, days_of, IsShort}
use backlogg.Discovery.Plan.{
  days_of_range, StartsFrom, InRange, After, MarkedBy, first_planned, plan_change_windows_lem,
}
use backlogg.Discovery.Gate.{DateText, Detail, DateKey, ReleaseGate, release_gate_verdict}
use backlogg.Discovery.Admission.{IsAdmissible, release_gate_verdict-IsAdmissible}
use backlogg.Discovery.Changes.{
  Page, returned, ChangeFeed, page_count, change_ids, add_ids, add_page, gather_both, gather_pages,
  add_pages, add_gathered, note_window, walk_pages, walk_each, walk_first, walk_change_window,
  covered_through, feed_of_walk, fetch_change_ids,
}
use backlogg.Discovery.Days.{Covers, Saturated}
use backlogg.Discovery.Coverage.{fetch_change_ids-Covers}
use backlogg.Discovery.Termination.{Ends, fetch_change_ids-Ends}
use backlogg.Incremental.Watermarks.{Cursor, SyncWatermark, read_watermark_date}
use backlogg.Incremental.{
  Fetched, failed, absent, got, hydrate_ids, changes, max_changes_window_days, Lane, HydrationSpec,
  ChangesSpec, incremental_changes,
}
use backlogg.Incremental.Hydration.{failures, hydrate_ids-tally}
use backlogg.Releases.{
  ExportEntry, ReleasesSpec, ReleasesLane, daily_id_export, incremental_new_releases,
}
use backlogg.Releases.Baseline.{Moves, incremental_new_releases-Moves}
use backlogg.Incremental.Honesty.{Refreshed, incremental_changes-Refreshed}

-- A window of more than a day around day 712 has 800 pages, that day has 501, and the others two.
abbrev page_of : ℕ → ℕ → ℕ → Option Page
page_of page start end = some (record {
  total_pages =
      some (
        if leb start 712 then if leb 712 end then if ltb start end then 800 else 501 else 2 else 2);
  results = if page == 1 then some "603" ∷ none ∷ some "27205" ∷ [] else some "603" ∷ [];
})

abbrev window : DateWindow
window = record { label = Label.range_label 710 713; start = 710; end = 713; splittable = true }

abbrev feed : ChangeFeed
feed = record {
  ids = "603" ∷ "27205" ∷ [];
  windows = 3;
  pages = 506;
  covered_through = some 711;
  truncated_labels = Label.range_label 712 712 ∷ [];
}

fetched : fetch_change_ids page_of window ≡ returned feed
unfolding fetch_change_ids walk_change_window walk_first walk_each walk_pages add_gathered
    gather_pages gather_both add_pages add_page add_ids change_ids page_count note_window
    feed_of_walk covered_through split_change_window halves change_window any
fetched = refl

fetch_change_ids-Covers_example :
    ((day : ℕ) → 710 ≤ day → day ≤ 711 → Covers page_of ("603" ∷ "27205" ∷ []) day)
    × ((feed.covered_through ≡ some 713) ⊎ Saturated page_of 712)
fetch_change_ids-Covers_example =
    fetch_change_ids-Covers page_of window feed (omega arith, refl) fetched

fetch_change_ids-Ends_example : Ends page_of (fetch_change_ids page_of window)
fetch_change_ids-Ends_example = fetch_change_ids-Ends page_of window

plan_change_windows_lem_example :
    (plan : ChangesPlan) × (plan_change_windows (some 700) 730 14 14 ≡ some plan)
    × (days_of_range plan.uncovered ++ days_of plan.windows
        ≡ days (first_planned 700 (730 + 1 - 14)) (730 + 1 - first_planned 700 (730 + 1 - 14)))
    × All (IsShort 14) plan.windows
    × All (StartsFrom (730 + 1 - 14)) plan.windows
plan_change_windows_lem_example =
    plan_change_windows_lem 700 730 14 14 (omega arith) (omega arith) (omega arith) (omega arith)

planned :
    plan_change_windows (some 700) 730 14 14
    ≡ some (record { windows = change_window 717 730 ∷ []; uncovered = some (701, 716) })
unfolding plan_change_windows plan_since change_windows windows_from
planned = refl

abbrev detail : Detail
detail = record {
  title = some "Heat";
  name = none;
  adult = false;
  video = false;
  status = some "Released";
  release_date = DateText.day 720;
  first_air_date = DateText.no_date;
  poster_path = none;
  overview = some "A heist";
}

abbrev gate : ReleaseGate
gate = record {
  date_key = DateKey.release_date;
  max_age_days = 90;
  horizon_days = 30;
  rejected_statuses = "Rumored" ∷ "Canceled" ∷ [];
  require_description = true;
}

release_gate_verdict-IsAdmissible_example :
    (release_gate_verdict detail gate 730 ≡ none) ↔ IsAdmissible detail gate 730
release_gate_verdict-IsAdmissible_example = release_gate_verdict-IsAdmissible detail gate 730

-- A session is the ids that are linked, and a batch is refused where it holds the id "13".
abbrev link : List String → Option String → List String
link s none = s
link s (some id) = id ∷ s

abbrev linked : List String → String → Bool
linked s id = any (λ x. str_eq x id) s

load_batch :
    List String → List (BulkItem (Unit {0}) (Unit {0})) → Option (List String × BulkLoadResult)
load_batch s items =
    if any (λ i. str_eq i.slug "13") items
    then none
    else some (s, record { written = length items; rejected = 0; people_rejected = 0 })

abbrev write_path : WritePath (List String) (Unit {0}) (Unit {0})
write_path = record {
  bulk_load_items = load_batch;
  upsert_item = λ s item. some (link s item.external_id, 1);
  persist_people = λ s n people. some s;
}

load_batch-counts : CountsBulk write_path
unfolding load_batch
load_batch-counts s items s' o e = ground (arith, e)

abbrev detail_of : String → Fetched
detail_of id = if str_eq id "27205" then absent else if str_eq id "7" then failed else got detail

abbrev item_of : String → Detail → BulkItem (Unit {0}) (Unit {0})
item_of id d = record { slug = id; payload = tt; external_id = some id; people = [] }

abbrev hydration : HydrationSpec (List String) (Unit {0}) (Unit {0})
hydration = record {
  path = write_path;
  batch_size = 2;
  fetch_detail = detail_of;
  map_detail = item_of;
}

abbrev changed_ids : List String
changed_ids = "603" ∷ "27205" ∷ "7" ∷ "13" ∷ []

hydrate_ids-tally_example :
    (let o = (hydrate_ids hydration none 730 changed_ids []).1 in
      (o.fetch_errors + o.gone + o.gated_out + (o.written + o.write_errors) ≤ length changed_ids)
      × (o.fetch_errors ≡ failures detail_of changed_ids))
hydrate_ids-tally_example = hydrate_ids-tally hydration load_batch-counts none 730 changed_ids []

abbrev marks : List SyncWatermark
marks =
    record {
      source = "TMDB";
      kind = "CHANGES";
      item_type = "MOVIE";
      cursor_value = some (Cursor.day 700);
      last_run_at = 0;
    }
    ∷ []

abbrev changes_spec : ChangesSpec (List String) (Unit {0}) (Unit {0})
changes_spec = record {
  hydration = hydration;
  now = 5;
  item_type = "MOVIE";
  fetch_page = page_of;
  catalogued = linked;
}

incremental_changes-Refreshed_example :
    (plan : ChangesPlan) × (lane : Lane (List String)) × (plan_change_windows
        (read_watermark_date "MOVIE" changes marks)
        730
        max_changes_window_days
        max_changes_window_days
      ≡ some plan)
    × (incremental_changes changes_spec 730 marks ("603" ∷ []) ≡ some lane)
    × ((read_watermark_date "MOVIE" changes lane.watermarks
          ≡ read_watermark_date "MOVIE" changes marks)
        ⊎ ((c : ℕ) × (read_watermark_date "MOVIE" changes lane.watermarks ≡ some c)
            × (c ≤ 730)
            × MarkedBy (read_watermark_date "MOVIE" changes marks) c
            × ((day : ℕ)
                → After (read_watermark_date "MOVIE" changes marks) (730 - 13) day
                → day ≤ c
                → InRange plan.uncovered day ⊎ Refreshed changes_spec ("603" ∷ []) day)))
incremental_changes-Refreshed_example =
    incremental_changes-Refreshed changes_spec ("603" ∷ []) 730 marks (omega arith)

-- Two exports, of which the newer one has a film that is known, one that is new and one for adults.
abbrev entry : String → Bool → ExportEntry ℕ
entry id is_adult = record { external_id = id; popularity = 5; adult = is_adult; video = false }

abbrev more_popular : ExportEntry ℕ → ExportEntry ℕ → Bool
more_popular a b = ltb b.popularity a.popularity

abbrev new_entries : List (ExportEntry ℕ)
new_entries = entry "603" false ∷ entry "9" false ∷ entry "10" true ∷ []

abbrev export : ℕ → Option (List (ExportEntry ℕ))
export d = if d == 730 then some new_entries else some (entry "603" false ∷ [])

abbrev export_marks : List SyncWatermark
export_marks =
    record {
      source = "TMDB";
      kind = "DAILY_ID_EXPORT";
      item_type = "MOVIE";
      cursor_value = some (Cursor.day 729);
      last_run_at = 0;
    }
    ∷ marks

abbrev releases_spec : ReleasesSpec (List String) (Unit {0}) (Unit {0}) ℕ
releases_spec = record {
  hydration = hydration;
  now = 5;
  item_type = "MOVIE";
  before = more_popular;
  export = export;
  known = linked;
  gate = gate;
  max_gap_days = 7;
  today = 730;
  export_day = 730;
}

incremental_new_releases-Moves_example :
    (lane : ReleasesLane (List String)) × (incremental_new_releases releases_spec export_marks []
      ≡ some lane)
    × Moves releases_spec (read_watermark_date "MOVIE" daily_id_export export_marks) [] lane
incremental_new_releases-Moves_example =
    incremental_new_releases-Moves releases_spec export_marks [] new_entries refl
