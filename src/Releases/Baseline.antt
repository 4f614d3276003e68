-- ===== src/Releases/Baseline.antt =====
-- The baseline of _incremental_new_releases of backlogg/scheduler/jobs.py passes no export that was not diffed.
use backlogg.Prelude.{
  ℕ, List, map, filter, Option, none, some, str_eq, ◌≡◌, ◌≢◌, ◌⊎◌, inl, inr, refl, sym, ◌∙◌, arith,
  ◌-◌, ◌≤◌, ltb, leb, Bool-cases,
}
use Prim.Native.Nat.{max}
use text.Mathlib.TextEquality.{eq_iff}
use backlogg.Discovery.Plan.{MarkedBy}
use backlogg.Incremental.Watermarks.{SyncWatermark, read_watermark_date}
use backlogg.Incremental.{hydrate_ids}
use backlogg.Incremental.Hydration.{failures, failures_zero, hydrate_ids-errors}
use backlogg.Incremental.Marks.{advance_watermark-read}
use backlogg.Releases.{
  ReleasesSpec, ExportEntry, RebaselineReason, cold_start, gap_too_large, baseline_unavailable,
  daily_id_export, is_new, sort_entries, collect_appeared_entries, ReleasesLane, no_release, mark,
  rebaseline, admit_appeared, diff_exports, against_baseline, since_baseline,
  incremental_new_releases,
}
use backlogg.Releases.Entries.{
  any-sort_entries, any-filter_entries, has-map, Answered, each-Answered,
}

module _ {S P Q Float : Type 0} (spec : ReleasesSpec S P Q Float) where
  open spec use {
    now, hydration, item_type, before, export, known, gate, max_gap_days, today, export_day,
  }
  open hydration use {fetch_detail}

  abbrev baseline_of : List SyncWatermark → Option ℕ
  baseline_of = read_watermark_date item_type daily_id_export

  mark_reads : (day : ℕ) (rows : List SyncWatermark) → baseline_of (mark spec day rows) ≡ some day
  mark_reads day rows =
      rw (advance_watermark-read now day item_type daily_id_export item_type daily_id_export rows)
        (ground (arith, eq_iff item_type item_type))

  -- The entries of the export that are new, of the export of the baseline and a session, were answered.
  abbrev pub Diffed : ℕ → S → Type 0
  Diffed day s =
      (old : List (ExportEntry Float)) × (new : List (ExportEntry Float)) × (export day ≡ some old)
      × (export export_day ≡ some new)
      × Answered fetch_detail (is_new before old (known s)) new

  -- The baseline stays, or becomes the newest export: by a rebaseline, or when the two were diffed.
  abbrev pub Moves : Option ℕ → S → ReleasesLane S → Type 0
  Moves old s lane =
      (baseline_of lane.watermarks ≡ old)
      ⊎ ((baseline_of lane.watermarks ≡ some export_day)
          × MarkedBy old export_day
          × ((lane.result.rebaseline_reason ≢ none)
              ⊎ ((day : ℕ) × (old ≡ some day) × Diffed day s)))

  Moves-same :
      (old : Option ℕ) (s : S) (lane lane' : ReleasesLane S)
      → some lane ≡ some lane'
      → Moves old s lane
      → Moves old s lane'
  Moves-same old s lane lane' e m = let same : lane ≡ lane' = ground (arith, e) in rw (← same) m

  rebaseline-Moves :
      (old : Option ℕ) (reason : RebaselineReason) (skipped : ℕ) (rows : List SyncWatermark) (s : S)
      → MarkedBy old export_day
      → Moves old s (rebaseline spec reason skipped rows s)
  unfolding rebaseline
  rebaseline-Moves old reason skipped rows s le = inr (mark_reads export_day rows, le, inl (cc))

  admit_appeared-Moves :
      (day : ℕ) (old new : List (ExportEntry Float)) (rows : List SyncWatermark) (s : S)
      → baseline_of rows ≡ some day
      → day ≤ export_day
      → export day ≡ some old
      → export export_day ≡ some new
      → Moves
          (some day)
          s
          (admit_appeared spec (collect_appeared_entries before old (known s) new) rows s)
  unfolding admit_appeared collect_appeared_entries
  admit_appeared-Moves day old new rows s was le is_old is_new' =
      let appeared = sort_entries before (filter (is_new before old (known s)) new) in
      let ids = map (λ (e : ExportEntry Float). e.external_id) appeared in
      let outcome = (hydrate_ids hydration (some gate) today ids s).1 in
      elim (Bool-cases (ltb 0 outcome.fetch_errors)) [
        | inl errors ↦ rw errors (inl was)
        | inr fine ↦
            let none_failed : failures fetch_detail ids ≡ 0 =
              sym (hydrate_ids-errors hydration (some gate) today ids s) ∙ ground (arith, fine) in
            rw fine (
              inr (
                mark_reads export_day rows,
                le,
                inr (
                  day,
                  refl,
                  (
                    old,
                    new,
                    is_old,
                    is_new',
                    each-Answered fetch_detail (is_new before old (known s)) new (λ id a.
                        failures_zero fetch_detail ids none_failed id (
                          has-map id appeared
                          ∙ any-sort_entries before (λ e. str_eq e.external_id id)
                              (filter (is_new before old (known s)) new)
                          ∙ any-filter_entries (is_new before old (known s))
                              (λ e. str_eq e.external_id id) new
                          ∙ a)),
                  ),
                ),
              ))
      ]

  diff_exports-Moves :
      (day : ℕ) (old : List (ExportEntry Float)) (new : Option (List (ExportEntry Float)))
      (rows : List SyncWatermark) (s : S) (lane : ReleasesLane S)
      → baseline_of rows ≡ some day
      → day ≤ export_day
      → export day ≡ some old
      → export export_day ≡ new
      → diff_exports spec old new rows s ≡ some lane
      → Moves (some day) s lane
  unfolding diff_exports
  diff_exports-Moves day old none rows s lane was le is_old is_new' e = absurd (ground (arith, e))
  diff_exports-Moves day old (some new) rows s lane was le is_old is_new' e =
      Moves-same (some day) s _ lane e
        (admit_appeared-Moves day old new rows s was le is_old is_new')

  against_baseline-Moves :
      (day gap : ℕ) (old : Option (List (ExportEntry Float))) (rows : List SyncWatermark) (s : S)
      (lane : ReleasesLane S)
      → baseline_of rows ≡ some day
      → day ≤ export_day
      → export day ≡ old
      → against_baseline spec gap old rows s ≡ some lane
      → Moves (some day) s lane
  unfolding against_baseline
  against_baseline-Moves day gap none rows s lane was le is_old e =
      Moves-same (some day) s _ lane e
        (rebaseline-Moves (some day) baseline_unavailable gap rows s le)
  against_baseline-Moves day gap (some old) rows s lane was le is_old e =
      diff_exports-Moves day old (export export_day) rows s lane was le is_old refl e

  since_baseline-Moves :
      (old : Option ℕ) (rows : List SyncWatermark) (s : S) (lane : ReleasesLane S)
      → baseline_of rows ≡ old
      → since_baseline spec old rows s ≡ some lane
      → Moves old s lane
  unfolding since_baseline
  since_baseline-Moves none rows s lane was e =
      Moves-same none s _ lane e (rebaseline-Moves none cold_start 0 rows s tt)
  since_baseline-Moves (some day) rows s lane was e =
      let gap = export_day - day in
      elim (Bool-cases (leb export_day day)) [
        | inl done ↦ Moves-same (some day) s _ lane (rw done at e) (inl (mark_reads day rows))
        | inr behind ↦
            let le : day ≤ export_day = ground (arith, behind) in
            elim (Bool-cases (ltb (max 1 max_gap_days) gap)) [
              | inl far ↦
                  Moves-same (some day) s _ lane (rw (behind, far) at e)
                    (rebaseline-Moves (some day) gap_too_large gap rows s le)
              | inr near ↦
                  against_baseline-Moves day gap (export day) rows s lane was le refl
                    (rw (behind, near) at e)
            ]
      ]

  against_baseline_returns :
      (gap : ℕ) (old : Option (List (ExportEntry Float))) (new : List (ExportEntry Float))
      (rows : List SyncWatermark) (s : S)
      → export export_day ≡ some new
      → (lane : ReleasesLane S) × (against_baseline spec gap old rows s ≡ some lane)
  unfolding against_baseline diff_exports
  against_baseline_returns gap none new rows s is_new' =
      (rebaseline spec baseline_unavailable gap rows s, refl)
  against_baseline_returns gap (some old) new rows s is_new' = (
    admit_appeared spec (collect_appeared_entries before old (known s) new) rows s,
    rw is_new' refl,
  )

  since_baseline_returns :
      (old : Option ℕ) (new : List (ExportEntry Float)) (rows : List SyncWatermark) (s : S)
      → export export_day ≡ some new
      → (lane : ReleasesLane S) × (since_baseline spec old rows s ≡ some lane)
  unfolding since_baseline
  since_baseline_returns none new rows s is_new' = (rebaseline spec cold_start 0 rows s, refl)
  since_baseline_returns (some day) new rows s is_new' = elim (Bool-cases (leb export_day day)) [
    | inl done ↦ (
      record { watermarks = mark spec day rows; session = s; result = no_release spec },
      rw done refl,
    )
    | inr behind ↦ elim (Bool-cases (ltb (max 1 max_gap_days) (export_day - day))) [
      | inl far ↦ (rebaseline spec gap_too_large (export_day - day) rows s, rw (behind, far) refl)
      | inr near ↦
          rw (behind, near)
            (against_baseline_returns (export_day - day) (export day) new rows s is_new')
    ]
  ]

  -- Where the newest export can be read, a run returns, and its baseline is the old one, or the newest export,
  -- which is no older: after a rebaseline that the result reports, or when both exports were read and each
  -- entry of the newest that is neither in the old one nor known to the session, and is neither adult nor
  -- video, was asked for and answered.
  pub incremental_new_releases-Moves :
      (watermarks : List SyncWatermark) (s : S) (new : List (ExportEntry Float))
      → export export_day ≡ some new
      → (lane : ReleasesLane S) × (incremental_new_releases spec watermarks s ≡ some lane)
        × Moves (read_watermark_date item_type daily_id_export watermarks) s lane
  unfolding incremental_new_releases
  incremental_new_releases-Moves watermarks s new is_new' =
      let old = read_watermark_date item_type daily_id_export watermarks in
      let (lane, e) = since_baseline_returns old new watermarks s is_new' in
      (lane, e, since_baseline-Moves old watermarks s lane refl e)
