-- ===== src/Reports.antt =====
-- Reports of reviews: backlogg/reports/repository.py and backlogg/reports/service.py. A report's
-- times are left out.
pub mod Idempotence
pub mod Filed
use backlogg.Prelude.{
  ℕ, Bool, true, false, ◌&&◌, String, Option, none, some, ◌==◌, find, update_where,
}
use backlogg.Db.Tables.{
  ReviewReport, ReportStatus, opened, resolved, resolve_report as resolve_action, target_report,
  insert_row, Db,
}
use backlogg.Db.Session.{Action, pure, gets, execute, commit, or_error, ◌>>=◌, ◌>>◌}
use backlogg.Ratings.Service.{get_review_or_404}
use backlogg.Moderation.{record_admin_action}

-- The key of uq_review_report_pair.
unfoldable pub is_report_of : ℕ → ℕ → ReviewReport → Bool
is_report_of reporter_id rating_id p = p.reporter_id == reporter_id && p.rating_id == rating_id

unfoldable pub get_report : ℕ → ℕ → Db → Option ReviewReport
get_report reporter_id rating_id d = find (is_report_of reporter_id rating_id) d.review_reports.rows

-- INSERT ... ON CONFLICT uq_review_report_pair DO NOTHING, given the row with this key: the row, and
-- whether it was inserted.
unfoldable pub write_report :
    Option ReviewReport → ℕ → ℕ → Option String → Db → (ReviewReport × Bool) × Db
write_report (some old) reporter_id rating_id reason d = ((old, false), d)
write_report none reporter_id rating_id reason d =
    let row : ℕ → ReviewReport = λ id. record {
      id = id;
      reporter_id = reporter_id;
      rating_id = rating_id;
      reason = reason;
      status = opened;
    } in
    (
      (row d.review_reports.next_id, true),
      record d { review_reports = insert_row row d.review_reports },
    )

unfoldable pub create_report_if_not_exists : ℕ → ℕ → Option String → Db → (ReviewReport × Bool) × Db
create_report_if_not_exists reporter_id rating_id reason d =
    write_report (get_report reporter_id rating_id d) reporter_id rating_id reason d

unfoldable pub get_report_by_id : ℕ → Db → Option ReviewReport
get_report_by_id report_id d = find (λ p. p.id == report_id) d.review_reports.rows

-- Only an open report is written.
unfoldable pub resolve_row : ReportStatus → ReviewReport → Db → ReviewReport × Db
resolve_row resolved report d = (report, d)
resolve_row opened report d = (
  record report { status = resolved },
  record d {
    review_reports = record (d.review_reports) {
      rows =
          update_where (λ p. p.id == report.id) (λ p. record p { status = resolved })
            d.review_reports.rows;
    };
  },
)

unfoldable pub resolve_report_row : ReviewReport → Db → ReviewReport × Db
resolve_report_row report d = resolve_row report.status report d

unfoldable pub report_review : ℕ → Option String → ℕ → Action (ReviewReport × Bool)
report_review rating_id reason reporter_id = do
  get_review_or_404 "Review not found" rating_id
  filed ← execute (create_report_if_not_exists reporter_id rating_id reason)
  commit
  pure filed

unfoldable pub resolve_report : ℕ → Action ReviewReport
unfolding record_admin_action
resolve_report report_id = do
  found ← gets (get_report_by_id report_id)
  report ← or_error 404 "Report not found" found
  done ← execute (resolve_report_row report)
  record_admin_action none resolve_action target_report done.id
  commit
  pure done
