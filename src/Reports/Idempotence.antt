-- ===== src/Reports/Idempotence.antt =====
-- What a repeated report does: backlogg/reports/service.py.
use backlogg.Prelude.{
  ℕ, Bool, false, String, Option, none, some, ◌≡◌, refl, ap, sym, ◌∙◌, arith, ◌==◌, find, inl, inr,
  Option-cases,
}
use backlogg.Prelude.Rows.{find-new, found_is_any}
use backlogg.Db.Tables.{UserRating, ReviewReport, insert_row, Db}
use backlogg.Db.Session.{Result, ok, raised, request}
use backlogg.Ratings.Repository.{get_rating_by_id}
use backlogg.Reports.Filed.{HasReview}
use backlogg.Reports.{
  is_report_of, get_report, write_report, create_report_if_not_exists, report_review,
}

-- After the insert, the key leads to the row that was answered.
get_report-write_report :
    (u i : ℕ) (reason : Option String) (d : Db) (found : Option ReviewReport)
    → get_report u i d ≡ found
    → let ((report, created), d') = write_report found u i reason d in
      get_report u i d' ≡ some report
unfolding get_report write_report insert_row is_report_of
get_report-write_report u i reason d (some old) e = e
get_report-write_report u i reason d none e =
    find-new (is_report_of u i) d.review_reports.rows _ e (ground arith)

write_report-user_ratings :
    (u i : ℕ) (reason : Option String) (d : Db) (found : Option ReviewReport)
    → (write_report found u i reason d).1.user_ratings ≡ d.user_ratings
unfolding write_report
write_report-user_ratings u i reason d (some old) = refl
write_report-user_ratings u i reason d none = refl

ok_first :
    {A B : Type 0} {p : A × B} {a : A} {b : B} → Path (Result (A × B)) (ok p) (ok (a, b)) → p.0 ≡ a
ok_first e = ground (arith, e)

module _ (i u : ℕ) where
  -- The two branches of the request.
  report_review-found :
      (reason : Option String) (d : Db) (review : UserRating)
      → get_rating_by_id i d ≡ some review
      → let (filed, d') = create_report_if_not_exists u i reason d in
        request (report_review i reason u) d ≡ (ok filed, d')
  unfolding report_review
  report_review-found reason d review e = rw e refl

  report_review-missing :
      (reason : Option String) (d : Db)
      → get_rating_by_id i d ≡ none
      → request (report_review i reason u) d
        ≡ (raised (record { status_code = 404; detail = "Review not found" }), d)
  unfolding report_review
  report_review-missing reason d e = rw e refl

  -- A report that is stored is answered and not written.
  pub report_review-stored :
      (reason : Option String) (d : Db) (review : UserRating) (report : ReviewReport)
      → get_rating_by_id i d ≡ some review
      → get_report u i d ≡ some report
      → request (report_review i reason u) d ≡ (ok (report, false), d)
  unfolding create_report_if_not_exists write_report
  report_review-stored reason d review report e stored =
      report_review-found reason d review e ∙ rw stored refl

  get_rating-create_report :
      (reason : Option String) (d : Db)
      → get_rating_by_id i (create_report_if_not_exists u i reason d).1 ≡ get_rating_by_id i d
  unfolding get_rating_by_id create_report_if_not_exists
  get_rating-create_report reason d =
      ap (λ t. find (λ r. r.id == i) t.rows)
        (write_report-user_ratings u i reason d (get_report u i d))

  get_report-create_report :
      (reason : Option String) (d : Db)
      → let ((report, created), d') = create_report_if_not_exists u i reason d in
        get_report u i d' ≡ some report
  unfolding create_report_if_not_exists
  get_report-create_report reason d = get_report-write_report u i reason d (get_report u i d) refl

-- A report that is answered is stored, with its review.
pub report_review-IsFiled :
    (i u : ℕ) (reason : Option String) (d : Db) (report : ReviewReport) (created : Bool)
    → (request (report_review i reason u) d).0 ≡ ok (report, created)
    → let d' = (request (report_review i reason u) d).1 in
      (get_report u i d' ≡ some report) × HasReview i d'
unfolding get_rating_by_id
report_review-IsFiled i u reason d report created e = elim (Option-cases (get_rating_by_id i d)) [
  | inl missing ↦ absurd (ground (arith, e, report_review-missing i u reason d missing))
  | inr (review, found) ↦
      let step = report_review-found i u reason d review found in
      let filed = create_report_if_not_exists u i reason d in
      let same : filed.0.0 ≡ report = ok_first (sym (ap (λ p. p.0) step) ∙ e) in
      rw (step, sym same)
        (
          get_report-create_report i u reason d,
          found_is_any (λ r. r.id == i) filed.1.user_ratings.rows review
              (get_rating-create_report i u reason d ∙ found),
        )
]
