-- ===== src/Reports/Filed.antt =====
-- A filed report stays, with its id and reason, through the requests of backlogg/reports/service.py and those that
-- write reviews.
use backlogg.Prelude.{
  ℕ, Bool, true, String, Option, none, some, ◌==◌, ◌≡◌, refl, arith, any, inl, inr, Option-cases,
  Bool-cases, same_flag,
}
use backlogg.Prelude.Rows.{find-append, find-update_any, any-kept, any-appended}
use backlogg.Db.Tables.{
  ItemType, User, UserRating, ReviewReport, ReportStatus, opened, resolved, Db, insert_row,
}
use backlogg.Db.Session.{request}
use backlogg.Feed.{create_rating_event, delete_rating_event}
use backlogg.Ratings.Aggregates.{recalculate_item_aggregates}
use backlogg.Ratings.Repository.{
  get_item_by_slug, get_rating, get_rating_by_id, upsert_rating, write_rating, set_rating_hidden,
}
use backlogg.Ratings.Service.{RatingIn, rate_item, write_rating_event}
use backlogg.Moderation.{insert_admin_action, set_review_hidden}
use backlogg.Reports.{
  is_report_of, get_report, write_report, create_report_if_not_exists, get_report_by_id,
  resolve_row, resolve_report_row, report_review, resolve_report,
}

-- The reporter's report of the review is stored, as it was filed but for its status.
abbrev pub IsFiled : ℕ → ℕ → ReviewReport → Db → Type 0
IsFiled u i report d =
    (p : ReviewReport) × (get_report u i d ≡ some p)
    × (p.id ≡ report.id)
    × (p.reason ≡ report.reason)

abbrev pub HasReview : ℕ → Db → Type 0
HasReview i d = any (λ r. r.id == i) d.user_ratings.rows ≡ true

unfoldable pub KeepsFiled : ℕ → ℕ → ReviewReport → Db → Db → Type 0
KeepsFiled u i report d d' =
    (IsFiled u i report d → IsFiled u i report d') × (HasReview i d → HasReview i d')

module _ (u i : ℕ) (report : ReviewReport) where
  pub KeepsFiled-refl : (d : Db) → KeepsFiled u i report d d
  unfolding KeepsFiled
  KeepsFiled-refl d = (λ f. f, λ r. r)

  pub KeepsFiled-trans :
      (a b c : Db)
      → KeepsFiled u i report a b
      → KeepsFiled u i report b c
      → KeepsFiled u i report a c
  unfolding KeepsFiled
  KeepsFiled-trans a b c (f, r) (f', r') = (λ x. f' (f x), λ x. r' (r x))

  pub same-KeepsFiled :
      (d d' : Db)
      → d'.review_reports ≡ d.review_reports
      → d'.user_ratings ≡ d.user_ratings
      → KeepsFiled u i report d d'
  unfolding KeepsFiled get_report
  same-KeepsFiled d d' reports ratings = (λ f. rw reports f, λ r. rw ratings r)

  written-KeepsFiled :
      (u' i' : ℕ) (reason : Option String) (d : Db) (found : Option ReviewReport)
      → KeepsFiled u i report d (write_report found u' i' reason d).1
  unfolding KeepsFiled write_report get_report insert_row
  written-KeepsFiled u' i' reason d (some old) = (λ f. f, λ r. r)
  written-KeepsFiled u' i' reason d none = (
    λ (p, e, id, why). (p, find-append (is_report_of u i) d.review_reports.rows _ p e, id, why),
    λ r. r,
  )

  pub report_review-KeepsFiled :
      (i' : ℕ) (reason : Option String) (u' : ℕ) (d : Db)
      → KeepsFiled u i report d (request (report_review i' reason u') d).1
  unfolding report_review create_report_if_not_exists
  report_review-KeepsFiled i' reason u' d = elim (Option-cases (get_rating_by_id i' d)) [
    | inl e ↦ rw e (KeepsFiled-refl d)
    | inr (review, e) ↦ rw e (written-KeepsFiled u' i' reason d (get_report u' i' d))
  ]

  resolved-KeepsFiled :
      (s : ReportStatus) (other : ReviewReport) (d : Db)
      → KeepsFiled u i report d (resolve_row s other d).1
  unfolding KeepsFiled resolve_row get_report is_report_of
  resolved-KeepsFiled resolved other d = (λ f. f, λ r. r)
  resolved-KeepsFiled opened other d = (
    λ (p, e, id, why). (
      _,
      find-update_any (is_report_of u i) (λ x. x.id == other.id)
          (λ x. record x { status = resolved }) d.review_reports.rows p (λ y. refl) e,
      ground (arith, id),
      ground (arith, why),
    ),
    λ r. r,
  )

  pub resolve_report-KeepsFiled :
      (j : ℕ) (d : Db) → KeepsFiled u i report d (request (resolve_report j) d).1
  unfolding resolve_report insert_admin_action resolve_report_row KeepsFiled get_report
  resolve_report-KeepsFiled j d = elim (Option-cases (get_report_by_id j d)) [
    | inl e ↦ rw e (λ f. f, λ r. r)
    | inr (other, e) ↦
        rw e (unfold KeepsFiled in unfold get_report in resolved-KeepsFiled other.status other d)
  ]

  written_rating-HasReview :
      (found : Option UserRating) (user_id : ℕ) (t : ItemType) (item_id : ℕ) (score : Option ℕ)
      (text : Option String) (d : Db)
      → HasReview i d
      → HasReview i (write_rating found user_id t item_id score text d).1
  unfolding write_rating insert_row
  written_rating-HasReview (some old) user_id t item_id score text d h =
      any-kept (λ r. r.id == i) _ _ d.user_ratings.rows (λ y. refl) h
  written_rating-HasReview none user_id t item_id score text d h =
      any-appended (λ r. r.id == i) d.user_ratings.rows _ h

  written_event-user_ratings :
      (user_id : ℕ) (t : ItemType) (item_id : ℕ) (rating : UserRating) (d : Db)
      → (write_rating_event user_id t item_id rating d).user_ratings ≡ d.user_ratings
  unfolding write_rating_event create_rating_event delete_rating_event
  written_event-user_ratings user_id t item_id rating d = ground arith

  pub rate_item-HasReview :
      (t : ItemType) (slug : String) (payload : RatingIn) (user : User) (d : Db)
      → HasReview i d
      → HasReview i (request (rate_item t slug payload user) d).1
  unfolding rate_item recalculate_item_aggregates upsert_rating
  rate_item-HasReview t slug payload user d h = elim (Option-cases (get_item_by_slug t slug d)) [
    | inl e ↦ rw e h
    | inr (item, e) ↦
        let found = get_rating user.id t item.id d in
        let (rating, d') =
          write_rating found user.id t item.id payload.score payload.review_text d in
        rw (e, written_event-user_ratings)
          (written_rating-HasReview found user.id t item.id payload.score payload.review_text d h)
  ]

  hidden-HasReview :
      (rating : UserRating) (hidden : Bool) (d : Db)
      → HasReview i d
      → HasReview i (set_rating_hidden rating hidden d)
  unfolding set_rating_hidden
  hidden-HasReview rating hidden d h = elim (Bool-cases (same_flag rating.is_hidden hidden)) [
    | inl e ↦ rw (e, set_rating_hidden) h
    | inr e ↦
        rw (e, set_rating_hidden) (any-kept (λ r. r.id == i) _ _ d.user_ratings.rows (λ y. refl) h)
  ]

  pub set_review_hidden-HasReview :
      (j : ℕ) (hidden : Bool) (d : Db)
      → HasReview i d
      → HasReview i (request (set_review_hidden j hidden) d).1
  unfolding set_review_hidden recalculate_item_aggregates insert_admin_action
  set_review_hidden-HasReview j hidden d h = elim (Option-cases (get_rating_by_id j d)) [
    | inl e ↦ rw e h
    | inr (rating, e) ↦ rw e (hidden-HasReview rating hidden d h)
  ]
