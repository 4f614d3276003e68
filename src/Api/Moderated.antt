-- ===== src/Api/Moderated.antt =====
-- Requests on reviews and reports that leave sessions and account tokens as they are.
use backlogg.Prelude.{ℕ, String, Option, ◌≡◌, arith}
use backlogg.Db.Tables.{ItemType, User, Db}
use backlogg.Db.Session.{request}
use backlogg.Ratings.Aggregates.{recalculate_item_aggregates}
use backlogg.Ratings.Repository.{delete_rating}
use backlogg.Ratings.Service.{delete_item_rating}
use backlogg.Moderation.{insert_admin_action}
use backlogg.Reports.{
  write_report, create_report_if_not_exists, resolve_row, resolve_report_row, report_review,
  resolve_report,
}

unfoldable pub SameTokens : Db → Db → Type 0
SameTokens d d' = (d'.refresh_tokens ≡ d.refresh_tokens) × (d'.account_tokens ≡ d.account_tokens)

pub delete_item_rating-SameTokens :
    (t : ItemType) (slug : String) (user : User) (d : Db)
    → SameTokens d (request (delete_item_rating t slug user) d).1
unfolding SameTokens delete_item_rating delete_rating recalculate_item_aggregates
delete_item_rating-SameTokens t slug user d = ground arith

pub report_review-SameTokens :
    (i : ℕ) (reason : Option String) (user_id : ℕ) (d : Db)
    → SameTokens d (request (report_review i reason user_id) d).1
unfolding SameTokens report_review create_report_if_not_exists write_report
report_review-SameTokens i reason user_id d = ground arith

pub resolve_report-SameTokens : (i : ℕ) (d : Db) → SameTokens d (request (resolve_report i) d).1
unfolding SameTokens resolve_report insert_admin_action resolve_report_row resolve_row
resolve_report-SameTokens i d = ground arith
