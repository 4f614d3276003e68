-- ===== src/Api/Reported.antt =====
-- A repeated report is answered with the report that was filed, whatever requests come in between.
use backlogg.Prelude.{ℕ, Bool, true, false}
use backlogg.Db.Tables.{ReviewReport, Db}
use backlogg.Reports.Filed.{KeepsFiled}
use backlogg.Api.{Member, Call}

abbrev removes_member : Member → Bool
removes_member (Member.unrate t slug) = true
removes_member Member.delete_account = true
removes_member _ = false

-- The request removes a review, or an account with what belongs to it.
abbrev pub removes : Call → Bool
removes (Call.member credentials m) = removes_member m
removes _ = false

module _ (u i : ℕ) (report : ReviewReport) where
  abbrev Keeps : Db → Db → Type 0
  Keeps = KeepsFiled u i report
