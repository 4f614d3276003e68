-- ===== src/Discovery/Gate.antt =====
-- The release gate of backlogg/scheduler/discovery.py: ReleaseGate and release_gate_verdict.
use backlogg.Prelude.{
  ℕ, Bool, false, not, ◌&&◌, ◌||◌, List, Option, none, some, String, str_eq, any, ◌+◌, ltb,
  if◌then◌else◌,
}

-- A date of a detail: absent or empty, not an ISO date, or a day.
pub data DateText : Type 0 where
  no_date : DateText
  unparseable : DateText
  day : ℕ → DateText

-- A text is false where it is absent or empty.
pub record Detail : Type 0 where
  pub title : Option String
  pub name : Option String
  pub adult : Bool
  pub video : Bool
  pub status : Option String
  pub release_date : DateText
  pub first_air_date : DateText
  pub poster_path : Option String
  pub overview : Option String

pub data DateKey : Type 0 where
  release_date : DateKey
  first_air_date : DateKey

pub record ReleaseGate : Type 0 where
  pub date_key : DateKey
  pub max_age_days : ℕ
  pub horizon_days : ℕ
  pub rejected_statuses : List String
  pub require_description : Bool

pub data Reason : Type 0 where
  no_title : Reason
  adult : Reason
  video : Reason
  status : String → Reason
  no_release_date : Reason
  unparseable_release_date : Reason
  too_old : Reason
  too_far_ahead : Reason
  no_poster_or_overview : Reason

abbrev pub truthy : Option String → Bool
truthy none = false
truthy (some t) = not (str_eq t "")

abbrev pub date_at : DateKey → Detail → DateText
date_at DateKey.release_date detail = detail.release_date
date_at DateKey.first_air_date detail = detail.first_air_date

unfoldable pub rejected_status : ReleaseGate → Option String → Option Reason
rejected_status gate none = none
rejected_status gate (some s) =
    if not (str_eq s "") && any (λ r. str_eq r s) gate.rejected_statuses
    then some (Reason.status s)
    else none

unfoldable pub date_verdict : ReleaseGate → Detail → ℕ → DateText → Option Reason
date_verdict gate detail today DateText.no_date = some Reason.no_release_date
date_verdict gate detail today DateText.unparseable = some Reason.unparseable_release_date
date_verdict gate detail today (DateText.day released) =
    if ltb (released + gate.max_age_days) today
    then some Reason.too_old
    else if ltb (today + gate.horizon_days) released
    then some Reason.too_far_ahead
    else if gate.require_description && not (truthy detail.poster_path || truthy detail.overview)
    then some Reason.no_poster_or_overview
    else none

unfoldable pub status_verdict : ReleaseGate → Detail → ℕ → Option Reason → Option Reason
status_verdict gate detail today (some reason) = some reason
status_verdict gate detail today none =
    date_verdict gate detail today (date_at gate.date_key detail)

unfoldable pub release_gate_verdict : Detail → ReleaseGate → ℕ → Option Reason
release_gate_verdict detail gate today =
    if not (truthy detail.title || truthy detail.name)
    then some Reason.no_title
    else if detail.adult
    then some Reason.adult
    else if detail.video
    then some Reason.video
    else status_verdict gate detail today (rejected_status gate detail.status)
