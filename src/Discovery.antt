-- ===== src/Discovery.antt =====
-- The date windows of backlogg/scheduler/discovery.py. A date is its day number (date.toordinal), and
-- the days have no last one. An exception that a caller does not distinguish is none.
pub mod Tiling
pub mod Changes
pub mod Seen
pub mod Days
pub mod Pages
pub mod Walk
pub mod Coverage
pub mod Termination
pub mod Plan
pub mod Gate
pub mod Admission
use backlogg.Prelude.{
  ℕ, zero, suc, Bool, true, false, List, [], ◌∷◌, Option, none, some, ◌+◌, ◌-◌, ◌/◌, ◌||◌, ltb, leb,
  if◌then◌else◌,
}
use Prim.Native.Nat.{min, max}
use mathlib.Core.Option

-- What the label text of a window is written from.
pub data Label : Type 0 where
  year_label : ℕ → Label
  month_label : ℕ → ℕ → Label
  range_label : ℕ → ℕ → Label

pub record DateWindow : Type 0 where
  pub label : Label
  pub start : ℕ
  pub end : ℕ
  pub splittable : Bool

unfoldable pub change_window : ℕ → ℕ → DateWindow
change_window start end = record {
  label = Label.range_label start end;
  start = start;
  end = end;
  splittable = ltb start end;
}

-- `while cursor <= end`: the fuel is the number of days from the cursor on.
unfoldable pub windows_from : ℕ → ℕ → ℕ → ℕ → List DateWindow
windows_from zero max_span_days cursor end = []
windows_from (suc fuel) max_span_days cursor end =
    let window_end = min (cursor + (max_span_days - 1)) end in
    let rest = windows_from fuel max_span_days (window_end + 1) end in
    if leb cursor end then change_window cursor window_end ∷ rest else []

-- none is a ValueError.
unfoldable pub change_windows : ℕ → ℕ → ℕ → Option (List DateWindow)
change_windows start end max_span_days =
    if ltb end start
    then none
    else if ltb max_span_days 1
    then none
    else some (windows_from (end + 1 - start) max_span_days start end)

-- The midpoint of a window of n + 2 days.
unfoldable pub halves : ℕ → ℕ → ℕ → List DateWindow
halves span start end =
    let midpoint = start + (span / 2 - 1) in
    change_window start midpoint ∷ change_window (midpoint + 1) end ∷ []

unfoldable pub split_change_window : DateWindow → List DateWindow
split_change_window window =
    let span = window.end - window.start + 1 in
    if ltb span 2 then [] else halves span window.start window.end

-- The uncovered range is present as a whole or not at all.
pub record ChangesPlan : Type 0 where
  pub windows : List DateWindow
  pub uncovered : Option (ℕ × ℕ)

abbrev pub uncovered_length : Option (ℕ × ℕ) → ℕ
uncovered_length none = 0
uncovered_length (some (first, last)) = last - first + 1

unfoldable pub uncovered_days : ChangesPlan → ℕ
uncovered_days plan = uncovered_length plan.uncovered

abbrev covered_plan : Option (List DateWindow) → Option ChangesPlan
covered_plan = Option.map (λ windows. record { windows = windows; uncovered = none })

unfoldable pub plan_since : Option ℕ → ℕ → ℕ → ℕ → Option ChangesPlan
plan_since none until max_span_days earliest =
    covered_plan (change_windows earliest until max_span_days)
plan_since (some since) until max_span_days earliest =
    if ltb until since
    then some (record { windows = []; uncovered = none })
    else if ltb (since + 1) earliest
    then Option.map
        (λ windows. record { windows = windows; uncovered = some (since + 1, earliest - 1) })
        (change_windows (max since earliest) until max_span_days)
    else covered_plan (change_windows (max since earliest) until max_span_days)

-- `since` is the last date already covered. none is a ValueError, or an OverflowError before the first day.
unfoldable pub plan_change_windows : Option ℕ → ℕ → ℕ → ℕ → Option ChangesPlan
plan_change_windows since until max_span_days retention_days =
    let earliest = until - (retention_days - 1) in
    if ltb retention_days 1 || ltb until retention_days
    then none
    else plan_since since until max_span_days earliest
