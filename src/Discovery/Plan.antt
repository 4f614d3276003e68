-- ===== src/Discovery/Plan.antt =====
-- The plan of plan_change_windows of backlogg/scheduler/discovery.py against the days that it is about.
use backlogg.Prelude.{
  ℕ, List, [], ◌∷◌, ◌++◌, Option, none, some, ◌≡◌, refl, arith, ◌+◌, ◌-◌, ◌≤◌, ◌<◌, ◌⊎◌, inl, inr,
  ltb, if◌then◌else◌, All,
}
use Prim.Native.Nat.{max}
use native.Mathlib.Decide.{dec_lt}
use backlogg.Discovery.{DateWindow, ChangesPlan, change_windows, plan_since, plan_change_windows}
use backlogg.Discovery.Tiling.{
  days, days_of, days-append, IsShort, IsChangeWindow, Consecutive, Consecutive-days_of,
  change_windows_lem,
}

abbrev pub days_of_range : Option (ℕ × ℕ) → List ℕ
days_of_range none = []
days_of_range (some (first, last)) = days first (last + 1 - first)

abbrev pub StartsFrom : ℕ → DateWindow → Type 0
StartsFrom day w = day ≤ w.start

-- What is asked for again or for the first time: from the watermark on, or after it where it is too old.
abbrev pub first_planned : ℕ → ℕ → ℕ
first_planned since earliest = if ltb since earliest then since + 1 else since

pub Consecutive-StartsFrom :
    (day from past : ℕ) (ws : List DateWindow)
    → day ≤ from
    → Consecutive from past ws
    → All (StartsFrom day) ws
Consecutive-StartsFrom day from past [] le f = tt
Consecutive-StartsFrom day from past (w ∷ ws) le (e, le', f) = (
  omega (arith, le, e),
  Consecutive-StartsFrom day (w.end + 1) past ws (omega (arith, le, e, le')) f,
)

module _ (since until span retention : ℕ) (keep : 1 ≤ retention) (past : retention ≤ until)
    (le : since ≤ until) (ws : List DateWindow)
    (made : change_windows (max since (until - (retention - 1))) until span ≡ some ws) where
  plan_old :
      since + 1 < until - (retention - 1)
      → plan_change_windows (some since) until span retention
        ≡ some (record { windows = ws; uncovered = some (since + 1, until - (retention - 1) - 1) })
  unfolding plan_change_windows plan_since
  plan_old old = rw made (ground (arith, old, keep, past, le))

  plan_recent :
      until - (retention - 1) ≤ since + 1
      → plan_change_windows (some since) until span retention
        ≡ some (record { windows = ws; uncovered = none })
  unfolding plan_change_windows plan_since
  plan_recent recent = rw made (ground (arith, recent, keep, past, le))

-- With a watermark that is not in the future, the plan is made, and its uncovered days followed by the days
-- of its windows are all the days from the watermark up to today, in order and each once. The watermark's
-- own day is among them exactly when it is in retention. No window is longer than a request may ask for,
-- or starts before the retention.
pub plan_change_windows_lem :
    (since until span retention : ℕ)
    → 1 ≤ span
    → 1 ≤ retention
    → retention ≤ until
    → since ≤ until
    → (plan : ChangesPlan) × (plan_change_windows (some since) until span retention ≡ some plan)
      × (days_of_range plan.uncovered ++ days_of plan.windows
          ≡ days
              (first_planned since (until + 1 - retention))
              (until + 1 - first_planned since (until + 1 - retention)))
      × All (IsShort span) plan.windows
      × All (StartsFrom (until + 1 - retention)) plan.windows
plan_change_windows_lem since until span retention pos keep past le =
    let earliest = until - (retention - 1) in
    let earliest_is : until + 1 - retention ≡ earliest = omega (arith, keep, past) in
    let start = max since earliest in
    let (ws, made, follow, short, windows) =
      change_windows_lem start until span (omega (arith, le, keep, past)) pos in
    let from = Consecutive-StartsFrom earliest start (until + 1) ws (omega arith) follow in
    let all = Consecutive-days_of start (until + 1) ws follow in
    rw earliest_is (elim (dec_lt (since + 1) earliest) [
      | yes old ↦
          let planned : first_planned since earliest ≡ since + 1 = ground (arith, old) in
          let joined =
            days-append (earliest - 1 + 1 - (since + 1)) (until + 1 - start)
              (until + 1 - (since + 1)) (since + 1) start (omega (arith, old, le, keep, past))
              (omega (arith, old)) in
          (
            record { windows = ws; uncovered = some (since + 1, earliest - 1) },
            plan_old since until span retention keep past le ws made old,
            rw (planned, all) joined,
            short,
            from,
          )
      | no recent ↦
          let planned : first_planned since earliest ≡ start = ground (arith, recent) in
          (
            record { windows = ws; uncovered = none },
            plan_recent since until span retention keep past le ws made (omega (arith, recent)),
            rw planned all,
            short,
            from,
          )
    ])

abbrev pub InRange : Option (ℕ × ℕ) → ℕ → Type 0
InRange none day = ⊥
InRange (some (first, last)) day = (first ≤ day) × (day ≤ last)

-- The days that a watermark leaves to do, of those in retention where there is no watermark.
abbrev pub After : Option ℕ → ℕ → ℕ → Type 0
After none earliest day = earliest ≤ day
After (some since) earliest day = since < day

-- The watermark is a day up to this one, where there is one.
abbrev pub MarkedBy : Option ℕ → ℕ → Type 0
MarkedBy none day = Unit
MarkedBy (some since) day = since ≤ day

-- A plan has no windows, or windows without a gap up to today, before which each day to do is uncovered.
abbrev pub Plans : Option ℕ → ℕ → ℕ → ChangesPlan → Type 0
Plans since until earliest plan =
    (plan.windows ≡ [])
    ⊎ ((from : ℕ) × Consecutive from (until + 1) plan.windows
        × All IsChangeWindow plan.windows
        × MarkedBy since from
        × ((day : ℕ) → After since earliest day → day < from → InRange plan.uncovered day))

pub plan_change_windows-Plans :
    (since : Option ℕ) (until span retention : ℕ)
    → 1 ≤ span
    → 1 ≤ retention
    → retention ≤ until
    → (plan : ChangesPlan) × (plan_change_windows since until span retention ≡ some plan)
      × Plans since until (until - (retention - 1)) plan
unfolding plan_change_windows plan_since
plan_change_windows-Plans none until span retention pos keep past =
    let earliest = until - (retention - 1) in
    let (ws, made, follow, short, windows) =
      change_windows_lem earliest until span (omega (arith, keep, past)) pos in
    (
      record { windows = ws; uncovered = none },
      rw made (ground (arith, keep, past)),
      inr (
        earliest,
        follow,
        windows,
        tt,
        λ day after before. absurd (omega (arith, after, before)),
      ),
    )
plan_change_windows-Plans (some since) until span retention pos keep past =
    let earliest = until - (retention - 1) in
    let start = max since earliest in
    elim (dec_lt until since) [
      | yes future ↦
          (record { windows = []; uncovered = none }, ground (arith, future, keep, past), inl refl)
      | no now ↦
          let le : since ≤ until = omega (arith, now) in
          let (ws, made, follow, short, windows) =
            change_windows_lem start until span (omega (arith, le, keep, past)) pos in
          elim (dec_lt (since + 1) earliest) [
            | yes old ↦ (
              record { windows = ws; uncovered = some (since + 1, earliest - 1) },
              plan_old since until span retention keep past le ws made old,
              inr (
                start,
                follow,
                windows,
                omega arith,
                λ day after before. (omega (arith, after), omega (arith, before, old)),
              ),
            )
            | no recent ↦ (
              record { windows = ws; uncovered = none },
              plan_recent since until span retention keep past le ws made (omega (arith, recent)),
              inr (
                start,
                follow,
                windows,
                omega arith,
                λ day after before. absurd (omega (arith, after, before, recent)),
              ),
            )
          ]
    ]
