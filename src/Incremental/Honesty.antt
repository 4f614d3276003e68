-- ===== src/Incremental/Honesty.antt =====
-- The watermark of _incremental_changes of backlogg/scheduler/jobs.py passes no day that was not done.
use backlogg.Prelude.{
  ℕ, Bool, true, List, [], ◌∷◌, Option, none, some, String, filter, any, ◌≡◌, ◌≢◌, ◌⊎◌, inl, inr,
  refl, sym, ◌∙◌, arith, ◌+◌, ◌-◌, ◌≤◌, ◌<◌, ltb, All, Bool-cases,
}
use native.Mathlib.Decide.{dec_lt}
use text.Mathlib.TextEquality.{eq_iff}
use backlogg.Discovery.{DateWindow, ChangesPlan, plan_change_windows}
use backlogg.Discovery.Changes.{
  Outcome, returned, raised, out_of_fuel, ChangeFeed, has, fetch_change_ids,
}
use backlogg.Discovery.Tiling.{IsChangeWindow, Consecutive, Consecutive-le}
use backlogg.Discovery.Days.{Covers}
use backlogg.Discovery.Coverage.{fetch_change_ids-Covers, fetch_change_ids_within}
use backlogg.Discovery.Plan.{InRange, After, MarkedBy, plan_change_windows-Plans}
use backlogg.Incremental.Watermarks.{SyncWatermark, read_watermark_date, advance_watermark}
use backlogg.Incremental.{
  ChangesSpec, failed, hydrate_ids, Lane, changes, max_changes_window_days, count_window,
  mark_window, take_feed, walk_windows, no_result, follow_plan, incremental_changes,
}
use backlogg.Incremental.Hydration.{failures, failures_zero, hydrate_ids-errors}
use backlogg.Incremental.Marks.{advance_watermark-read}

MarkedBy-le : (since : Option ℕ) (from c : ℕ) → from ≤ c → MarkedBy since from → MarkedBy since c
MarkedBy-le none from c le m = tt
MarkedBy-le (some s) from c le m = omega (arith, le, m)

has-filter :
    (p : String → Bool) (ids : List String) (id : String)
    → has id ids ≡ true
    → p id ≡ true
    → has id (filter p ids) ≡ true
unfolding any filter
has-filter p [] id h t = ground (arith, h)
has-filter p (x ∷ ids) id h t = ground (arith, h, t, eq_iff x id, has-filter p ids id)

module _ {S P Q : Type 0} (spec : ChangesSpec S P Q) (s_0 : S) where
  open spec use {hydration, now, item_type, fetch_page, catalogued}
  open hydration use {fetch_detail}

  -- A session of the run: the one that it began with, or what a hydration of some ids makes of one.
  pub data Reached : S → Type 0 where
    begun : Reached s_0
    hydrated :
        {s : S} (ids : List String) → Reached s → Reached (hydrate_ids hydration none 0 ids s).0

  -- Every page of a window around the day was seen, and each id on it that the catalog then had was asked for
  -- and answered.
  abbrev pub Refreshed : ℕ → Type 0
  Refreshed day =
      (ids : List String) × (s : S) × Reached s
      × Covers fetch_page ids day
      × ((id : String) → has id ids ≡ true → catalogued s id ≡ true → fetch_detail id ≢ failed)

  abbrev read : Lane S → Option ℕ
  read lane = read_watermark_date item_type changes lane.watermarks

  -- The watermark stays, or moves to a day of these up to which all are done.
  abbrev Advances : ℕ → ℕ → Lane S → Lane S → Type 0
  Advances from past lane lane' =
      (read lane' ≡ read lane)
      ⊎ ((c : ℕ) × (read lane' ≡ some c)
          × (from ≤ c)
          × (c < past)
          × ((day : ℕ) → from ≤ day → day ≤ c → Refreshed day))

  marked :
      (lane : Lane S) (c : ℕ)
      → read_watermark_date item_type changes
          (advance_watermark now item_type changes c lane.watermarks)
        ≡ some c
  marked lane c =
      rw (advance_watermark-read now c item_type changes item_type changes lane.watermarks)
        (ground (arith, eq_iff item_type item_type))

  -- The hydration of a window's ids, when no request raised.
  hydrated-Refreshed :
      (w : DateWindow) (feed : ChangeFeed) (lane : Lane S) (c : ℕ)
      → IsChangeWindow w
      → fetch_change_ids fetch_page w ≡ returned feed
      → Reached lane.session
      → (hydrate_ids hydration none 0
          (filter (catalogued lane.session) feed.ids)
          lane.session).1.fetch_errors
        ≡ 0
      → feed.covered_through ≡ some c
      → (day : ℕ) → w.start ≤ day
      → day ≤ c
      → Refreshed day
  hydrated-Refreshed w feed lane c ok e reached no_errors through day ge le =
      let to_refresh = filter (catalogued lane.session) feed.ids in
      let none_failed : failures fetch_detail to_refresh ≡ 0 =
        sym (hydrate_ids-errors hydration none 0 to_refresh lane.session) ∙ no_errors in
      (
        feed.ids,
        lane.session,
        reached,
        (fetch_change_ids-Covers fetch_page w feed ok e).0 day ge (rw through le),
        λ id h linked.
            failures_zero fetch_detail to_refresh none_failed id
              (has-filter (catalogued lane.session) feed.ids id h linked),
      )

  mark_window-Advances :
      (w : DateWindow) (through : Option ℕ) (go_on : Lane S → Lane S) (past : ℕ) (lane : Lane S)
      → w.end < past
      → ((c : ℕ)
          → through ≡ some c
          → (w.start ≤ c) × (c ≤ w.end) × ((day : ℕ) → w.start ≤ day → day ≤ c → Refreshed day))
      → ((next : Lane S) → Reached next.session → Advances (w.end + 1) past next (go_on next))
      → Reached lane.session
      → Advances w.start past lane (mark_window spec w through go_on lane)
  unfolding mark_window
  mark_window-Advances w none go_on past lane lt done rest reached = inl refl
  mark_window-Advances w (some c) go_on past lane lt done rest reached =
      let (ge, le, refreshed) = done c refl in
      elim (Bool-cases (ltb c w.end)) [
        | inl short ↦ rw short (inr (c, marked lane c, ge, omega (arith, le, lt), refreshed))
        | inr whole ↦
            let at_end : w.end ≤ c = ground (arith, whole) in
            rw whole (elim (rest _ reached) [
              | inl same ↦ inr (c, same ∙ marked lane c, ge, omega (arith, le, lt), refreshed)
              | inr (c', e, ge', lt', more) ↦ inr (
                c',
                e,
                omega (arith, ge, le, ge'),
                lt',
                λ day from to. elim (dec_lt w.end day) [
                  | yes later ↦ more day (omega (arith, later)) to
                  | no before ↦ refreshed day from (omega (arith, before, at_end))
                ],
              )
            ])
      ]

  take_feed-Advances :
      (w : DateWindow) (got : Outcome ChangeFeed) (go_on : Lane S → Lane S) (past : ℕ)
      (lane : Lane S)
      → fetch_change_ids fetch_page w ≡ got
      → IsChangeWindow w
      → w.end < past
      → ((next : Lane S) → Reached next.session → Advances (w.end + 1) past next (go_on next))
      → Reached lane.session
      → Advances w.start past lane (take_feed spec w got go_on lane)
  unfolding take_feed
  take_feed-Advances w raised go_on past lane e ok lt rest reached = inl refl
  take_feed-Advances w out_of_fuel go_on past lane e ok lt rest reached = inl refl
  take_feed-Advances w (returned feed) go_on past lane e ok lt rest reached =
      let to_refresh = filter (catalogued lane.session) feed.ids in
      let (s, outcome) = hydrate_ids hydration none 0 to_refresh lane.session in
      let lane' : Lane S = record lane {
        session = s;
        result = count_window spec feed to_refresh outcome lane.result;
      } in
      elim (Bool-cases (ltb 0 outcome.fetch_errors)) [
        | inl errors ↦ rw errors (inl refl)
        | inr fine ↦ rw fine (
            mark_window-Advances w feed.covered_through go_on past lane' lt
              (λ c through.
                let (ge, le) = fetch_change_ids_within fetch_page w feed c ok e through in
                (
                  ge,
                  le,
                  hydrated-Refreshed w feed lane c ok e reached (ground (arith, fine)) through,
                ))
              rest (hydrated to_refresh reached))
      ]

  walk_windows-Advances :
      (ws : List DateWindow) (from past : ℕ) (lane : Lane S)
      → Consecutive from past ws
      → All IsChangeWindow ws
      → Reached lane.session
      → Advances from past lane (walk_windows spec ws lane)
  unfolding walk_windows
  walk_windows-Advances [] from past lane f ok reached = inl refl
  walk_windows-Advances (w ∷ ws) from past lane (e, le, f) (ok, oks) reached = rw (← e) (
      take_feed-Advances w (fetch_change_ids fetch_page w) (walk_windows spec ws) past lane refl ok
        (omega (arith, Consecutive-le (w.end + 1) past ws f))
        (λ next. walk_windows-Advances ws (w.end + 1) past next f oks) reached)

  walk_windows_none :
      (ws : List DateWindow) (lane : Lane S)
      → ws ≡ []
      → read (walk_windows spec ws lane) ≡ read lane
  unfolding walk_windows
  walk_windows_none [] lane e = refl
  walk_windows_none (w ∷ ws) lane e = absurd (ground (arith, e))

  -- A run returns, and its watermark stays, or moves to a day c up to today that is not before the old one.
  -- Each day after the old watermark (or, with none, in retention) and up to c is in the range that the plan
  -- reports as uncovered, or was done: every page of some window around it was seen, and each id on a page
  -- that the catalog of a session of the run had was asked for and answered.
  pub incremental_changes-Refreshed :
      (today : ℕ) (watermarks : List SyncWatermark)
      → max_changes_window_days ≤ today
      → (plan : ChangesPlan) × (lane : Lane S) × (plan_change_windows
            (read_watermark_date item_type changes watermarks)
            today
            max_changes_window_days
            max_changes_window_days
          ≡ some plan)
        × (incremental_changes spec today watermarks s_0 ≡ some lane)
        × ((read_watermark_date item_type changes lane.watermarks
              ≡ read_watermark_date item_type changes watermarks)
            ⊎ ((c : ℕ) × (read_watermark_date item_type changes lane.watermarks ≡ some c)
                × (c ≤ today)
                × MarkedBy (read_watermark_date item_type changes watermarks) c
                × ((day : ℕ)
                    → After (read_watermark_date item_type changes watermarks) (today - 13) day
                    → day ≤ c
                    → InRange plan.uncovered day ⊎ Refreshed day)))
  unfolding incremental_changes follow_plan
  incremental_changes-Refreshed today watermarks old =
      let since = read_watermark_date item_type changes watermarks in
      let (plan, planned, plans) =
        plan_change_windows-Plans since today max_changes_window_days max_changes_window_days
          (omega arith) (omega arith) old in
      let start : Lane S = record {
        watermarks = watermarks;
        session = s_0;
        result = no_result spec plan;
      } in
      (
        plan,
        walk_windows spec plan.windows start,
        planned,
        rw planned refl,
        elim plans [
          | inl none_left ↦ inl (walk_windows_none plan.windows start none_left)
          | inr (from, follow, ok, marked_by, days) ↦
              elim (walk_windows-Advances plan.windows from (today + 1) start follow ok begun) [
                | inl same ↦ inl same
                | inr (c, e, ge, lt, done) ↦ inr (
                  c,
                  e,
                  omega (arith, lt),
                  MarkedBy-le since from c ge marked_by,
                  λ day after to. elim (dec_lt day from) [
                    | yes before ↦ inl (days day after before)
                    | no from_on ↦ inr (done day (omega (arith, from_on)) to)
                  ],
                )
              ]
        ],
      )
