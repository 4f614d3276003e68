-- ===== src/Discovery/Coverage.antt =====
-- What fetch_change_ids of backlogg/scheduler/discovery.py says it covered, it has seen whole.
use backlogg.Prelude.{
  ℕ, suc, Option, none, some, ◌≡◌, refl, arith, ◌+◌, ◌-◌, ◌≤◌, ◌<◌, ◌⊎◌, inl, inr, ltb, Bool-cases,
  Option-cases,
}
use backlogg.Discovery.{DateWindow}
use backlogg.Discovery.Tiling.{IsChangeWindow}
use backlogg.Discovery.Days.{Covers, Saturated, Walked}
use backlogg.Discovery.Walk.{and_then_returned, walk_change_window-Walked}
use backlogg.Discovery.Changes.{
  PageFetcher, returned, ChangeWalk, ChangeFeed, walk_change_window, covered_through, no_walk,
  feed_of_walk, fetch_change_ids,
}

-- The walk that the feed is made from.
feed_walk :
    (fetch_page : PageFetcher) (w : DateWindow) (feed : ChangeFeed)
    → IsChangeWindow w
    → fetch_change_ids fetch_page w ≡ returned feed
    → (walk : ChangeWalk) × (feed_of_walk w walk ≡ feed)
      × Walked fetch_page w.start w.end no_walk walk
unfolding fetch_change_ids
feed_walk fetch_page w feed ok e =
    let (walk, walked, is_feed) =
      and_then_returned (walk_change_window fetch_page (suc (w.end - w.start)) w no_walk)
        (λ walk. returned (feed_of_walk w walk)) feed e in
    (
      walk,
      ground (arith, is_feed),
      walk_change_window-Walked fetch_page (suc (w.end - w.start)) w no_walk walk ok
          (λ t e. absurd (ground (arith, e))) walked,
    )

covered_through_within :
    (w : DateWindow) (first : Option ℕ) (c : ℕ)
    → w.start ≤ w.end
    → ((t : ℕ) → first ≡ some t → t ≤ w.end)
    → covered_through w first ≡ some c
    → (w.start ≤ c) × (c ≤ w.end)
unfolding covered_through
covered_through_within w none c le h e = (ground (arith, le, e), ground (arith, e))
covered_through_within w (some t) c le h e = (ground (arith, e), ground (arith, e, h t refl))

-- covered_through is a day of the window.
pub fetch_change_ids_within :
    (fetch_page : PageFetcher) (w : DateWindow) (feed : ChangeFeed) (c : ℕ)
    → IsChangeWindow w
    → fetch_change_ids fetch_page w ≡ returned feed
    → feed.covered_through ≡ some c
    → (w.start ≤ c) × (c ≤ w.end)
unfolding feed_of_walk
fetch_change_ids_within fetch_page w feed c (le, cut) e through =
    let (walk, feed_is, r) = feed_walk fetch_page w feed (le, cut) e in
    covered_through_within w walk.first_truncated_day c le
      (λ t is_t. elim (r.first_is t is_t) [
        | inl old ↦ absurd (ground (arith, old))
        | inr (ge, t_le, full) ↦ t_le
      ])
      (ground (arith, feed_is, through))

abbrev pub Through : Option ℕ → ℕ → Type 0
Through none day = ⊥
Through (some last) day = day ≤ last

-- The first day that the feed does not cover.
abbrev pub next_day : DateWindow → Option ℕ → ℕ
next_day w none = w.start
next_day w (some last) = last + 1

covered_through-cases :
    (w : DateWindow) (first : Option ℕ) (day t : ℕ)
    → (first ≡ some t → Through (covered_through w first) day → day < t)
      × (first ≡ none → Through (covered_through w first) day → day ≤ w.end)
      × (first ≡ some t → w.start ≤ t → next_day w (covered_through w first) ≡ t)
unfolding covered_through
covered_through-cases w none day t =
    (λ e. absurd (ground (arith, e)), λ e h. h, λ e. absurd (ground (arith, e)))
covered_through-cases w (some s) day t = elim (Bool-cases (ltb w.start s)) [
  | inl after ↦ rw after (
    λ e h. ground (arith, e, h, after),
    λ e. absurd (ground (arith, e)),
    λ e le. ground (arith, e, after),
  )
  | inr first ↦
      rw first
        (λ e h. absurd h, λ e. absurd (ground (arith, e)), λ e le. ground (arith, e, le, first))
]

-- When the feed of a window is returned, a day of the window up to its covered_through lies in a requested
-- window of at most 500 pages, each of whose pages was fetched and has all its ids in the feed; and either
-- covered_through is the end of the window, or the day after it (the first day, when there is none) alone
-- has more than 500 pages.
pub fetch_change_ids-Covers :
    (fetch_page : PageFetcher) (w : DateWindow) (feed : ChangeFeed)
    → IsChangeWindow w
    → fetch_change_ids fetch_page w ≡ returned feed
    → ((day : ℕ)
        → w.start ≤ day
        → Through feed.covered_through day
        → Covers fetch_page feed.ids day)
      × ((feed.covered_through ≡ some w.end)
          ⊎ Saturated fetch_page (next_day w feed.covered_through))
unfolding feed_of_walk covered_through
fetch_change_ids-Covers fetch_page w feed ok e =
    let (walk, feed_is, r) = feed_walk fetch_page w feed ok e in
    let first = walk.first_truncated_day in
    let at_first = covered_through-cases w first in
    rw (← feed_is) (elim (Option-cases first) [
      | inl never ↦ (
        λ day ge through. elim (r.covers day ge ((at_first day 0).1 never through)) [
          | inl c ↦ c
          | inr (t, e, le) ↦ absurd (ground (arith, e, never))
        ],
        inl (rw never refl),
      )
      | inr (t, is_t) ↦ elim (r.first_is t is_t) [
        | inl old ↦ absurd (ground (arith, old))
        | inr (ge_t, le_t, full) ↦ (
          λ day ge through.
              elim (r.covers day ge (omega (arith, le_t, (at_first day t).0 is_t through))) [
                | inl c ↦ c
                | inr (t', e, le) ↦
                    absurd (ground (arith, e, le, is_t, (at_first day t).0 is_t through))
              ],
          inr (rw ((at_first 0 t).2 is_t ge_t) full),
        )
      ]
    ])
