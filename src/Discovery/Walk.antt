-- ===== src/Discovery/Walk.antt =====
-- What a walk of a window of backlogg/scheduler/discovery.py has seen of its days.
use backlogg.Prelude.{
  ℕ, zero, suc, ◌&&◌, [], ◌∷◌, ◌≡◌, refl, arith, ◌+◌, ◌-◌, ◌/◌, ◌≤◌, ◌<◌, inl, inr, ltb, Bool-cases,
  Option-cases,
}
use backlogg.Discovery.{DateWindow, change_window, halves, split_change_window}
use backlogg.Discovery.Tiling.{IsChangeWindow}
use backlogg.Discovery.Changes.{
  PageFetcher, max_discover_pages, Outcome, returned, raised, out_of_fuel, and_then, ChangeWalk,
  page_count, walk_each, walk_first, walk_change_window,
}
use backlogg.Discovery.Days.{Walked, Before, Walked-trans}
use backlogg.Discovery.Pages.{walk_pages-Walked, Walked-pages}

pub and_then_returned :
    {A B : Type 0} (m : Outcome A) (f : A → Outcome B) (b : B)
    → and_then m f ≡ returned b
    → (a : A) × (m ≡ returned a) × (f a ≡ returned b)
and_then_returned (returned a) f b e = (a, refl, e)
and_then_returned raised f b e = absurd (ground (arith, e))
and_then_returned out_of_fuel f b e = absurd (ground (arith, e))

-- The two halves of a window of two days or more.
pub split_change_window_halves :
    (w : DateWindow)
    → w.start < w.end
    → (mid : ℕ) × (w.start ≤ mid)
      × (mid < w.end)
      × (split_change_window w ≡ change_window w.start mid ∷ change_window (mid + 1) w.end ∷ [])
unfolding split_change_window halves
split_change_window_halves w lt = (
  w.start + ((w.end - w.start + 1) / 2 - 1),
  omega (arith, lt),
  omega (arith, lt),
  ground (arith, lt),
)

pub change_window-IsChangeWindow : (a b : ℕ) → a ≤ b → IsChangeWindow (change_window a b)
unfolding change_window
change_window-IsChangeWindow a b le = (le, refl)

-- The days cut so far lie before the days that follow.
Walked-Before :
    (fetch_page : PageFetcher) (a b : ℕ) (walk walk' : ChangeWalk)
    → a ≤ b
    → Before walk.first_truncated_day a
    → Walked fetch_page a b walk walk'
    → Before walk'.first_truncated_day (b + 1)
Walked-Before fetch_page a b walk walk' ab before r t e = elim (r.first_is t e) [
  | inl old ↦ omega (arith, before t old, ab)
  | inr (ge, le, full) ↦ omega (arith, le)
]

pub walk_change_window-Walked :
    (fetch_page : PageFetcher) (fuel : ℕ) (w : DateWindow) (walk walk' : ChangeWalk)
    → IsChangeWindow w
    → Before walk.first_truncated_day w.start
    → walk_change_window fetch_page fuel w walk ≡ returned walk'
    → Walked fetch_page w.start w.end walk walk'
unfolding walk_change_window walk_first walk_each change_window
walk_change_window-Walked fetch_page zero w walk walk' ok before e = absurd (ground (arith, e))
walk_change_window-Walked fetch_page (suc fuel) w walk walk' (le, cut) before e =
    let again = walk_change_window-Walked fetch_page fuel in
    let walk_1 = record walk { pages = walk.pages + 1 } in
    elim (Option-cases (fetch_page 1 w.start w.end)) [
      | inl absent ↦ absurd (ground (arith, e, absent))
      | inr (first, got) ↦
          elim (Bool-cases
            (ltb max_discover_pages (page_count first.total_pages) && w.splittable)) [
              | inr whole ↦ Walked-pages fetch_page w.start w.end (walk.pages + 1) walk walk' (
                  walk_pages-Walked fetch_page w first walk_1 walk' (le, cut) got whole before
                    (rw (got, whole) at e))
              | inl split ↦
                  let (mid, ge, lt, parts) =
                    split_change_window_halves w (ground (arith, split, cut)) in
                  let (walk_2, e_1, e') =
                    and_then_returned
                      (walk_change_window fetch_page fuel (change_window w.start mid) walk_1)
                      (walk_each (walk_change_window fetch_page fuel)
                        (change_window (mid + 1) w.end ∷ []))
                      walk' (rw (got, split, parts) at e) in
                  let (walk_3, e_2, e_3) =
                    and_then_returned
                      (walk_change_window fetch_page fuel (change_window (mid + 1) w.end) walk_2)
                      (walk_each (walk_change_window fetch_page fuel) []) walk' e' in
                  let r = again (change_window w.start mid) walk_1 walk_2 (ge, refl) before e_1 in
                  let s =
                    again (change_window (mid + 1) w.end) walk_2 walk_3 (omega (arith, lt), refl)
                      (Walked-Before fetch_page w.start mid walk_1 walk_2 ge before r) e_2 in
                  let last : walk_3 ≡ walk' = ground (arith, e_3) in
                  Walked-pages fetch_page w.start w.end (walk.pages + 1) walk walk' (
                    rw (← last) (
                      Walked-trans fetch_page w.start mid w.end walk_1 walk_2 walk_3
                        (omega (arith, ge)) (omega (arith, lt)) r s))
            ]
    ]
