-- ===== src/Discovery/Pages.antt =====
-- What the pages of one window of backlogg/scheduler/discovery.py show of its days.
use backlogg.Prelude.{
  ℕ, false, ◌&&◌, List, [], Option, none, some, ◌≡◌, refl, ap, sym, ◌∙◌, arith, ◌-◌, ◌≤◌, ◌<◌, ◌⊎◌,
  inl, inr, ltb, leb, Bool-cases,
}
use Prim.Native.Nat.{min}
use native.Mathlib.Decide.{dec_lt}
use backlogg.Discovery.{DateWindow}
use backlogg.Discovery.Tiling.{IsChangeWindow}
use backlogg.Discovery.Changes.{
  Page, PageFetcher, max_discover_pages, returned, ChangeWalk, first_day, page_count, add_page,
  add_pages, gather_pages, add_gathered, note_window, walk_pages,
}
use backlogg.Discovery.Seen.{
  HasPage-Keeps, Keeps, add_page-kept, add_page-new, add_pages-kept, add_pages-new, add_pages-first,
  Seen, gather_pages-Seen,
}
use backlogg.Discovery.Days.{Walked, Before}

add_gathered_returned :
    (gathered : Option (List Page)) (walk walk' : ChangeWalk)
    → add_gathered gathered walk ≡ returned walk'
    → (payloads : List Page) × (gathered ≡ some payloads) × (add_pages payloads walk ≡ walk')
unfolding add_gathered
add_gathered_returned none walk walk' e = absurd (ground (arith, e))
add_gathered_returned (some payloads) walk walk' e = (payloads, refl, ground (arith, e))

-- A walk that returned took all the pages that are served.
walk_pages_returned :
    (fetch_page : PageFetcher) (w : DateWindow) (first : Page) (walk walk' : ChangeWalk)
    → walk_pages fetch_page w first walk ≡ returned walk'
    → (payloads : List Page) × (gather_pages fetch_page w 2
          (min (page_count first.total_pages) max_discover_pages - 1)
        ≡ some payloads)
      × (add_pages payloads (add_page first (note_window w (page_count first.total_pages) walk))
          ≡ walk')
unfolding walk_pages gather_pages add_pages
walk_pages_returned fetch_page w first walk walk' e =
    let served = min (page_count first.total_pages) max_discover_pages in
    elim (Bool-cases (leb served 1)) [
      | inl one ↦
          let none_left : served - 1 ≡ 0 = ground (arith, one) in
          ([], rw none_left refl, ground (arith, e, one))
      | inr more ↦
          add_gathered_returned (gather_pages fetch_page w 2 (served - 1))
            (add_page first (note_window w (page_count first.total_pages) walk)) walk'
            (rw more at e)
    ]

note_window_fits :
    (w : DateWindow) (n : ℕ) (walk : ChangeWalk)
    → n ≤ max_discover_pages
    → (note_window w n walk).first_truncated_day ≡ walk.first_truncated_day
unfolding note_window
note_window_fits w n walk le = ground (arith, le)

note_window_cut :
    (w : DateWindow) (n : ℕ) (walk : ChangeWalk)
    → max_discover_pages < n
    → (note_window w n walk).first_truncated_day ≡ first_day walk.first_truncated_day w.start
unfolding note_window
note_window_cut w n walk gt = ground (arith, gt)

note_window-ids :
    (w : DateWindow) (n : ℕ) (walk : ChangeWalk) → (note_window w n walk).ids ≡ walk.ids
unfolding note_window
note_window-ids w n walk = ground arith

-- The first day of the two.
first_day-cases :
    (o : Option ℕ) (day t : ℕ)
    → (o ≡ some t → first_day o day ≡ some t)
      × (first_day o day ≡ some t → (o ≡ some t) ⊎ (t ≡ day))
first_day-cases none day t = (λ e. absurd (ground (arith, e)), λ e. inr (ground (arith, e)))
first_day-cases (some s) day t = (λ e. e, inl)

first_day-le :
    (o : Option ℕ) (day : ℕ) → Before o day → (t : ℕ) × (first_day o day ≡ some t) × (t ≤ day)
first_day-le none day before = (day, refl, omega arith)
first_day-le (some s) day before = (s, refl, before s refl)

module _ (fetch_page : PageFetcher) (w : DateWindow) (first : Page) (walk : ChangeWalk)
    (payloads : List Page) where
  abbrev total : ℕ
  total = page_count first.total_pages

  abbrev noted : ChangeWalk
  noted = add_page first (note_window w total walk)

  whole_first :
      (add_pages payloads noted).first_truncated_day
      ≡ (note_window w total walk).first_truncated_day
  unfolding add_page
  whole_first = add_pages-first payloads noted

  whole_kept : Keeps walk.ids (add_pages payloads noted).ids
  whole_kept id h =
      add_pages-kept payloads noted id
        (add_page-kept first (note_window w total walk) id (rw (note_window-ids w total walk) h))

  module _ (got : fetch_page 1 w.start w.end ≡ some first)
      (gathered : gather_pages fetch_page w 2 (min total max_discover_pages - 1)
        ≡ some payloads) where
    whole-Seen :
        (p : ℕ)
        → 1 ≤ p
        → p ≤ min total max_discover_pages
        → Seen fetch_page w (add_pages payloads noted).ids p
    whole-Seen p one le = elim (dec_lt 1 p) [
      | yes more ↦
          gather_pages-Seen fetch_page w (add_pages payloads noted).ids 2
            (min total max_discover_pages - 1) payloads gathered (add_pages-new payloads noted) p
            (omega (arith, more)) (omega (arith, le, one))
      | no is_first ↦
          let is_one : p ≡ 1 = omega (arith, one, is_first) in
          (
            first,
            rw is_one got,
            HasPage-Keeps noted.ids (add_pages payloads noted).ids first
                (add_pages-kept payloads noted) (add_page-new first (note_window w total walk)),
          )
    ]

    whole-Walked_fits :
        total ≤ max_discover_pages → Walked fetch_page w.start w.end walk (add_pages payloads noted)
    whole-Walked_fits fits =
        let same : (add_pages payloads noted).first_truncated_day ≡ walk.first_truncated_day =
          whole_first ∙ note_window_fits w total walk fits in
        record {
          kept = whole_kept;
          first_kept = λ t e. same ∙ e;
          first_is = λ t e. inl (sym same ∙ e);
          covers = λ day ge le. inl (
            w,
            ge,
            le,
            (first, got, fits, λ p one le. whole-Seen p one (omega (arith, le, fits))),
          );
        }

    whole-Walked_cut :
        max_discover_pages < total
        → w.start ≡ w.end
        → Before walk.first_truncated_day w.start
        → Walked fetch_page w.start w.end walk (add_pages payloads noted)
    whole-Walked_cut over one_day before =
        let same : (add_pages payloads noted).first_truncated_day
            ≡ first_day walk.first_truncated_day w.start =
          whole_first ∙ note_window_cut w total walk over in
        let (t, first_is, t_le) = first_day-le walk.first_truncated_day w.start before in
        let got_day : fetch_page 1 w.start w.start ≡ some first =
          ap (fetch_page 1 w.start) one_day ∙ got in
        record {
          kept = whole_kept;
          first_kept = λ t e. same ∙ (first_day-cases walk.first_truncated_day w.start t).0 e;
          first_is = λ t e.
              elim ((first_day-cases walk.first_truncated_day w.start t).1 (sym same ∙ e)) [
                | inl old ↦ inl old
                | inr is_day ↦ inr (
                  omega (arith, is_day),
                  omega (arith, is_day, one_day),
                  rw is_day (first, got_day, over),
                )
              ];
          covers = λ day ge le. inr (t, same ∙ first_is, omega (arith, t_le, ge));
        }

pub walk_pages-Walked :
    (fetch_page : PageFetcher) (w : DateWindow) (first : Page) (walk walk' : ChangeWalk)
    → IsChangeWindow w
    → fetch_page 1 w.start w.end ≡ some first
    → (ltb max_discover_pages (page_count first.total_pages) && w.splittable) ≡ false
    → Before walk.first_truncated_day w.start
    → walk_pages fetch_page w first walk ≡ returned walk'
    → Walked fetch_page w.start w.end walk walk'
walk_pages-Walked fetch_page w first walk walk' (le, cut) got uncut before e =
    let (payloads, gathered, all) = walk_pages_returned fetch_page w first walk walk' e in
    elim (dec_lt max_discover_pages (page_count first.total_pages)) [
      | yes over ↦ rw (← all) (
          whole-Walked_cut fetch_page w first walk payloads got gathered over
            (ground (arith, over, le, cut, uncut)) before)
      | no fits ↦
          rw (← all)
            (whole-Walked_fits fetch_page w first walk payloads got gathered (omega (arith, fits)))
    ]

-- The requests that are made do not matter.
pub Walked-pages :
    (fetch_page : PageFetcher) (a b n : ℕ) (walk walk' : ChangeWalk)
    → Walked fetch_page a b (record walk { pages = n }) walk'
    → Walked fetch_page a b walk walk'
Walked-pages fetch_page a b n walk walk' r = record {
  kept = r.kept;
  first_kept = r.first_kept;
  first_is = r.first_is;
  covers = r.covers;
}
