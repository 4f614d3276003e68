-- ===== src/Discovery/Termination.antt =====
-- The walk of a window of backlogg/scheduler/discovery.py ends, since the halves are shorter.
use backlogg.Prelude.{
  ℕ, zero, suc, ◌&&◌, List, [], ◌∷◌, Option, none, some, ◌≡◌, refl, arith, ◌+◌, ◌-◌, ◌≤◌, ◌<◌, ◌⊎◌,
  inl, inr, ltb, leb, Bool-cases, Option-cases,
}
use Prim.Native.Nat.{min}
use native.Mathlib.Decide.{dec_lt}
use backlogg.Discovery.{DateWindow, change_window, split_change_window}
use backlogg.Discovery.Changes.{
  Page, PageFetcher, max_discover_pages, Outcome, returned, raised, out_of_fuel, and_then,
  ChangeWalk, page_count, add_page, add_pages, gather_both, gather_pages, add_gathered, note_window,
  walk_pages, walk_each, walk_first, walk_change_window, no_walk, feed_of_walk, fetch_change_ids,
}
use backlogg.Discovery.Walk.{split_change_window_halves}

-- Some request raised an exception.
abbrev pub SomeRaised : PageFetcher → Type 0
SomeRaised fetch_page = (page : ℕ) × (start : ℕ) × (end : ℕ) × (fetch_page page start end ≡ none)

-- The call returns, or passes on the exception of a request.
abbrev pub Ends {ℓ} : {A : Type ℓ} → PageFetcher → Outcome A → Type ℓ
Ends {A} fetch_page m = ((a : A) × (m ≡ returned a)) ⊎ ((m ≡ raised) × SomeRaised fetch_page)

gather_both-none :
    (got : Option Page) (more : Option (List Page))
    → gather_both got more ≡ none
    → (got ≡ none) ⊎ (more ≡ none)
unfolding gather_both
gather_both-none none more e = inl refl
gather_both-none (some page) none e = inr refl
gather_both-none (some page) (some pages) e = absurd (ground (arith, e))

gather_pages-none :
    (fetch_page : PageFetcher) (w : DateWindow) (page count : ℕ)
    → gather_pages fetch_page w page count ≡ none
    → SomeRaised fetch_page
unfolding gather_pages
gather_pages-none fetch_page w page zero e = absurd (ground (arith, e))
gather_pages-none fetch_page w page (suc count) e =
    elim (gather_both-none (fetch_page page w.start w.end)
      (gather_pages fetch_page w (page + 1) count) e) [
        | inl here ↦ (page, w.start, w.end, here)
        | inr later ↦ gather_pages-none fetch_page w (page + 1) count later
      ]

add_gathered-Ends :
    (fetch_page : PageFetcher) (gathered : Option (List Page)) (walk : ChangeWalk)
    → (gathered ≡ none → SomeRaised fetch_page)
    → Ends fetch_page (add_gathered gathered walk)
unfolding add_gathered
add_gathered-Ends fetch_page none walk why = inr (refl, why refl)
add_gathered-Ends fetch_page (some payloads) walk why = inl (add_pages payloads walk, refl)

walk_pages-Ends :
    (fetch_page : PageFetcher) (w : DateWindow) (first : Page) (walk : ChangeWalk)
    → Ends fetch_page (walk_pages fetch_page w first walk)
unfolding walk_pages
walk_pages-Ends fetch_page w first walk =
    let n = page_count first.total_pages in
    let walk' = add_page first (note_window w n walk) in
    let served = min n max_discover_pages in
    elim (Bool-cases (leb served 1)) [
      | inl one ↦ inl (walk', rw one refl)
      | inr more ↦ rw more (
          add_gathered-Ends fetch_page (gather_pages fetch_page w 2 (served - 1)) walk'
            (gather_pages-none fetch_page w 2 (served - 1)))
    ]

and_then-Ends :
    {A B : Type 0} (fetch_page : PageFetcher) (m : Outcome A) (f : A → Outcome B)
    → Ends fetch_page m
    → ((a : A) → Ends fetch_page (f a))
    → Ends fetch_page (and_then m f)
and_then-Ends fetch_page (returned a) f h k = k a
and_then-Ends fetch_page raised f h k = inr (refl, ground (arith, h))
and_then-Ends fetch_page out_of_fuel f h k = absurd (ground (arith, h))

walk_each-Ends :
    (fetch_page : PageFetcher) (walk_half : DateWindow → ChangeWalk → Outcome ChangeWalk)
    (u v : DateWindow) (walk : ChangeWalk)
    → ((s : ChangeWalk) → Ends fetch_page (walk_half u s))
    → ((s : ChangeWalk) → Ends fetch_page (walk_half v s))
    → Ends fetch_page (walk_each walk_half (u ∷ v ∷ []) walk)
unfolding walk_each
walk_each-Ends fetch_page walk_half u v walk h k =
    and_then-Ends fetch_page (walk_half u walk) (walk_each walk_half (v ∷ [])) (h walk) (λ s.
      and_then-Ends fetch_page (walk_half v s) (walk_each walk_half []) (k s) (λ t. inl (t, refl)))

no_halves : (w : DateWindow) → w.end ≤ w.start → split_change_window w ≡ []
unfolding split_change_window
no_halves w le = ground (arith, le)

walk_change_window-Ends :
    (fetch_page : PageFetcher) (fuel : ℕ) (w : DateWindow) (walk : ChangeWalk)
    → w.end - w.start < fuel
    → Ends fetch_page (walk_change_window fetch_page fuel w walk)
unfolding walk_change_window walk_first walk_each change_window
walk_change_window-Ends fetch_page zero w walk enough = absurd (omega (arith, enough))
walk_change_window-Ends fetch_page (suc fuel) w walk enough =
    let walk_1 = record walk { pages = walk.pages + 1 } in
    elim (Option-cases (fetch_page 1 w.start w.end)) [
      | inl absent ↦ rw absent (inr (refl, (1, w.start, w.end, absent)))
      | inr (first, got) ↦
          elim (Bool-cases
            (ltb max_discover_pages (page_count first.total_pages) && w.splittable)) [
              | inr whole ↦ rw (got, whole) (walk_pages-Ends fetch_page w first walk_1)
              | inl split ↦ elim (dec_lt w.start w.end) [
                | no short ↦
                    rw (got, split, no_halves w (omega (arith, short))) (inl (walk_1, refl))
                | yes long ↦
                    let (mid, ge, lt, parts) = split_change_window_halves w long in
                    let u = change_window w.start mid in
                    let v = change_window (mid + 1) w.end in
                    rw (got, split, parts)
                      (walk_each-Ends fetch_page (walk_change_window fetch_page fuel) u v walk_1
                        (λ s.
                          walk_change_window-Ends fetch_page fuel u s
                            (omega (arith, enough, lt, ge)))
                        (λ s.
                          walk_change_window-Ends fetch_page fuel v s
                            (omega (arith, enough, lt, ge))))
              ]
            ]
    ]

-- For every window, a call of fetch_change_ids ends: it returns a feed, or it raises and then some
-- request raised.
pub fetch_change_ids-Ends :
    (fetch_page : PageFetcher) (w : DateWindow) → Ends fetch_page (fetch_change_ids fetch_page w)
unfolding fetch_change_ids
fetch_change_ids-Ends fetch_page w =
    let fuel = suc (w.end - w.start) in
    and_then-Ends fetch_page (walk_change_window fetch_page fuel w no_walk)
      (λ walk. returned (feed_of_walk w walk))
      (walk_change_window-Ends fetch_page fuel w no_walk (omega arith))
      (λ walk. inl (feed_of_walk w walk, refl))
