-- ===== src/Discovery/Changes.antt =====
-- The walk of /changes of backlogg/scheduler/discovery.py: fetch_change_ids. A request is a function of
-- its page and dates that answers while the walk lasts, and its none is an exception. The pages that
-- asyncio.gather asks for are one list, which no exception leaves. The fuel is the days of the window.
use backlogg.Prelude.{
  ℕ, zero, suc, Bool, ◌&&◌, List, [], ◌∷◌, ◌++◌, Option, none, some, String, str_eq, ◌+◌, ◌-◌, ltb,
  leb, if◌then◌else◌, any, length,
}
use Prim.Native.Nat.{min}
use backlogg.Discovery.{Label, DateWindow, split_change_window}

-- The id of a result, as text, where the result has one.
pub record Page : Type 0 where
  pub total_pages : Option ℕ
  pub results : List (Option String)

-- page, start_date, end_date.
abbrev pub PageFetcher : Type 0
PageFetcher = ℕ → ℕ → ℕ → Option Page

abbrev pub max_discover_pages : ℕ
max_discover_pages = 500

pub data Outcome {ℓ} (A : Type ℓ) : Type ℓ where
  returned : A → Outcome A
  raised : Outcome A
  out_of_fuel : Outcome A

abbrev pub and_then {ℓ κ} : {A : Type ℓ} {B : Type κ} → Outcome A → (A → Outcome B) → Outcome B
and_then (returned a) f = f a
and_then raised f = raised
and_then out_of_fuel f = out_of_fuel

pub record ChangeWalk : Type 0 where
  pub ids : List String
  pub windows : ℕ
  pub pages : ℕ
  pub truncated_labels : List Label
  pub first_truncated_day : Option ℕ

pub record ChangeFeed : Type 0 where
  pub ids : List String
  pub windows : ℕ
  pub pages : ℕ
  pub covered_through : Option ℕ
  pub truncated_labels : List Label

unfoldable pub truncated_windows : ChangeFeed → ℕ
truncated_windows feed = length feed.truncated_labels

-- int(payload.get("total_pages") or 1)
unfoldable pub page_count : Option ℕ → ℕ
page_count none = 1
page_count (some zero) = 1
page_count (some (suc n)) = suc n

unfoldable pub change_ids : List (Option String) → List String
change_ids [] = []
change_ids (none ∷ results) = change_ids results
change_ids (some id ∷ results) = id ∷ change_ids results

abbrev pub has : String → List String → Bool
has id = any (λ i. str_eq i id)

-- dict.update with dict.fromkeys: a key that is there keeps its place.
unfoldable pub add_ids : List String → List String → List String
add_ids [] ids = ids
add_ids (id ∷ more) ids = add_ids more (if has id ids then ids else ids ++ id ∷ [])

unfoldable pub add_page : Page → ChangeWalk → ChangeWalk
add_page page walk = record walk { ids = add_ids (change_ids page.results) walk.ids }

unfoldable pub gather_both : Option Page → Option (List Page) → Option (List Page)
gather_both none payloads = none
gather_both (some payload) none = none
gather_both (some payload) (some payloads) = some (payload ∷ payloads)

-- The pages that asyncio.gather fetches, `count` of them from `page` on.
unfoldable pub gather_pages : PageFetcher → DateWindow → ℕ → ℕ → Option (List Page)
gather_pages fetch_page window page zero = some []
gather_pages fetch_page window page (suc count) =
    gather_both (fetch_page page window.start window.end)
      (gather_pages fetch_page window (page + 1) count)

unfoldable pub add_pages : List Page → ChangeWalk → ChangeWalk
add_pages [] walk = walk
add_pages (payload ∷ payloads) walk =
    add_pages payloads (add_page payload (record walk { pages = walk.pages + 1 }))

unfoldable pub add_gathered : Option (List Page) → ChangeWalk → Outcome ChangeWalk
add_gathered none walk = raised
add_gathered (some payloads) walk = returned (add_pages payloads walk)

abbrev pub first_day : Option ℕ → ℕ → Option ℕ
first_day none day = some day
first_day (some first) day = some first

-- The window counts, and a day of too many pages is noted.
unfoldable pub note_window : DateWindow → ℕ → ChangeWalk → ChangeWalk
note_window window total walk =
    let walk' = record walk { windows = walk.windows + 1 } in
    if ltb max_discover_pages total
    then record walk' {
      truncated_labels = walk.truncated_labels ++ window.label ∷ [];
      first_truncated_day = first_day walk.first_truncated_day window.start;
    }
    else walk'

-- A window that is not cut: its first page, and the others up to the last page that is served.
unfoldable pub walk_pages : PageFetcher → DateWindow → Page → ChangeWalk → Outcome ChangeWalk
walk_pages fetch_page window first walk =
    let total = page_count first.total_pages in
    let walk' = add_page first (note_window window total walk) in
    if leb (min total max_discover_pages) 1
    then returned walk'
    else add_gathered (gather_pages fetch_page window 2 (min total max_discover_pages - 1)) walk'

-- The halves, one after the other.
unfoldable pub walk_each :
    (DateWindow → ChangeWalk → Outcome ChangeWalk)
    → List DateWindow
    → ChangeWalk
    → Outcome ChangeWalk
walk_each walk_half [] walk = returned walk
walk_each walk_half (half ∷ halves) walk =
    and_then (walk_half half walk) (walk_each walk_half halves)

unfoldable pub walk_first :
    PageFetcher
    → (DateWindow → ChangeWalk → Outcome ChangeWalk)
    → DateWindow
    → Option Page
    → ChangeWalk
    → Outcome ChangeWalk
walk_first fetch_page walk_half window none walk = raised
walk_first fetch_page walk_half window (some first) walk =
    let walk' = record walk { pages = walk.pages + 1 } in
    if ltb max_discover_pages (page_count first.total_pages) && window.splittable
    then walk_each walk_half (split_change_window window) walk'
    else walk_pages fetch_page window first walk'

unfoldable pub walk_change_window : PageFetcher → ℕ → DateWindow → ChangeWalk → Outcome ChangeWalk
walk_change_window fetch_page zero window walk = out_of_fuel
walk_change_window fetch_page (suc fuel) window walk =
    walk_first fetch_page (walk_change_window fetch_page fuel) window
      (fetch_page 1 window.start window.end) walk

-- The last day of the window before the first that was cut.
unfoldable pub covered_through : DateWindow → Option ℕ → Option ℕ
covered_through window none = some window.end
covered_through window (some day) = if ltb window.start day then some (day - 1) else none

abbrev pub no_walk : ChangeWalk
no_walk = record {
  ids = [];
  windows = 0;
  pages = 0;
  truncated_labels = [];
  first_truncated_day = none;
}

unfoldable pub feed_of_walk : DateWindow → ChangeWalk → ChangeFeed
feed_of_walk window walk = record {
  ids = walk.ids;
  windows = walk.windows;
  pages = walk.pages;
  covered_through = covered_through window walk.first_truncated_day;
  truncated_labels = walk.truncated_labels;
}

unfoldable pub fetch_change_ids : PageFetcher → DateWindow → Outcome ChangeFeed
fetch_change_ids fetch_page window =
    and_then (walk_change_window fetch_page (suc (window.end - window.start)) window no_walk)
      (λ walk. returned (feed_of_walk window walk))
