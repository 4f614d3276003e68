-- ===== src/Discovery/Seen.antt =====
-- Which ids a walk of backlogg/scheduler/discovery.py has seen: add_ids, add_pages, gather_pages.
use backlogg.Prelude.{
  ℕ, zero, suc, true, List, [], ◌∷◌, ◌++◌, Option, none, some, String, str_eq, ◌≡◌, refl, arith,
  ◌+◌, ◌≤◌, ◌<◌, if◌then◌else◌, any, All,
}
use text.Mathlib.TextEquality.{eq_iff}
use native.Mathlib.Decide.{dec_lt}
use backlogg.Discovery.{DateWindow}
use backlogg.Discovery.Changes.{
  Page, PageFetcher, ChangeWalk, change_ids, has, add_ids, add_page, gather_both, gather_pages,
  add_pages,
}

-- Each id of the page is among the ids.
abbrev pub HasPage : List String → Page → Type 0
HasPage ids page = All (λ id. has id ids ≡ true) (change_ids page.results)

-- The ids that the first list has, the second has too.
abbrev pub Keeps : List String → List String → Type 0
Keeps ids ids' = (id : String) → has id ids ≡ true → has id ids' ≡ true

pub Keeps-trans :
    (ids ids' ids'' : List String) → Keeps ids ids' → Keeps ids' ids'' → Keeps ids ids''
Keeps-trans ids ids' ids'' k k' id h = k' id (k id h)

All-Keeps :
    (new ids ids' : List String)
    → Keeps ids ids'
    → All (λ id. has id ids ≡ true) new
    → All (λ id. has id ids' ≡ true) new
All-Keeps [] ids ids' k h = tt
All-Keeps (x ∷ new) ids ids' k (h, hs) = (k x h, All-Keeps new ids ids' k hs)

pub HasPage-Keeps :
    (ids ids' : List String) (page : Page) → Keeps ids ids' → HasPage ids page → HasPage ids' page
HasPage-Keeps ids ids' page = All-Keeps (change_ids page.results) ids ids'

pub has-append :
    (x y : String) (ids : List String)
    → has x (ids ++ y ∷ []) ≡ (if has x ids then true else str_eq y x)
unfolding any
has-append x y [] = ground arith
has-append x y (i ∷ ids) = ground (arith, has-append x y ids)

add_ids-kept : (more ids : List String) → Keeps ids (add_ids more ids)
unfolding add_ids
add_ids-kept [] ids x h = h
add_ids-kept (y ∷ more) ids x h =
    add_ids-kept more (if has y ids then ids else ids ++ y ∷ []) x
      (ground (arith, h, has-append x y ids))

add_ids-new : (more ids : List String) → All (λ id. has id (add_ids more ids) ≡ true) more
unfolding add_ids
add_ids-new [] ids = tt
add_ids-new (y ∷ more) ids =
    let ids' = if has y ids then ids else ids ++ y ∷ [] in
    (
      add_ids-kept more ids' y (ground (arith, has-append y y ids, eq_iff y y)),
      add_ids-new more ids',
    )

pub add_page-kept : (page : Page) (walk : ChangeWalk) → Keeps walk.ids (add_page page walk).ids
unfolding add_page
add_page-kept page walk = add_ids-kept (change_ids page.results) walk.ids

pub add_page-new : (page : Page) (walk : ChangeWalk) → HasPage (add_page page walk).ids page
unfolding add_page
add_page-new page walk = add_ids-new (change_ids page.results) walk.ids

pub add_pages-kept :
    (pages : List Page) (walk : ChangeWalk) → Keeps walk.ids (add_pages pages walk).ids
unfolding add_pages
add_pages-kept [] walk x h = h
add_pages-kept (page ∷ pages) walk x h =
    let walk' = record walk { pages = walk.pages + 1 } in
    add_pages-kept pages (add_page page walk') x (add_page-kept page walk' x h)

pub add_pages-new :
    (pages : List Page) (walk : ChangeWalk) → All (HasPage (add_pages pages walk).ids) pages
unfolding add_pages
add_pages-new [] walk = tt
add_pages-new (page ∷ pages) walk =
    let walk' = add_page page (record walk { pages = walk.pages + 1 }) in
    (
      HasPage-Keeps walk'.ids (add_pages pages walk').ids page (add_pages-kept pages walk')
          (add_page-new page (record walk { pages = walk.pages + 1 })),
      add_pages-new pages walk',
    )

-- The other fields.
pub add_pages-first :
    (pages : List Page) (walk : ChangeWalk)
    → (add_pages pages walk).first_truncated_day ≡ walk.first_truncated_day
unfolding add_pages add_page
add_pages-first [] walk = refl
add_pages-first (page ∷ pages) walk =
    add_pages-first pages (add_page page (record walk { pages = walk.pages + 1 }))

-- The page was fetched, and its ids were kept.
abbrev pub Seen : PageFetcher → DateWindow → List String → ℕ → Type 0
Seen fetch_page window ids p =
    (page : Page) × (fetch_page p window.start window.end ≡ some page) × HasPage ids page

gather_both-some :
    (got : Option Page) (more : Option (List Page)) (payloads : List Page)
    → gather_both got more ≡ some payloads
    → (payload : Page) × (rest : List Page) × (got ≡ some payload)
      × (more ≡ some rest)
      × (payload ∷ rest ≡ payloads)
unfolding gather_both
gather_both-some none more payloads e = absurd (ground (arith, e))
gather_both-some (some payload) none payloads e = absurd (ground (arith, e))
gather_both-some (some payload) (some rest) payloads e =
    (payload, rest, refl, refl, ground (arith, e))

pub gather_pages-Seen :
    (fetch_page : PageFetcher) (window : DateWindow) (ids : List String) (page count : ℕ)
    (payloads : List Page)
    → gather_pages fetch_page window page count ≡ some payloads
    → All (HasPage ids) payloads
    → (p : ℕ) → page ≤ p
    → p < page + count
    → Seen fetch_page window ids p
unfolding gather_pages
gather_pages-Seen fetch_page window ids page zero payloads e h p le lt =
    absurd (omega (arith, le, lt))
gather_pages-Seen fetch_page window ids page (suc count) payloads e h p le lt =
    let (payload, rest, got, more, all) =
      gather_both-some (fetch_page page window.start window.end)
        (gather_pages fetch_page window (page + 1) count) payloads e in
    let (here, later) : HasPage ids payload × All (HasPage ids) rest = rw (← all) at h in
    elim (dec_lt page p) [
      | yes after ↦
          gather_pages-Seen fetch_page window ids (page + 1) count rest more later p
            (omega (arith, after)) (omega (arith, lt))
      | no now ↦ let e : page ≡ p = omega (arith, le, now) in (payload, rw (← e) got, here)
    ]
