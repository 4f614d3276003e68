-- ===== src/Discovery/Days.antt =====
-- What a walk of backlogg/scheduler/discovery.py adds to the days that were seen.
use backlogg.Prelude.{ℕ, List, Option, some, String, ◌≡◌, arith, ◌+◌, ◌≤◌, ◌<◌, ◌⊎◌, inl, inr}
use native.Mathlib.Decide.{dec_lt}
use backlogg.Discovery.{DateWindow}
use backlogg.Discovery.Changes.{Page, PageFetcher, max_discover_pages, ChangeWalk, page_count}
use backlogg.Discovery.Seen.{HasPage-Keeps, Keeps, Keeps-trans, Seen}

-- A request for this day, in a window of no more pages than are served, of which all were seen.
abbrev pub Covers : PageFetcher → List String → ℕ → Type 0
Covers fetch_page ids day =
    (w : DateWindow) × (w.start ≤ day)
    × (day ≤ w.end)
    × ((first : Page) × (fetch_page 1 w.start w.end ≡ some first)
        × (page_count first.total_pages ≤ max_discover_pages)
        × ((p : ℕ) → 1 ≤ p → p ≤ page_count first.total_pages → Seen fetch_page w ids p))

-- The day alone has more pages than are served.
abbrev pub Saturated : PageFetcher → ℕ → Type 0
Saturated fetch_page day =
    (first : Page) × (fetch_page 1 day day ≡ some first)
    × (max_discover_pages < page_count first.total_pages)

Covers-Keeps :
    (fetch_page : PageFetcher) (ids ids' : List String) (day : ℕ)
    → Keeps ids ids'
    → Covers fetch_page ids day
    → Covers fetch_page ids' day
Covers-Keeps fetch_page ids ids' day k (w, from, to, (first, got, fits, seen)) = (
  w,
  from,
  to,
  (
    first,
    got,
    fits,
    λ p one le.
        let (page, fetched, h) = seen p one le in (page, fetched, HasPage-Keeps ids ids' page k h),
  ),
)

-- What a walk of the days from a to b adds.
pub record Walked (fetch_page : PageFetcher) (a b : ℕ) (walk walk' : ChangeWalk) : Type 0 where
  pub kept : Keeps walk.ids walk'.ids
  pub first_kept : (t : ℕ) → walk.first_truncated_day ≡ some t → walk'.first_truncated_day ≡ some t
  pub first_is :
      (t : ℕ)
      → walk'.first_truncated_day ≡ some t
      → (walk.first_truncated_day ≡ some t) ⊎ ((a ≤ t) × (t ≤ b) × Saturated fetch_page t)
  pub covers :
      (day : ℕ)
      → a ≤ day
      → day ≤ b
      → Covers fetch_page walk'.ids day
        ⊎ ((t : ℕ) × (walk'.first_truncated_day ≡ some t) × (t ≤ day))

-- The first day that was cut lies before a.
abbrev pub Before : Option ℕ → ℕ → Type 0
Before first a = (t : ℕ) → first ≡ some t → t ≤ a

-- The walk of two parts that follow each other.
pub Walked-trans :
    (fetch_page : PageFetcher) (a b c : ℕ) (walk walk' walk'' : ChangeWalk)
    → a ≤ b + 1
    → b ≤ c
    → Walked fetch_page a b walk walk'
    → Walked fetch_page (b + 1) c walk' walk''
    → Walked fetch_page a c walk walk''
Walked-trans fetch_page a b c walk walk' walk'' ab bc r s = record {
  kept = Keeps-trans walk.ids walk'.ids walk''.ids r.kept s.kept;
  first_kept = λ t e. s.first_kept t (r.first_kept t e);
  first_is = λ t e. elim (s.first_is t e) [
    | inl old ↦ elim (r.first_is t old) [
      | inl older ↦ inl older
      | inr (ge, le, full) ↦ inr (ge, omega (arith, le, bc), full)
    ]
    | inr (ge, le, full) ↦ inr (omega (arith, ge, ab), le, full)
  ];
  covers = λ day ge le. elim (dec_lt b day) [
    | yes after ↦ s.covers day (omega (arith, after)) le
    | no before ↦ elim (r.covers day ge (omega (arith, before))) [
      | inl c ↦ inl (Covers-Keeps fetch_page walk'.ids walk''.ids day s.kept c)
      | inr (t, e, le) ↦ inr (t, s.first_kept t e, le)
    ]
  ];
}
