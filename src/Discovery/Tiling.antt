-- ===== src/Discovery/Tiling.antt =====
-- The windows of backlogg/scheduler/discovery.py leave no day out and take none twice.
use backlogg.Prelude.{
  ℕ, zero, suc, false, List, [], ◌∷◌, ◌++◌, some, ◌≡◌, refl, ap, ◌∙◌, arith, ◌+◌, ◌-◌, ◌≤◌, ◌<◌,
  ltb, leb, All, Bool-cases, inl, inr,
}
use Prim.Native.Nat.{min}
use backlogg.Discovery.{
  DateWindow, change_window, windows_from, change_windows, halves, split_change_window,
}

-- n days from `from` on.
unfoldable pub days : ℕ → ℕ → List ℕ
days from zero = []
days from (suc n) = from ∷ days (from + 1) n

abbrev pub days_of_window : DateWindow → List ℕ
days_of_window w = days w.start (w.end + 1 - w.start)

unfoldable pub days_of : List DateWindow → List ℕ
days_of [] = []
days_of (w ∷ ws) = days_of_window w ++ days_of ws

pub days-append :
    (m n k from mid : ℕ) → m + n ≡ k → from + m ≡ mid → days from m ++ days mid n ≡ days from k
unfolding days
days-append zero n k from mid e f =
    let n_is : n ≡ k = omega (arith, e) in
    let mid_is : mid ≡ from = omega (arith, f) in rw (n_is, mid_is) refl
days-append (suc m) n zero from mid e f = absurd (omega (arith, e))
days-append (suc m) n (suc k) from mid e f =
    ap (λ ds. from ∷ ds) (days-append m n k (from + 1) mid (omega (arith, e)) (omega (arith, f)))

-- Each window has from one day to the largest span.
abbrev pub IsShort : ℕ → DateWindow → Type 0
IsShort span w = (w.start ≤ w.end) × (w.end < w.start + span)

-- A window that change_windows or split_change_window returns.
abbrev pub IsChangeWindow : DateWindow → Type 0
IsChangeWindow w = (w.start ≤ w.end) × (w.splittable ≡ ltb w.start w.end)

-- Windows that follow each other from `from` up to the day before `past`.
abbrev pub Consecutive : ℕ → ℕ → List DateWindow → Type 0
Consecutive from past [] = from ≡ past
Consecutive from past (w ∷ ws) =
    (w.start ≡ from) × (w.start ≤ w.end) × Consecutive (w.end + 1) past ws

pub Consecutive-le : (from past : ℕ) (ws : List DateWindow) → Consecutive from past ws → from ≤ past
Consecutive-le from past [] f = omega (arith, f)
Consecutive-le from past (w ∷ ws) (e, le, f) =
    omega (arith, e, le, Consecutive-le (w.end + 1) past ws f)

-- Such windows have exactly the days between, in order.
pub Consecutive-days_of :
    (from past : ℕ) (ws : List DateWindow)
    → Consecutive from past ws
    → days_of ws ≡ days from (past - from)
unfolding days_of days
Consecutive-days_of from past [] f =
    let none_left : past - from ≡ 0 = omega (arith, f) in rw none_left refl
Consecutive-days_of from past (w ∷ ws) (e, le, f) =
    let le' = Consecutive-le (w.end + 1) past ws f in
    rw (Consecutive-days_of (w.end + 1) past ws f) (
      days-append (w.end + 1 - w.start) (past - (w.end + 1)) (past - from) w.start (w.end + 1)
        (omega (arith, e, le, le')) (omega (arith, le))
      ∙ ap (λ d. days d (past - from)) e)

windows_from-Consecutive :
    (fuel span cursor end : ℕ)
    → 1 ≤ span
    → end + 1 ≤ cursor + fuel
    → cursor ≤ end + 1
    → Consecutive cursor (end + 1) (windows_from fuel span cursor end)
      × All (IsShort span) (windows_from fuel span cursor end)
      × All IsChangeWindow (windows_from fuel span cursor end)
unfolding windows_from change_window
windows_from-Consecutive zero span cursor end pos enough le = (omega (arith, enough, le), tt, tt)
windows_from-Consecutive (suc fuel) span cursor end pos enough le =
    elim (Bool-cases (leb cursor end)) [
      | inl more ↦
          let next = min (cursor + (span - 1)) end + 1 in
          let (f, short, made) =
            windows_from-Consecutive fuel span next end pos (ground (arith, more)) (omega arith) in
          rw more (
            (refl, ground (arith, more), f),
            ((ground (arith, more), ground (arith, more)), short),
            ((ground (arith, more), refl), made),
          )
      | inr done ↦ rw done (ground (arith, done, le), tt, tt)
    ]

-- From a range that is no range, or a span of no day, there are no windows; otherwise they have the days of
-- the range in order, each once, and none is longer than the span.
pub change_windows_lem :
    (start end span : ℕ)
    → start ≤ end
    → 1 ≤ span
    → (ws : List DateWindow) × (change_windows start end span ≡ some ws)
      × Consecutive start (end + 1) ws
      × All (IsShort span) ws
      × All IsChangeWindow ws
unfolding change_windows
change_windows_lem start end span le pos =
    let (f, short, made) =
      windows_from-Consecutive (end + 1 - start) span start end pos (omega arith)
        (omega (arith, le)) in
    (windows_from (end + 1 - start) span start end, ground (arith, le, pos), f, short, made)

pub split_change_window-Consecutive :
    (w : DateWindow) → w.start < w.end → Consecutive w.start (w.end + 1) (split_change_window w)
unfolding split_change_window halves change_window
split_change_window-Consecutive w lt =
    rw two_days (refl, omega (arith, lt), (refl, omega (arith, lt), refl))
  where
    two_days : ltb (w.end - w.start + 1) 2 ≡ false
    two_days = ground (arith, lt)
