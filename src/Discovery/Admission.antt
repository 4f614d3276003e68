-- ===== src/Discovery/Admission.antt =====
-- What the release gate of backlogg/scheduler/discovery.py admits.
use backlogg.Prelude.{
  ℕ, true, false, not, ◌&&◌, ◌||◌, Option, none, some, String, str_eq, any, ◌≡◌, ◌↔◌, refl, arith,
  ◌+◌, ◌≤◌,
}
use backlogg.Discovery.Gate.{
  DateText, Detail, ReleaseGate, Reason, truthy, date_at, rejected_status, date_verdict,
  status_verdict, release_gate_verdict,
}

abbrev pub StatusAllowed : ReleaseGate → Option String → Type 0
StatusAllowed gate none = Unit
StatusAllowed gate (some s) =
    (not (str_eq s "") && any (λ r. str_eq r s) gate.rejected_statuses) ≡ false

-- The date is in the window around today.
abbrev pub InWindow : ReleaseGate → ℕ → DateText → Type 0
InWindow gate today DateText.no_date = ⊥
InWindow gate today DateText.unparseable = ⊥
InWindow gate today (DateText.day released) =
    (today ≤ released + gate.max_age_days) × (released ≤ today + gate.horizon_days)

pub record IsAdmissible (detail : Detail) (gate : ReleaseGate) (today : ℕ) : Type 0 where
  pub named : (truthy detail.title || truthy detail.name) ≡ true
  pub not_adult : detail.adult ≡ false
  pub not_video : detail.video ≡ false
  pub status_allowed : StatusAllowed gate detail.status
  pub in_window : InWindow gate today (date_at gate.date_key detail)
  pub described :
      (not gate.require_description || truthy detail.poster_path || truthy detail.overview) ≡ true

rejected_status-none :
    (gate : ReleaseGate) (s : Option String)
    → (rejected_status gate s ≡ none) ↔ StatusAllowed gate s
unfolding rejected_status
rejected_status-none gate none = (λ e. tt, λ h. refl)
rejected_status-none gate (some s) = (λ e. ground (arith, e), λ h. ground (arith, h))

date_verdict-none :
    (gate : ReleaseGate) (detail : Detail) (today : ℕ) (t : DateText)
    → (date_verdict gate detail today t ≡ none) ↔ (
        InWindow gate today t
        × ((not gate.require_description || truthy detail.poster_path || truthy detail.overview)
            ≡ true))
unfolding date_verdict
date_verdict-none gate detail today DateText.no_date =
    (λ e. absurd (ground (arith, e)), λ h. absurd h.0)
date_verdict-none gate detail today DateText.unparseable =
    (λ e. absurd (ground (arith, e)), λ h. absurd h.0)
date_verdict-none gate detail today (DateText.day released) = (
  λ e. ((ground (arith, e), ground (arith, e)), ground (arith, e)),
  λ h. ground (arith, h.0.0, h.0.1, h.1),
)

status_verdict-none :
    (gate : ReleaseGate) (detail : Detail) (today : ℕ) (reason : Option Reason)
    → (status_verdict gate detail today reason ≡ none)
      ↔ ((reason ≡ none) × (date_verdict gate detail today (date_at gate.date_key detail) ≡ none))
unfolding status_verdict
status_verdict-none gate detail today none = (λ e. (refl, e), λ h. h.1)
status_verdict-none gate detail today (some r) =
    (λ e. absurd (ground (arith, e)), λ h. absurd (ground (arith, h.0)))

-- The gate has no reason against a detail exactly when the detail has a title or a name, is neither adult
-- nor a video, has no rejected status, has a date that is not before today less the largest age and not after
-- today plus the horizon, and has a poster or an overview where the gate asks for one.
pub release_gate_verdict-IsAdmissible :
    (detail : Detail) (gate : ReleaseGate) (today : ℕ)
    → (release_gate_verdict detail gate today ≡ none) ↔ IsAdmissible detail gate today
unfolding release_gate_verdict
release_gate_verdict-IsAdmissible detail gate today =
    let status = rejected_status-none gate detail.status in
    let dated = date_verdict-none gate detail today (date_at gate.date_key detail) in
    let last = status_verdict-none gate detail today (rejected_status gate detail.status) in
    (
      λ e.
          let (allowed, on_time) = last.0 (ground (arith, e)) in
          record {
            named = ground (arith, e);
            not_adult = ground (arith, e);
            not_video = ground (arith, e);
            status_allowed = status.0 allowed;
            in_window = (dated.0 on_time).0;
            described = (dated.0 on_time).1;
          },
      λ a.
          let clear = last.1 (status.1 a.status_allowed, dated.1 (a.in_window, a.described)) in
          ground (arith, a.named, a.not_adult, a.not_video, clear),
    )
