-- ===== src/Seeding/Measure.antt =====
-- The passes that the targets of backlogg/scheduler/repository.py have left, and what stamping takes off them.
use backlogg.Prelude.{
  ℕ, zero, suc, Bool, true, false, not, ◌&&◌, ◌||◌, List, [], ◌∷◌, map, some, String, str_eq, any,
  filter, update_where, ◌≡◌, refl, sym, ◌∙◌, ◌⊎◌, arith, ◌+◌, ◌-◌, ◌*◌, ◌≤◌, ◌<◌, leb,
  if◌then◌else◌, length, Bool-cases, inl, inr,
}
use backlogg.Prelude.Counts.{count}
use text.Mathlib.TextEquality.{eq_iff}
use backlogg.Writer.Chunks.{take}
use backlogg.Seeding.{
  SeedTarget, is_some, in_list, of_type, retired, place, order_targets, mark_seed_targets_attempted,
  mark_seed_targets_unreachable, SeedState, unlinked, workable, get_pending_seed_targets,
}

any-place :
    (q : SeedTarget → Bool) (t : SeedTarget) (ts : List SeedTarget)
    → any q (place t ts) ≡ (q t || any q ts)
unfolding any place
any-place q t [] = refl
any-place q t (u ∷ us) = ground (arith, any-place q t us)

any-order_targets :
    (q : SeedTarget → Bool) (ts : List SeedTarget) → any q (order_targets ts) ≡ any q ts
unfolding any order_targets
any-order_targets q [] = refl
any-order_targets q (t ∷ ts) =
    ground (arith, any-place q t (order_targets ts), any-order_targets q ts)

any-filter :
    (p q : SeedTarget → Bool) (ts : List SeedTarget)
    → any q (filter p ts) ≡ any (λ t. p t && q t) ts
unfolding any filter
any-filter p q [] = refl
any-filter p q (t ∷ ts) = ground (arith, any-filter p q ts)

any_and_true : (p : SeedTarget → Bool) (ts : List SeedTarget) → any (λ t. p t && true) ts ≡ any p ts
unfolding any
any_and_true p [] = refl
any_and_true p (t ∷ ts) = ground (arith, any_and_true p ts)

-- The first of a slice.
head_pending :
    (ts : List SeedTarget) (size : ℕ)
    → 1 ≤ size
    → any (λ t. true) ts ≡ true
    → (x : String) × (in_list (map (λ t. t.external_id) (take size ts)) x ≡ true)
      × (any (λ t. str_eq t.external_id x) ts ≡ true)
unfolding any take
head_pending [] size pos h = absurd (ground (arith, h))
head_pending (t ∷ ts) zero pos h = absurd (omega (arith, pos))
head_pending (t ∷ ts) (suc n) pos h = (
  t.external_id,
  ground (arith, eq_iff t.external_id t.external_id),
  ground (arith, eq_iff t.external_id t.external_id),
)

module _ {S : Type 0} (linked : S → String → String → String → Bool) (item_type source : String)
    (max_attempts : ℕ) where
  -- The passes that a target still has before it is retired.
  unfoldable pub passes_left : SeedTarget → ℕ
  passes_left t =
      if of_type item_type source t && not (retired max_attempts t)
      then max_attempts - t.attempts
      else 0

  unfoldable pub all_passes : List SeedTarget → ℕ
  all_passes [] = 0
  all_passes (t ∷ ts) = passes_left t + all_passes ts

  pub all_passes-le : (ts : List SeedTarget) → all_passes ts ≤ max_attempts * length ts
  unfolding all_passes passes_left
  all_passes-le [] = omega arith
  all_passes-le (t ∷ ts) =
      let one : passes_left t ≤ max_attempts = ground arith in
      let more : max_attempts * suc (length ts) ≡ max_attempts + max_attempts * length ts =
        grind arith in
      omega (arith, one, more, all_passes-le ts)

  pub any-count :
      (s : S) (ts : List SeedTarget)
      → any (workable linked item_type source max_attempts s) ts ≡ false
      → count (workable linked item_type source max_attempts s) ts ≡ 0
  unfolding any count
  any-count s [] e = refl
  any-count s (t ∷ ts) e = ground (arith, e, any-count s ts)

  -- A target with no live item is pending, gone or out of passes.
  pub count-unlinked :
      (s : S) (ts : List SeedTarget)
      → count (unlinked linked item_type source max_attempts s) ts
        ≡ count (workable linked item_type source max_attempts s) ts
          + count
              (λ t. unlinked linked item_type source max_attempts s t && is_some t.unreachable_at)
              ts
          + count
              (λ t.
                unlinked linked item_type source max_attempts s t
                && not (is_some t.unreachable_at)
                && leb max_attempts t.attempts)
              ts
  unfolding count workable retired
  count-unlinked s [] = omega arith
  count-unlinked s (t ∷ ts) = ground (arith, count-unlinked s ts)

  -- A slice has something to do as long as there is a target to work on.
  pub some_pending :
      (st : SeedState S) (size : ℕ)
      → 1 ≤ size
      → any (workable linked item_type source max_attempts st.session) st.targets ≡ true
      → (x : String) × (in_list
            (get_pending_seed_targets linked item_type source max_attempts st size)
            x
          ≡ true)
        × (any
              (λ t.
                workable linked item_type source max_attempts st.session t
                && str_eq t.external_id x)
              st.targets
            ≡ true)
  unfolding get_pending_seed_targets
  some_pending st size pos h =
      let can = workable linked item_type source max_attempts st.session in
      let ordered = order_targets (filter can st.targets) in
      let same = λ (q : SeedTarget → Bool).
        any-order_targets q (filter can st.targets) ∙ any-filter can q st.targets in
      let (x, here, found) =
        head_pending ordered size pos (same (λ t. true) ∙ any_and_true can st.targets ∙ h) in
      (x, here, sym (same (λ t. str_eq t.external_id x)) ∙ found)

  module _ (s : S) (resolved gone : List String) (now : ℕ) where
    abbrev stamped : List SeedTarget → List SeedTarget
    stamped ts =
        mark_seed_targets_unreachable item_type source gone now
          (mark_seed_targets_attempted item_type source resolved now ts)

    abbrev answered : SeedTarget → Bool
    answered t = in_list resolved t.external_id || in_list gone t.external_id

    abbrev attempted_target : SeedTarget → SeedTarget
    attempted_target t =
        if of_type item_type source t && in_list resolved t.external_id
        then record t { attempts = t.attempts + 1; last_attempt_at = some now }
        else t

    abbrev stamped_target : SeedTarget → SeedTarget
    stamped_target t =
        let t' = attempted_target t in
        if of_type item_type source t' && in_list gone t'.external_id
        then record t' { unreachable_at = some now; last_attempt_at = some now }
        else t'

    -- A target with the same name that has no fewer attempts, and is gone if it was.
    passes_left-marked :
        (t t' : SeedTarget)
        → t'.item_type ≡ t.item_type
        → t'.source ≡ t.source
        → t'.external_id ≡ t.external_id
        → t.attempts ≤ t'.attempts
        → (is_some t.unreachable_at ≡ true → is_some t'.unreachable_at ≡ true)
        → (passes_left t' ≤ passes_left t)
          × (workable linked item_type source max_attempts s t ≡ true
              → (t.attempts < t'.attempts) ⊎ (is_some t'.unreachable_at ≡ true)
              → passes_left t' < passes_left t)
    unfolding passes_left workable unlinked retired
    passes_left-marked t t' ty so id more gone_too = (
      ground (arith, ty, so, id, more, gone_too),
      λ w h. ground (arith, ty, so, id, more, gone_too, w, h),
    )

    workable-of_type :
        (t : SeedTarget)
        → workable linked item_type source max_attempts s t ≡ true
        → of_type item_type source t ≡ true
    unfolding workable unlinked
    workable-of_type t h = ground (arith, h)

    stamped_target-marks :
        (t : SeedTarget)
        → (workable linked item_type source max_attempts s t && answered t) ≡ true
        → (t.attempts < (stamped_target t).attempts)
          ⊎ (is_some (stamped_target t).unreachable_at ≡ true)
    stamped_target-marks t h =
        let mine = workable-of_type t (ground (arith, h)) in
        elim (Bool-cases (in_list gone t.external_id)) [
          | inl g ↦ inr (ground (arith, g, mine))
          | inr n ↦ inl (ground (arith, n, mine, h))
        ]

    passes_left-stamped :
        (t : SeedTarget)
        → (passes_left (stamped_target t) ≤ passes_left t)
          × ((workable linked item_type source max_attempts s t && answered t) ≡ true
              → passes_left (stamped_target t) < passes_left t)
    passes_left-stamped t =
        let (no_more, fewer) =
          passes_left-marked t (stamped_target t) (ground arith) (ground arith) (ground arith)
            (ground arith) (λ h. ground (arith, h)) in
        (no_more, λ h. fewer (ground (arith, h)) (stamped_target-marks t h))

    -- Stamping takes no pass back, and takes one from a target that was answered.
    pub all_passes-stamped :
        (ts : List SeedTarget)
        → (all_passes (stamped ts) ≤ all_passes ts)
          × (any (λ t. workable linked item_type source max_attempts s t && answered t) ts ≡ true
              → all_passes (stamped ts) < all_passes ts)
    unfolding all_passes mark_seed_targets_attempted mark_seed_targets_unreachable update_where any
    all_passes-stamped [] = (omega arith, λ h. absurd (ground (arith, h)))
    all_passes-stamped (t ∷ ts) =
        let (one, one_fewer) = passes_left-stamped t in
        let (rest, rest_fewer) = all_passes-stamped ts in
        (
          omega (arith, one, rest),
          λ h. elim (Bool-cases (workable linked item_type source max_attempts s t && answered t)) [
            | inl here ↦ omega (arith, one_fewer here, rest)
            | inr not_here ↦ omega (arith, one, rest_fewer (rw not_here at h))
          ],
        )
