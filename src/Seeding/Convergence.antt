-- ===== src/Seeding/Convergence.antt =====
-- The nightly slices of backlogg/scheduler/jobs.py work the target list off.
use backlogg.Prelude.{
  ℕ, zero, suc, Bool, true, false, ◌&&◌, ◌||◌, List, [], ◌∷◌, ◌++◌, String, str_eq, any, ◌≡◌, ◌≢◌,
  refl, ◌∙◌, arith, ◌+◌, ◌*◌, ◌≤◌, ◌<◌, length, Bool-cases, inl, inr,
}
use backlogg.Prelude.Counts.{count}
use text.Mathlib.TextEquality.{eq_iff}
use backlogg.Writer.Chunks.{in_chunks_inv}
use backlogg.Discovery.Seen.{has-append}
use backlogg.Seeding.{
  SeedTarget, SeedSpec, in_list, SeedFetched, failed, absent, got, SeedState, SeedPass, unlinked,
  workable, count_seed_target_progress, get_pending_seed_targets, seed_one, flush_seed, new_pass,
  stamp_seed_outcomes, hydrate_slice, read_seed_work_list, sync_tmdb_type,
}
use backlogg.Seeding.Measure.{
  all_passes, all_passes-le, any-count, count-unlinked, some_pending, all_passes-stamped,
}

in_list-append :
    (ids more : List String) (x : String)
    → in_list (ids ++ more) x ≡ (in_list ids x || in_list more x)
unfolding any
in_list-append [] more x = refl
in_list-append (id ∷ ids) more x = ground (arith, in_list-append ids more x)

any_named :
    (w : SeedTarget → Bool) (f : String → Bool) (x : String) (ts : List SeedTarget)
    → f x ≡ true
    → any (λ t. w t && str_eq t.external_id x) ts ≡ true
    → any (λ t. w t && f t.external_id) ts ≡ true
unfolding any
any_named w f x [] fx h = ground (arith, h)
any_named w f x (t ∷ ts) fx h = ground (arith, h, fx, eq_iff t.external_id x, any_named w f x ts fx)

module _ {S P Q : Type 0} (spec : SeedSpec S P Q) where
  open spec use {path, linked, stale, item_type, source, max_attempts, batch_size, size}

  abbrev one : List String → String → SeedFetched P Q → SeedPass S P Q → SeedPass S P Q
  one = seed_one spec

  -- The id was answered, or is still to come.
  abbrev Told : String → List String → SeedPass S P Q → Type 0
  Told x rest p = (in_list rest x || in_list p.resolved x || in_list p.gone x) ≡ true

  seed_one-Told :
      (pending : List String) (x id : String) (rest : List String) (f : SeedFetched P Q)
      (p : SeedPass S P Q)
      → in_list pending x ≡ true
      → f ≢ failed
      → Told x (id ∷ rest) p
      → Told x rest (one pending id f p)
  unfolding seed_one any
  seed_one-Told pending x id rest failed p mine fine h = absurd (fine refl)
  seed_one-Told pending x id rest absent p mine fine h =
      ground (arith, mine, h, eq_iff id x, has-append x id p.gone)
  seed_one-Told pending x id rest (got item) p mine fine h =
      ground (arith, mine, h, eq_iff id x, has-append x id p.resolved)

  hydrate_slice-Told :
      (fetch : String → SeedFetched P Q) (pending work : List String) (s : S) (x : String)
      → ((id : String) → fetch id ≢ failed)
      → in_list pending x ≡ true
      → in_list work x ≡ true
      → (let p = hydrate_slice spec fetch pending work s in
          (in_list p.resolved x || in_list p.gone x) ≡ true)
  unfolding hydrate_slice any
  hydrate_slice-Told fetch pending work s x fine mine todo =
      in_chunks_inv batch_size (λ id. one pending id (fetch id)) (flush_seed spec) (Told x)
        (λ id rest p h. seed_one-Told pending x id rest (fetch id) p mine (fine id) h)
        (λ rest p h. h) (length work) work (new_pass spec s) (omega arith) (ground (arith, todo))

  -- A night whose stamping does not raise.
  abbrev pub night : (String → SeedFetched P Q) → ℕ → SeedState S → SeedState S
  night fetch now st = (sync_tmdb_type spec fetch now false false false st).0

  abbrev left : SeedState S → ℕ
  left st = all_passes linked item_type source max_attempts st.targets

  night-left :
      (fetch : String → SeedFetched P Q) (now : ℕ) (st : SeedState S)
      → 1 ≤ size
      → ((id : String) → fetch id ≢ failed)
      → any (workable linked item_type source max_attempts st.session) st.targets ≡ true
      → left (night fetch now st) < left st
  unfolding sync_tmdb_type read_seed_work_list stamp_seed_outcomes
  night-left fetch now st pos fine any_left =
      let can = workable linked item_type source max_attempts st.session in
      let pending = get_pending_seed_targets linked item_type source max_attempts st size in
      let refresh = (read_seed_work_list spec st).1 in
      let work = pending ++ refresh in
      let p = hydrate_slice spec fetch pending work st.session in
      let (no_more, fewer) =
        all_passes-stamped linked item_type source max_attempts st.session p.resolved p.gone now
          st.targets in
      let (x, here, found) =
        some_pending linked item_type source max_attempts st size pos any_left in
      let todo : in_list work x ≡ true = in_list-append pending refresh x ∙ ground (arith, here) in
      let told = hydrate_slice-Told fetch pending work st.session x fine here todo in
      fewer
        (any_named can (λ id. in_list p.resolved id || in_list p.gone id) x st.targets told found)

  -- The first n nights, each with its own answers and its own clock.
  pub nights : (ℕ → String → SeedFetched P Q) → (ℕ → ℕ) → ℕ → SeedState S → SeedState S
  nights fetches clock zero st = st
  nights fetches clock (suc n) st =
      nights (λ k. fetches (suc k)) (λ k. clock (suc k)) n (night (fetches 0) (clock 0) st)

  abbrev AreDone : SeedState S → Type 0
  AreDone st = count (workable linked item_type source max_attempts st.session) st.targets ≡ 0

  nights-AreDone :
      (fetches : ℕ → String → SeedFetched P Q) (clock : ℕ → ℕ) (n : ℕ) (st : SeedState S)
      → 1 ≤ size
      → ((k : ℕ) (id : String) → fetches k id ≢ failed)
      → left st ≤ n
      → (k : ℕ) × (k ≤ n) × AreDone (nights fetches clock k st)
  unfolding nights
  nights-AreDone fetches clock zero st pos fine le =
      elim (Bool-cases
        (any (workable linked item_type source max_attempts st.session) st.targets)) [
          | inr done ↦ (
            0,
            omega arith,
            any-count linked item_type source max_attempts st.session st.targets done,
          )
          | inl more ↦
              absurd (omega (arith, le, night-left (fetches 0) (clock 0) st pos (fine 0) more))
        ]
  nights-AreDone fetches clock (suc n) st pos fine le =
      elim (Bool-cases
        (any (workable linked item_type source max_attempts st.session) st.targets)) [
          | inr done ↦ (
            0,
            omega arith,
            any-count linked item_type source max_attempts st.session st.targets done,
          )
          | inl more ↦
              let (k, k_le, done) =
                nights-AreDone (λ k. fetches (suc k)) (λ k. clock (suc k)) n
                  (night (fetches 0) (clock 0) st) pos (λ k. fine (suc k))
                  (omega (arith, le, night-left (fetches 0) (clock 0) st pos (fine 0) more)) in
              (suc k, omega (arith, k_le), done)
        ]

  -- Where every fetch is answered and no stamping raises, nothing is pending after some number of nights that
  -- is no more than the targets times the passes that each has; and then each target without a live item is
  -- counted as gone or as unlinkable.
  pub nights-count_seed_target_progress :
      (fetches : ℕ → String → SeedFetched P Q) (clock : ℕ → ℕ) (st : SeedState S)
      → 1 ≤ size
      → ((k : ℕ) (id : String) → fetches k id ≢ failed)
      → (k : ℕ) × (k ≤ max_attempts * length st.targets)
        × (let st' = nights fetches clock k st in
            let progress = count_seed_target_progress linked item_type source max_attempts st' in
            (progress.pending ≡ 0)
            × (count (unlinked linked item_type source max_attempts st'.session) st'.targets
                ≡ progress.gone + progress.unlinkable))
  unfolding count_seed_target_progress
  nights-count_seed_target_progress fetches clock st pos fine =
      let (k, k_le, done) =
        nights-AreDone fetches clock (max_attempts * length st.targets) st pos fine
          (all_passes-le linked item_type source max_attempts st.targets) in
      let st' = nights fetches clock k st in
      (
        k,
        k_le,
        (
          done,
          omega (
            arith,
            done,
            count-unlinked linked item_type source max_attempts st'.session st'.targets,
          ),
        ),
      )
