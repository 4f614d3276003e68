-- ===== src/Seeding/Outage.antt =====
-- A fetch that raises costs its target of backlogg/scheduler/repository.py nothing.
use backlogg.Prelude.{
  ℕ, Bool, false, ◌&&◌, ◌||◌, List, [], ◌∷◌, ◌++◌, String, str_eq, any, find, update_where, ◌≡◌,
  refl, ap, ◌∙◌, arith, length,
}
use text.Mathlib.TextEquality.{eq_iff}
use backlogg.Writer.Chunks.{in_chunks_inv}
use backlogg.Discovery.Seen.{has-append}
use backlogg.Seeding.{
  SeedTarget, SeedSpec, in_list, of_type, SeedFetched, failed, absent, got, SeedState, SeedPass,
  seed_one, flush_seed, new_pass, mark_seed_targets_attempted, mark_seed_targets_unreachable,
  stamp_seed_outcomes, hydrate_slice, read_seed_work_list, sync_tmdb_type,
}

-- The row of a target.
abbrev pub named : String → String → String → SeedTarget → Bool
named item_type source x t = of_type item_type source t && str_eq t.external_id x

module _ (item_type source item_type' source' x : String) (now : ℕ) where
  attempted-named :
      (ids : List String) (ts : List SeedTarget)
      → in_list ids x ≡ false
      → find (named item_type' source' x) (mark_seed_targets_attempted item_type source ids now ts)
        ≡ find (named item_type' source' x) ts
  unfolding find update_where mark_seed_targets_attempted
  attempted-named ids [] h = refl
  attempted-named ids (t ∷ ts) h = ground (arith, h, eq_iff t.external_id x, attempted-named ids ts)

  unreachable-named :
      (ids : List String) (ts : List SeedTarget)
      → in_list ids x ≡ false
      → find
          (named item_type' source' x)
          (mark_seed_targets_unreachable item_type source ids now ts)
        ≡ find (named item_type' source' x) ts
  unfolding find update_where mark_seed_targets_unreachable
  unreachable-named ids [] h = refl
  unreachable-named ids (t ∷ ts) h =
      ground (arith, h, eq_iff t.external_id x, unreachable-named ids ts)

module _ {S P Q : Type 0} (spec : SeedSpec S P Q) where
  open spec use {path, linked, stale, item_type, source, max_attempts, batch_size, size}

  abbrev Untold : String → SeedPass S P Q → Type 0
  Untold x p = (in_list p.resolved x || in_list p.gone x) ≡ false

  seed_one-Untold :
      (pending : List String) (x id : String) (f : SeedFetched P Q) (p : SeedPass S P Q)
      → (id ≡ x → f ≡ failed)
      → Untold x p
      → Untold x (seed_one spec pending id f p)
  unfolding seed_one
  seed_one-Untold pending x id failed p h u = u
  seed_one-Untold pending x id absent p h u =
      ground (arith, h, u, eq_iff id x, has-append x id p.gone)
  seed_one-Untold pending x id (got item) p h u =
      ground (arith, h, u, eq_iff id x, has-append x id p.resolved)

  hydrate_slice-Untold :
      (fetch : String → SeedFetched P Q) (pending work : List String) (s : S) (x : String)
      → fetch x ≡ failed
      → Untold x (hydrate_slice spec fetch pending work s)
  unfolding hydrate_slice any
  hydrate_slice-Untold fetch pending work s x down =
      in_chunks_inv batch_size (λ id. seed_one spec pending id (fetch id)) (flush_seed spec)
        (λ rest p. Untold x p)
        (λ id rest p u. seed_one-Untold pending x id (fetch id) p (λ e. ap fetch e ∙ down) u)
        (λ rest p u. u) (length work) work (new_pass spec s) (omega arith) refl

  -- A slice leaves the row of a target whose fetch raises as it was, whatever else happens in the slice.
  pub sync_tmdb_type-named :
      (fetch : String → SeedFetched P Q) (now : ℕ) (read_raises stamp_raises recount_raises : Bool)
      (st : SeedState S) (item_type' source' x : String)
      → fetch x ≡ failed
      → (let st' = (sync_tmdb_type spec fetch now read_raises stamp_raises recount_raises st).0 in
          find (named item_type' source' x) st'.targets
          ≡ find (named item_type' source' x) st.targets)
  unfolding sync_tmdb_type stamp_seed_outcomes
  sync_tmdb_type-named fetch now read_raises stamp_raises recount_raises st item_type' source' x
        down =
      let (pending, refresh) = read_seed_work_list spec st in
      let p = hydrate_slice spec fetch pending (pending ++ refresh) st.session in
      let untold = hydrate_slice-Untold fetch pending (pending ++ refresh) st.session x down in
      let attempted =
        attempted-named item_type source item_type' source' x now p.resolved st.targets
          (ground (arith, untold)) in
      let unreachable =
        unreachable-named item_type source item_type' source' x now p.gone
          (mark_seed_targets_attempted item_type source p.resolved now st.targets)
          (ground (arith, untold)) in
      ground (arith, attempted, unreachable)
