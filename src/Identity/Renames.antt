-- ===== src/Identity/Renames.antt =====
-- Where the slugs of a batch lead after all renames of backlogg/shared/identity.py, in the order of the batch.
use backlogg.Prelude.{
  ℕ, Bool, true, false, ◌&&◌, String, str_eq, List, [], ◌∷◌, ◌==◌, ◌≡◌, ◌≢◌, refl, ap, arith,
  Bool-cases, inl, inr, any, filter, All,
}
use text.Mathlib.TextEquality.{eq_iff}
use mathlib.Core.Path.{subst}
use backlogg.Prelude.Rows.{HasUniqueIds}
use backlogg.Catalog.{CatalogRow}
use backlogg.Identity.{LinkedRow, set_slug, rename_all, resolved_slug}
use backlogg.Identity.Owners.{
  HasUniqueSlugs, set_slug-HasUniqueIds, set_slug-HasUniqueSlugs, Lands, Lands-has_slug, has_slug,
  set_slug-Lands, set_slug-Lands_here, set_slug-has_id, set_slug-has_slug,
}

module _ (safe : LinkedRow → Bool) where
  abbrev moves_to : String → LinkedRow → Bool
  moves_to slug a = safe a && str_eq a.target slug

  -- No two renames take one slug.
  abbrev pub HasUniqueTargets : List LinkedRow → Type 0
  HasUniqueTargets [] = Unit
  HasUniqueTargets (a ∷ more) =
      (safe a ≡ true → any (moves_to a.target) more ≡ false) × HasUniqueTargets more

  -- A rename finds its row, and its slug is free; an entry that is not renamed has its own slug.
  abbrev pub IsReady : List CatalogRow → LinkedRow → Type 0
  IsReady rows a =
      (safe a ≡ true
        → (any (λ r. r.id == a.item_id) rows ≡ true) × (has_slug a.target rows ≡ false))
      × (safe a ≡ false → Lands rows a.current a.item_id)

  abbrev pub LandsResolved : List CatalogRow → LinkedRow → Type 0
  LandsResolved rows a = Lands rows (resolved_slug safe a).1 a.item_id

  rename_all-Lands :
      (as' : List LinkedRow) (rows : List CatalogRow) (s : String) (i : ℕ)
      → any (λ a. a.item_id == i) as' ≡ false
      → any (moves_to s) as' ≡ false
      → Lands rows s i
      → Lands (rename_all (filter safe as') rows) s i
  unfolding any filter rename_all
  rename_all-Lands [] rows s i other free h = h
  rename_all-Lands (a ∷ more) rows s i other free h = elim (Bool-cases (safe a)) [
    | inl t ↦ rw t (
        rename_all-Lands more (set_slug a.item_id a.target rows) s i (ground (arith, other))
          (ground (arith, free))
          (set_slug-Lands a.item_id a.target rows s i
            (λ e. absurd (ground (arith, t, free, eq_iff a.target s)))
            (λ e. absurd (ground (arith, other))) h))
    | inr f ↦ rw f (rename_all-Lands more rows s i (ground (arith, other)) (ground (arith, free)) h)
  ]

  module _ (a : LinkedRow) (rows : List CatalogRow) (free : has_slug a.target rows ≡ false) where
    abbrev renamed : List CatalogRow
    renamed = set_slug a.item_id a.target rows

    renamed-IsReady :
        (b : LinkedRow)
        → b.item_id ≢ a.item_id
        → moves_to a.target b ≡ false
        → IsReady rows b
        → IsReady renamed b
    renamed-IsReady b apart other (moves, keeps) = (
      (λ t.
          let (here, empty) = moves t in
          (
            ground (arith, here, set_slug-has_id a.item_id a.target rows b.item_id),
            set_slug-has_slug a.item_id a.target rows b.target
                (λ e. absurd (ground (arith, t, other, eq_iff b.target a.target))) empty,
          )),
      (λ f.
          set_slug-Lands a.item_id a.target rows b.current b.item_id
            (λ e. absurd (
              ground (
                arith,
                free,
                ap (λ s. has_slug s rows) e,
                Lands-has_slug rows b.current b.item_id (keeps f),
              )))
            apart (keeps f)),
    )

    all_renamed-IsReady :
        (more : List LinkedRow)
        → any (λ b. b.item_id == a.item_id) more ≡ false
        → any (moves_to a.target) more ≡ false
        → All (IsReady rows) more
        → All (IsReady renamed) more
    unfolding any
    all_renamed-IsReady [] apart other h = tt
    all_renamed-IsReady (b ∷ more) apart other h = (
      renamed-IsReady b (λ e. absurd (ground (arith, apart))) (ground (arith, other)) h.0,
      all_renamed-IsReady more (ground (arith, apart)) (ground (arith, other)) h.1,
    )

  no_moves :
      (rows : List CatalogRow) (s : String) (more : List LinkedRow)
      → has_slug s rows ≡ true
      → All (IsReady rows) more
      → any (moves_to s) more ≡ false
  unfolding any
  no_moves rows s [] there h = refl
  no_moves rows s (b ∷ more) there h = elim (Bool-cases (safe b)) [
    | inl t ↦ ground (
      arith,
      t,
      there,
      (h.0.0 t).1,
      ap (λ x. has_slug x rows),
      eq_iff b.target s,
      no_moves rows s more there h.1,
    )
    | inr f ↦ ground (arith, f, no_moves rows s more there h.1)
  ]

  rename_all-step :
      (a : LinkedRow) (more : List LinkedRow) (rows : List CatalogRow)
      → safe a ≡ true
      → rename_all (filter safe more) (set_slug a.item_id a.target rows)
        ≡ rename_all (filter safe (a ∷ more)) rows
  unfolding filter rename_all
  rename_all-step a more rows t = rw t refl

  rename_all-skip :
      (a : LinkedRow) (more : List LinkedRow) (rows : List CatalogRow)
      → safe a ≡ false
      → rename_all (filter safe more) rows ≡ rename_all (filter safe (a ∷ more)) rows
  unfolding filter
  rename_all-skip a more rows f = rw f refl

  -- After the renames of a batch, the slug resolved for each of its entries finds that entry's row.
  pub rename_all-LandsResolved :
      (as' : List LinkedRow) (rows : List CatalogRow)
      → HasUniqueIds (λ a. a.item_id) as'
      → HasUniqueTargets as'
      → All (IsReady rows) as'
      → All (LandsResolved (rename_all (filter safe as') rows)) as'
  rename_all-LandsResolved [] rows ids targets ready = tt
  rename_all-LandsResolved (a ∷ more) rows ids targets ready =
      let lands = λ (rs : List CatalogRow). All (LandsResolved rs) (a ∷ more) in
      elim (Bool-cases (safe a)) [
        | inl t ↦
            let rows' = set_slug a.item_id a.target rows in
            let (here, free) = ready.0.0 t in
            subst lands (rename_all-step a more rows t) (
              rw t (
                  rename_all-Lands more rows' a.target a.item_id ids.0 (targets.0 t)
                    (set_slug-Lands_here a.item_id a.target rows here free)),
              rename_all-LandsResolved more rows' ids.1 targets.1
                  (all_renamed-IsReady a rows free more ids.0 (targets.0 t) ready.1),
            )
        | inr f ↦
            let own = ready.0.1 f in
            let there = Lands-has_slug rows a.current a.item_id own in
            subst lands (rename_all-skip a more rows f) (
              rw f (
                  rename_all-Lands more rows a.current a.item_id ids.0
                    (no_moves rows a.current more there ready.1) own),
              rename_all-LandsResolved more rows ids.1 targets.1 ready.1,
            )
      ]

  pub rename_all-HasUniqueSlugs :
      (as' : List LinkedRow) (rows : List CatalogRow)
      → HasUniqueIds (λ a. a.item_id) as'
      → HasUniqueTargets as'
      → All (IsReady rows) as'
      → HasUniqueIds (λ r. r.id) rows
      → HasUniqueSlugs rows
      → HasUniqueIds (λ r. r.id) (rename_all (filter safe as') rows)
        × HasUniqueSlugs (rename_all (filter safe as') rows)
  unfolding filter rename_all
  rename_all-HasUniqueSlugs [] rows ids targets ready own slugs = (own, slugs)
  rename_all-HasUniqueSlugs (a ∷ more) rows ids targets ready own slugs =
      elim (Bool-cases (safe a)) [
        | inl t ↦
            let free = (ready.0.0 t).1 in
            rw t (
              rename_all-HasUniqueSlugs more (set_slug a.item_id a.target rows) ids.1 targets.1
                (all_renamed-IsReady a rows free more ids.0 (targets.0 t) ready.1)
                (set_slug-HasUniqueIds a.item_id a.target rows own)
                (set_slug-HasUniqueSlugs a.item_id a.target rows own slugs free))
        | inr f ↦ rw f (rename_all-HasUniqueSlugs more rows ids.1 targets.1 ready.1 own slugs)
      ]
