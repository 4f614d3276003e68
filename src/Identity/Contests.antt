-- ===== src/Identity/Contests.antt =====
-- When the renames of a batch of backlogg/shared/identity.py are ready: the slugs that no row and no other
-- entry takes.
use backlogg.Prelude.{
  Bool, true, false, ◌&&◌, String, str_eq, List, [], ◌∷◌, Option, none, some, ◌==◌, ◌≡◌, ◌≤◌, refl,
  ap, sym, ◌∙◌, arith, Bool-cases, inl, inr, any, find, All, is_some, find_passes,
}
use text.Mathlib.TextEquality.{eq_iff}
use backlogg.Prelude.Counts.{count}
use backlogg.Prelude.Rows.{HasUniqueIds, All-of_found, All-of_find}
use backlogg.Catalog.{CatalogRow}
use backlogg.Identity.{LinkedRow, slug_for, owned_by, contested, is_safe}
use backlogg.Identity.Owners.{HasUniqueSlugs, Lands, find-slug, any-find}
use backlogg.Identity.Renames.{HasUniqueTargets, IsReady}
use backlogg.Identity.Joins.{HasUniqueKeys, Joined}

module _ (slug : String) where
  count_slug :
      (k : String) (wanted : List (String × String))
      → slug_for k wanted ≡ some slug
      → 1 ≤ count (λ p. str_eq p.1 slug) wanted
  unfolding slug_for count
  count_slug k [] e = ground arith
  count_slug k ((k', s) ∷ wanted) e = ground (arith, e, eq_iff s slug, count_slug k wanted)

  -- Two keys with one slug contest it.
  two_slugs :
      (k k' : String) (wanted : List (String × String))
      → str_eq k' k ≡ false
      → slug_for k wanted ≡ some slug
      → slug_for k' wanted ≡ some slug
      → 2 ≤ count (λ p. str_eq p.1 slug) wanted
  unfolding slug_for count
  two_slugs k k' [] ne e e' = ground arith
  two_slugs k k' ((x, s) ∷ wanted) ne e e' = ground (
    arith,
    ne,
    e,
    e',
    eq_iff s slug,
    eq_iff x k,
    eq_iff x k',
    eq_iff k' k,
    count_slug k wanted,
    count_slug k' wanted,
    two_slugs k k' wanted ne,
  )

module _ (wanted : List (String × String)) (rows : List CatalogRow) where
  abbrev safe : LinkedRow → Bool
  safe = is_safe wanted rows

  no_contest :
      (a : LinkedRow) (more : List LinkedRow)
      → Joined wanted rows a
      → contested wanted a.target ≡ false
      → any (λ b. str_eq b.external_id a.external_id) more ≡ false
      → All (Joined wanted rows) more
      → any (λ b. safe b && str_eq b.target a.target) more ≡ false
  unfolding any contested
  no_contest a [] j free apart h = refl
  no_contest a (b ∷ more) j free apart h = elim (Bool-cases (str_eq b.target a.target)) [
    | inl t ↦
        let same : b.target ≡ a.target = ground (arith, t, eq_iff b.target a.target) in
        absurd (
          ground (
            arith,
            free,
            two_slugs a.target a.external_id b.external_id wanted (ground (arith, apart)) j.0
                (h.0.0 ∙ ap some same),
          ))
    | inr f ↦ ground (arith, f, no_contest a more j free (ground (arith, apart)) h.1)
  ]

  pub is_safe-HasUniqueTargets :
      (as' : List LinkedRow)
      → HasUniqueKeys as'
      → All (Joined wanted rows) as'
      → HasUniqueTargets safe as'
  unfolding is_safe
  is_safe-HasUniqueTargets [] keys h = tt
  is_safe-HasUniqueTargets (a ∷ more) keys h = (
    λ t. no_contest a more h.0 (ground (arith, t)) keys.0 h.1,
    is_safe-HasUniqueTargets more keys.1 h.1,
  )

  module _ (unique : HasUniqueIds (λ r. r.id) rows) (slugs : HasUniqueSlugs rows) where
    -- The own slug of a joined row finds it.
    pub Joined-Lands : (a : LinkedRow) → Joined wanted rows a → Lands rows a.current a.item_id
    Joined-Lands a (wants, (r, e, same)) =
        let found = find-slug (λ x. x.id == a.item_id) rows r slugs e in
        (
          r,
          ap (λ s. find (λ x. str_eq x.slug s) rows) (sym same) ∙ found,
          ground (arith, find_passes (λ x. x.id == a.item_id) rows r e),
        )

    free_slug :
        (a : LinkedRow) (o : Option CatalogRow)
        → find (λ x. str_eq x.slug a.target) rows ≡ o
        → Joined wanted rows a
        → str_eq a.current a.target ≡ false
        → owned_by a.item_id o ≡ true
        → is_some o ≡ false
    free_slug a none e j ne own = refl
    free_slug a (some r) e (wants, (r', e', same)) ne own =
        let mine = find_passes (λ x. x.id == a.item_id) rows r' e' in
        let slug_of = find_passes (λ x. str_eq x.slug a.target) rows r e in
        let all =
          All-of_found (λ x. x.id) (λ x. x.slug ≡ a.target) (λ x. str_eq x.slug a.target) rows r
            unique e (ground (arith, slug_of, eq_iff r.slug a.target)) in
        let clash =
          All-of_find (λ x. (x.id == r.id) ≡ true → x.slug ≡ a.target) (λ x. x.id == a.item_id) rows
            r' all e' (ground (arith, mine, own)) in
        absurd (ground (arith, ne, clash, same, eq_iff a.current a.target))

    pub Joined-IsReady : (a : LinkedRow) → Joined wanted rows a → IsReady safe rows a
    unfolding is_safe
    Joined-IsReady a j = (
      (λ t. (
        any-find (λ r. r.id == a.item_id) rows ∙ ap is_some (j.1.1),
        any-find (λ r. str_eq r.slug a.target) rows
            ∙ free_slug a (find (λ r. str_eq r.slug a.target) rows) refl j (ground (arith, t))
                (ground (arith, t)),
      )),
      (λ f. Joined-Lands a j),
    )
