-- ===== src/Identity/Owners.antt =====
-- Which row a slug finds, before and after one rename of backlogg/shared/identity.py.
use backlogg.Prelude.{
  ℕ, Bool, true, false, String, str_eq, List, [], ◌∷◌, map, some, ◌==◌, ◌≡◌, ◌≢◌, refl, ap, arith,
  Bool-cases, inl, inr, is_some, any, find, update_where,
}
use text.Mathlib.TextEquality.{eq_iff}
use backlogg.Prelude.Rows.{HasUniqueIds, HasUniqueIds-update}
use backlogg.Catalog.{CatalogRow}
use backlogg.Identity.{set_slug}

-- The unique constraint on the slug.
abbrev pub HasUniqueSlugs : List CatalogRow → Type 0
HasUniqueSlugs [] = Unit
HasUniqueSlugs (r ∷ rs) = (any (λ x. str_eq x.slug r.slug) rs ≡ false) × HasUniqueSlugs rs

-- The slug finds the row with this id.
abbrev pub Lands : List CatalogRow → String → ℕ → Type 0
Lands rows slug i = (r : CatalogRow) × (find (λ x. str_eq x.slug slug) rows ≡ some r) × (r.id ≡ i)

abbrev pub has_slug : String → List CatalogRow → Bool
has_slug slug = any (λ r. str_eq r.slug slug)

has_slug_of_find :
    (p : CatalogRow → Bool) (rows : List CatalogRow) (r : CatalogRow)
    → find p rows ≡ some r
    → has_slug r.slug rows ≡ true
unfolding any find
has_slug_of_find p [] r e = ground arith
has_slug_of_find p (x ∷ rows) r e = ground (arith, eq_iff x.slug r.slug, has_slug_of_find p rows r)

-- A row found by any test is found by its own slug.
pub find-slug :
    (p : CatalogRow → Bool) (rows : List CatalogRow) (r : CatalogRow)
    → HasUniqueSlugs rows
    → find p rows ≡ some r
    → find (λ x. str_eq x.slug r.slug) rows ≡ some r
unfolding find
find-slug p [] r unique e = ground arith
find-slug p (x ∷ rows) r unique e = elim (Bool-cases (p x)) [
  | inl t ↦
      let same : x ≡ r = ground arith in
      ground (arith, same, ap (λ y. y.slug) same, eq_iff x.slug r.slug)
  | inr f ↦
      let later : find p rows ≡ some r = ground arith in
      let there = has_slug_of_find p rows r later in
      ground (
        arith,
        eq_iff x.slug r.slug,
        ap (λ s. has_slug s rows),
        unique.0,
        there,
        find-slug p rows r unique.1 later,
      )
]

pub any-find {ℓ} : {A : Type ℓ} (q : A → Bool) (xs : List A) → any q xs ≡ is_some (find q xs)
unfolding any find
any-find q [] = refl
any-find q (x ∷ xs) = ground (arith, any-find q xs)

pub Lands-has_slug :
    (rows : List CatalogRow) (s : String) (i : ℕ) → Lands rows s i → has_slug s rows ≡ true
unfolding any find
Lands-has_slug [] s i (r, e, same) = ground arith
Lands-has_slug (x ∷ rows) s i (r, e, same) = elim (Bool-cases (str_eq x.slug s)) [
  | inl h ↦ ground (arith, h)
  | inr h ↦ ground (arith, h, Lands-has_slug rows s i (r, ground (arith, h, e), same))
]

module _ (j : ℕ) (t : String) where
  pub set_slug-Lands :
      (rows : List CatalogRow) (s : String) (i : ℕ)
      → s ≢ t
      → i ≢ j
      → Lands rows s i
      → Lands (set_slug j t rows) s i
  unfolding find set_slug update_where
  set_slug-Lands [] s i ne apart (r, e, same) = absurd (ground arith)
  set_slug-Lands (x ∷ rows) s i ne apart (r, e, same) = elim (Bool-cases (str_eq x.slug s)) [
    | inl h ↦ (r, ground (arith, h, e, same, eq_iff x.slug s), same)
    | inr h ↦
        let (r', e', same') = set_slug-Lands rows s i ne apart (r, ground (arith, h, e), same) in
        (r', ground (arith, h, e', eq_iff t s), same')
  ]

  pub set_slug-Lands_here :
      (rows : List CatalogRow)
      → any (λ r. r.id == j) rows ≡ true
      → has_slug t rows ≡ false
      → Lands (set_slug j t rows) t j
  unfolding any find set_slug update_where
  set_slug-Lands_here [] here free = absurd (ground arith)
  set_slug-Lands_here (x ∷ rows) here free = elim (Bool-cases (x.id == j)) [
    | inl h ↦ (record x { slug = t }, ground (arith, h, eq_iff t t), ground (arith, h))
    | inr h ↦
        let (r, e, same) = set_slug-Lands_here rows (ground (arith, h)) (ground (arith, free)) in
        (r, ground (arith, h, e, free), same)
  ]

  pub set_slug-has_id :
      (rows : List CatalogRow) (i : ℕ)
      → any (λ r. r.id == i) (set_slug j t rows) ≡ any (λ r. r.id == i) rows
  unfolding any set_slug update_where
  set_slug-has_id [] i = refl
  set_slug-has_id (x ∷ rows) i = ground (arith, set_slug-has_id rows i)

  pub set_slug-has_slug :
      (rows : List CatalogRow) (s : String)
      → s ≢ t
      → has_slug s rows ≡ false
      → has_slug s (set_slug j t rows) ≡ false
  unfolding any set_slug update_where
  set_slug-has_slug [] s ne h = refl
  set_slug-has_slug (x ∷ rows) s ne h = ground (arith, h, eq_iff t s, set_slug-has_slug rows s ne)

  set_slug-other :
      (rows : List CatalogRow) → any (λ r. r.id == j) rows ≡ false → set_slug j t rows ≡ rows
  unfolding any set_slug update_where
  set_slug-other [] h = refl
  set_slug-other (x ∷ rows) h = ground (arith, h, set_slug-other rows)

  pub set_slug-HasUniqueSlugs :
      (rows : List CatalogRow)
      → HasUniqueIds (λ r. r.id) rows
      → HasUniqueSlugs rows
      → has_slug t rows ≡ false
      → HasUniqueSlugs (set_slug j t rows)
  unfolding any set_slug update_where
  set_slug-HasUniqueSlugs [] ids slugs free = tt
  set_slug-HasUniqueSlugs (x ∷ rows) ids slugs free = elim (Bool-cases (x.id == j)) [
    | inl h ↦
        let rest = set_slug-other rows (ground (arith, h, ids.0)) in
        rw (h, rest) (ground (arith, free), slugs.1)
    | inr h ↦ rw h (
      set_slug-has_slug rows x.slug (λ e. absurd (ground (arith, free, eq_iff x.slug t))) slugs.0,
      set_slug-HasUniqueSlugs rows ids.1 slugs.1 (ground (arith, free)),
    )
  ]

  pub ids-set_slug :
      (rows : List CatalogRow) → map (λ r. r.id) (set_slug j t rows) ≡ map (λ r. r.id) rows
  unfolding set_slug update_where
  ids-set_slug [] = refl
  ids-set_slug (x ∷ rows) = ground (arith, ids-set_slug rows)

  pub set_slug-HasUniqueIds :
      (rows : List CatalogRow)
      → HasUniqueIds (λ r. r.id) rows
      → HasUniqueIds (λ r. r.id) (set_slug j t rows)
  unfolding set_slug
  set_slug-HasUniqueIds rows =
      HasUniqueIds-update (λ r. r.id) (λ r. r.id == j) (λ r. record r { slug = t }) (λ r. refl) rows
