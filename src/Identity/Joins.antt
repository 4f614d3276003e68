-- ===== src/Identity/Joins.antt =====
-- The linked rows of a batch, as backlogg/shared/identity.py selects them.
use backlogg.Prelude.{
  ℕ, Bool, true, false, ◌&&◌, String, str_eq, List, [], ◌∷◌, Option, none, some, ◌==◌, ◌≡◌, refl,
  arith, Bool-cases, inl, inr, any, find, All,
}
use text.Mathlib.TextEquality.{eq_iff}
use backlogg.Prelude.Rows.{HasUniqueIds}
use backlogg.Catalog.{CatalogRow}
use backlogg.Identity.{ExternalId, LinkedRow, slug_for, join_row, of_source, linked_rows}

abbrev same_source : ExternalId → ExternalId → Bool
same_source l m = str_eq m.item_type l.item_type && str_eq m.source l.source

-- uq_external_id and uq_item_source
abbrev pub HasUniqueLinks : List ExternalId → Type 0
HasUniqueLinks [] = Unit
HasUniqueLinks (l ∷ ls) =
    (any (λ m. same_source l m && str_eq m.external_id l.external_id) ls ≡ false)
    × (any (λ m. same_source l m && (m.item_id == l.item_id)) ls ≡ false)
    × HasUniqueLinks ls

abbrev pub HasUniqueKeys : List LinkedRow → Type 0
HasUniqueKeys [] = Unit
HasUniqueKeys (a ∷ more) =
    (any (λ b. str_eq b.external_id a.external_id) more ≡ false) × HasUniqueKeys more

-- What a join has of the batch and of the table.
abbrev pub Joined : List (String × String) → List CatalogRow → LinkedRow → Type 0
Joined wanted rows a =
    (slug_for a.external_id wanted ≡ some a.target)
    × ((r : CatalogRow) × (find (λ x. x.id == a.item_id) rows ≡ some r) × (r.slug ≡ a.current))

module _ (l : ExternalId) where
  join_row-absent :
      (q : ℕ → String → Bool) (r : Option CatalogRow) (t : Option String) (rest : List LinkedRow)
      → q l.item_id l.external_id ≡ false
      → any (λ a. q a.item_id a.external_id) rest ≡ false
      → any (λ a. q a.item_id a.external_id) (join_row l r t rest) ≡ false
  unfolding join_row any
  join_row-absent q none t rest other h = h
  join_row-absent q (some r) none rest other h = h
  join_row-absent q (some r) (some t) rest other h = ground (arith, other, h)

  join_row_unique :
      (r : Option CatalogRow) (t : Option String) (rest : List LinkedRow)
      → any (λ a. a.item_id == l.item_id) rest ≡ false
      → any (λ a. str_eq a.external_id l.external_id) rest ≡ false
      → HasUniqueIds (λ a. a.item_id) rest
      → HasUniqueKeys rest
      → HasUniqueIds (λ a. a.item_id) (join_row l r t rest) × HasUniqueKeys (join_row l r t rest)
  unfolding join_row
  join_row_unique none t rest id key ids keys = (ids, keys)
  join_row_unique (some r) none rest id key ids keys = (ids, keys)
  join_row_unique (some r) (some t) rest id key ids keys = ((id, ids), (key, keys))

  module _ (wanted : List (String × String)) (rows : List CatalogRow) where
    join_row-Joined :
        (r : Option CatalogRow) (t : Option String) (rest : List LinkedRow)
        → find (λ x. x.id == l.item_id) rows ≡ r
        → slug_for l.external_id wanted ≡ t
        → All (Joined wanted rows) rest
        → All (Joined wanted rows) (join_row l r t rest)
    unfolding join_row
    join_row-Joined none t rest er et h = h
    join_row-Joined (some r) none rest er et h = h
    join_row-Joined (some r) (some t) rest er et h = ((et, (r, er, refl)), h)

module _ (item_type source : String) (wanted : List (String × String))
    (rows : List CatalogRow) where
  abbrev linked : List ExternalId → List LinkedRow
  linked = linked_rows item_type source wanted rows

  pub linked_rows-Joined : (ls : List ExternalId) → All (Joined wanted rows) (linked ls)
  unfolding linked_rows
  linked_rows-Joined [] = tt
  linked_rows-Joined (l ∷ ls) = elim (Bool-cases (of_source item_type source l)) [
    | inl t ↦ rw t (
        join_row-Joined l wanted rows (find (λ x. x.id == l.item_id) rows)
          (slug_for l.external_id wanted) (linked ls) refl refl (linked_rows-Joined ls))
    | inr f ↦ rw f (linked_rows-Joined ls)
  ]

  linked_rows-absent :
      (q : ℕ → String → Bool) (ls : List ExternalId)
      → any (λ m. of_source item_type source m && q m.item_id m.external_id) ls ≡ false
      → any (λ a. q a.item_id a.external_id) (linked ls) ≡ false
  unfolding linked_rows any
  linked_rows-absent q [] h = refl
  linked_rows-absent q (l ∷ ls) h = elim (Bool-cases (of_source item_type source l)) [
    | inl t ↦ rw t (
        join_row-absent l q (find (λ x. x.id == l.item_id) rows) (slug_for l.external_id wanted)
          (linked ls) (ground (arith, t, h)) (linked_rows-absent q ls (ground (arith, h))))
    | inr f ↦ rw f (linked_rows-absent q ls (ground (arith, h)))
  ]

  -- A link of the source is of the same source as any other.
  source-same :
      (l : ExternalId) (q : ℕ → String → Bool) (ls : List ExternalId)
      → of_source item_type source l ≡ true
      → any (λ m. same_source l m && q m.item_id m.external_id) ls ≡ false
      → any (λ m. of_source item_type source m && q m.item_id m.external_id) ls ≡ false
  unfolding any
  source-same l q [] t h = refl
  source-same l q (m ∷ ls) t h = ground (
    arith,
    t,
    h,
    eq_iff l.item_type item_type,
    eq_iff l.source source,
    eq_iff m.item_type item_type,
    eq_iff m.source source,
    eq_iff m.item_type l.item_type,
    eq_iff m.source l.source,
    source-same l q ls t,
  )

  pub linked_rows_unique :
      (ls : List ExternalId)
      → HasUniqueLinks ls
      → HasUniqueIds (λ a. a.item_id) (linked ls) × HasUniqueKeys (linked ls)
  unfolding linked_rows
  linked_rows_unique [] h = (tt, tt)
  linked_rows_unique (l ∷ ls) (key, id, h) =
      let (ids, keys) = linked_rows_unique ls h in
      elim (Bool-cases (of_source item_type source l)) [
        | inl t ↦ rw t (
            join_row_unique l (find (λ x. x.id == l.item_id) rows) (slug_for l.external_id wanted)
              (linked ls)
              (linked_rows-absent (λ i x. i == l.item_id) ls
                (source-same l (λ i x. i == l.item_id) ls t id))
              (linked_rows-absent (λ i x. str_eq x l.external_id) ls
                (source-same l (λ i x. str_eq x l.external_id) ls t key))
              ids keys)
        | inr f ↦ rw f (ids, keys)
      ]
