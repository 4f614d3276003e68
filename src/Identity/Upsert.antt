-- ===== src/Identity/Upsert.antt =====
-- A sync of a linked film writes to the row that it is linked to: upsert_movie of backlogg/movies/repository.py
-- after the resolution of backlogg/shared/identity.py.
use backlogg.Prelude.{
  ℕ, Bool, true, false, not, ◌&&◌, String, str_eq, List, [], ◌∷◌, map, Option, none, some, ◌==◌,
  ◌≡◌, refl, ap, ap₂, ◌∙◌, arith, Bool-cases, inl, inr, find, filter, update_where, find_passes,
}
use text.Mathlib.TextEquality.{eq_iff}
use backlogg.Prelude.Rows.{HasUniqueIds, All-of_found, All-of_find, find-update}
use backlogg.Catalog.{
  Value, GenreData, CatalogRow, Catalog, synced_column, get_by_slug, write_row, link_genres,
  is_empty, sync_genres, upsert_movie, has_field,
}
use backlogg.Identity.{
  ExternalId, LinkedRow, slug_for, wanted_of, set_slug, rename_all, align_slugs_to_external_ids,
  resolve_item_slug, upsert_movie_by_id,
}
use backlogg.Identity.Owners.{HasUniqueSlugs, Lands, ids-set_slug}
use backlogg.Identity.Joins.{HasUniqueLinks}
use backlogg.Identity.Aligning.{
  link_of, aligned, align_slugs_to_external_ids-Lands, align_slugs_to_external_ids-HasUniqueSlugs,
}

abbrev ids_of : List CatalogRow → List ℕ
ids_of = map (λ r. r.id)

-- The row with the id has these columns and locks.
abbrev pub Holds : List CatalogRow → ℕ → List String → (String → Value) → Type 0
Holds rows i locked column =
    (r : CatalogRow) × (find (λ x. x.id == i) rows ≡ some r)
    × (r.locked_fields ≡ locked)
    × (r.column ≡ column)

-- The ids stay, and so does what each row holds.
abbrev Keeps : List CatalogRow → List CatalogRow → Type 0
Keeps rows rows' =
    (ids_of rows' ≡ ids_of rows)
    × ((i : ℕ) (locked : List String) (column : String → Value)
        → Holds rows i locked column
        → Holds rows' i locked column)

Keeps-trans : (a b c : List CatalogRow) → Keeps a b → Keeps b c → Keeps a c
Keeps-trans a b c (ids, holds) (ids', holds') =
    (ids' ∙ ids, λ i locked column h. holds' i locked column (holds i locked column h))

module _ (p : CatalogRow → Bool) (f : CatalogRow → CatalogRow)
    (same_id : (r : CatalogRow) → (f r).id ≡ r.id) where
  ids-update : (rows : List CatalogRow) → ids_of (update_where p f rows) ≡ ids_of rows
  unfolding update_where
  ids-update [] = refl
  ids-update (x ∷ rows) = ground (arith, same_id x, ids-update rows)

  Holds-update :
      ((r : CatalogRow) → (f r).locked_fields ≡ r.locked_fields)
      → ((r : CatalogRow) → (f r).column ≡ r.column)
      → (rows : List CatalogRow) (i : ℕ) (locked : List String) (column : String → Value)
      → Holds rows i locked column
      → Holds (update_where p f rows) i locked column
  unfolding find update_where
  Holds-update same_locks same_column [] i locked column (r, e, l, c) = absurd (ground (arith, e))
  Holds-update same_locks same_column (x ∷ rows) i locked column (r, e, l, c) =
      elim (Bool-cases (x.id == i)) [
        | inr h ↦
            let (r', e', l', c') =
              Holds-update same_locks same_column rows i locked column
                (r, ground (arith, h, e), l, c) in
            (r', ground (arith, h, e', same_id x), l', c')
        | inl h ↦
            let same : x ≡ r = ground (arith, h, e) in
            let locks = ap (λ y. y.locked_fields) same ∙ l in
            let columns = ap (λ y. y.column) same ∙ c in
            elim (Bool-cases (p x)) [
              | inl t ↦ (
                f x,
                ground (arith, t, h, same_id x),
                same_locks x ∙ locks,
                same_column x ∙ columns,
              )
              | inr t ↦ (x, ground (arith, t, h), locks, columns)
            ]
      ]

rename_all-Keeps :
    (as' : List LinkedRow) (rows : List CatalogRow) → Keeps rows (rename_all as' rows)
unfolding rename_all set_slug
rename_all-Keeps [] rows = (refl, λ i locked column h. h)
rename_all-Keeps (a ∷ more) rows =
    let rename = λ (r : CatalogRow). record r { slug = a.target } in
    let mine = λ (r : CatalogRow). r.id == a.item_id in
    Keeps-trans rows (set_slug a.item_id a.target rows)
      (rename_all more (set_slug a.item_id a.target rows))
      (
        ids-set_slug a.item_id a.target rows,
        Holds-update mine rename (λ r. refl) (λ r. refl) (λ r. refl) rows,
      )
      (rename_all-Keeps more (set_slug a.item_id a.target rows))

aligned-Keeps :
    (item_type source : String) (proposed : List (String × String)) (links : List ExternalId)
    (integrity_error : Bool) (rows : List CatalogRow)
    → Keeps rows (aligned item_type source proposed links integrity_error rows).1
unfolding align_slugs_to_external_ids
aligned-Keeps item_type source proposed links integrity_error rows =
    elim (Bool-cases integrity_error) [
      | inl t ↦ rw t (refl, λ i locked column h. h)
      | inr f ↦ rw f (rename_all-Keeps _ rows)
    ]

sync_genres-Keeps :
    (o : Option CatalogRow) (genres_data : List GenreData) (c : Catalog)
    → Keeps c.rows.rows (sync_genres o genres_data c).rows.rows
unfolding sync_genres link_genres
sync_genres-Keeps none genres_data c = (refl, λ i locked column h. h)
sync_genres-Keeps (some r) genres_data c =
    elim (Bool-cases (not (is_empty genres_data) && not (has_field "genres" r.locked_fields))) [
      | inl t ↦ rw t (
        ids-update _ _ (λ x. refl) c.rows.rows,
        Holds-update _ _ (λ x. refl) (λ x. refl) (λ x. refl) c.rows.rows,
      )
      | inr f ↦ rw f (refl, λ i locked column h. h)
    ]

module _ (slug : String) (given : List (String × Value)) where
  -- The upsert by slug updates the columns of the row with this id.
  Wrote : List CatalogRow → List CatalogRow → ℕ → Type 0
  Wrote rows rows' i =
      (ids_of rows' ≡ ids_of rows)
      × ((locked : List String) (column : String → Value)
          → Holds rows i locked column
          → Holds rows' i locked (synced_column locked given column))

  write_row-Wrote :
      (o : Option CatalogRow) (c : Catalog) (i : ℕ)
      → get_by_slug slug c ≡ o
      → HasUniqueIds (λ r. r.id) c.rows.rows
      → Lands c.rows.rows slug i
      → Wrote c.rows.rows (write_row o slug given c).rows.rows i
  unfolding Wrote write_row get_by_slug
  write_row-Wrote none c i eo unique (r, e, same) = absurd (ground (arith, eo, e))
  write_row-Wrote (some old) c i eo unique (r, e, same) =
      let by_slug = λ (x : CatalogRow). str_eq x.slug slug in
      let write =
        λ (x : CatalogRow). record x { column = synced_column x.locked_fields given x.column } in
      (
        ids-update by_slug write (λ x. refl) c.rows.rows,
        λ locked column (r', e', l, k).
            let own = find_passes (λ x. x.id == i) c.rows.rows r' e' in
            let everywhere =
              All-of_found (λ x. x.id) (λ x. by_slug x ≡ true) by_slug c.rows.rows r unique e
                (find_passes by_slug c.rows.rows r e) in
            let hit =
              All-of_find (λ x. (x.id == r.id) ≡ true → by_slug x ≡ true) (λ x. x.id == i)
                c.rows.rows r' everywhere e' (ground (arith, own, same)) in
            (
              write r',
              find-update (λ x. x.id == i) by_slug write c.rows.rows r' (λ y. refl) e' hit,
              l,
              ap₂ (λ a b. synced_column a given b) l k,
            ),
      )

  upsert_movie-Wrote :
      (genres_data : List GenreData) (c : Catalog) (i : ℕ)
      → HasUniqueIds (λ r. r.id) c.rows.rows
      → Lands c.rows.rows slug i
      → Wrote c.rows.rows (upsert_movie slug given genres_data c).rows.rows i
  unfolding Wrote upsert_movie
  upsert_movie-Wrote genres_data c i unique lands =
      let c' = write_row (get_by_slug slug c) slug given c in
      let (ids, holds) = write_row-Wrote (get_by_slug slug c) c i refl unique lands in
      let (ids', holds') = sync_genres-Keeps (get_by_slug slug c') genres_data c' in
      (
        ids' ∙ ids,
        λ locked column h.
            holds' i locked (synced_column locked given column) (holds locked column h),
      )

-- The sync of a film with an external id that is linked to a row updates that row and adds none: the ids
-- of the table stay, and the row with the link's id gets the payload's columns, its locked ones kept,
-- whatever the slug that the payload proposes, who has that slug, and also when another writer takes it.
pub upsert_movie_by_id-Holds :
    (x slug : String) (given : List (String × Value)) (genres_data : List GenreData)
    (links : List ExternalId) (integrity_error : Bool) (c : Catalog) (l : ExternalId)
    (r : CatalogRow)
    → str_eq x "" ≡ false
    → str_eq slug "" ≡ false
    → HasUniqueIds (λ r. r.id) c.rows.rows
    → HasUniqueSlugs c.rows.rows
    → HasUniqueLinks links
    → find (link_of "MOVIE" "TMDB" x) links ≡ some l
    → find (λ y. y.id == l.item_id) c.rows.rows ≡ some r
    → (let c' = upsert_movie_by_id (some x) slug given genres_data links integrity_error c in
        (map (λ r. r.id) c'.rows.rows ≡ map (λ r. r.id) c.rows.rows)
        × Holds c'.rows.rows l.item_id r.locked_fields
            (synced_column r.locked_fields given r.column))
unfolding upsert_movie_by_id resolve_item_slug slug_for wanted_of filter Wrote
upsert_movie_by_id-Holds x slug given genres_data links integrity_error c l r named_x named_slug
      unique slugs links_unique el er =
    let batch = (x, slug) ∷ [] in
    let rows' = (aligned "MOVIE" "TMDB" batch links integrity_error c.rows.rows).1 in
    let (unique', slugs') =
      align_slugs_to_external_ids-HasUniqueSlugs "MOVIE" "TMDB" batch links integrity_error
        c.rows.rows unique slugs links_unique in
    let (s, es, lands) =
      align_slugs_to_external_ids-Lands "MOVIE" "TMDB" batch links integrity_error c.rows.rows x
        slug l r unique slugs links_unique el er
        (ground (arith, named_x, named_slug, eq_iff x x)) in
    let (ids, holds) = aligned-Keeps "MOVIE" "TMDB" batch links integrity_error c.rows.rows in
    let (ids', holds') =
      upsert_movie-Wrote s given genres_data (record c { rows = record (c.rows) { rows = rows' } })
        l.item_id unique' lands in
    rw (named_x, named_slug, es)
      (
        ids' ∙ ids,
        holds' r.locked_fields r.column
            (holds l.item_id r.locked_fields r.column (r, er, refl, refl)),
      )
