-- ===== src/Catalog/Locks.antt =====
-- What an admin has edited stays as it was through every sync: backlogg/admin/service.py and the upsert
-- of backlogg/movies/repository.py.
use backlogg.Prelude.{
  ℕ, true, false, not, ◌&&◌, String, str_eq, List, [], ◌∷◌, Option, none, some, inl, inr, ◌==◌, ◌≡◌,
  refl, ◌∙◌, arith, if◌then◌else◌, Bool-cases,
}
use backlogg.Prelude.Rows.{
  HasUniqueIds, IdsBelow, HasUniqueIds-append, HasUniqueIds-update, All-append, All-update, All-map,
  All-of_found, All-of_find, find-append, find-update_any,
}
use backlogg.Db.Tables.{insert_row}
use backlogg.Catalog.{
  is_empty, Value, GenreData, CatalogRow, Catalog, has_field, synced_column, get_by_slug, write_row,
  get_or_create_genres, link_genres, sync_genres, upsert_movie,
}

-- What is locked in a row is the same in another version of it.
pub record Keeps (r r' : CatalogRow) : Type 0 where
  pub locked : r'.locked_fields ≡ r.locked_fields
  pub columns : (k : String) → has_field k r.locked_fields ≡ true → r'.column k ≡ r.column k
  pub genres : has_field "genres" r.locked_fields ≡ true → r'.genre_ids ≡ r.genre_ids

Keeps-refl : (r : CatalogRow) → Keeps r r
Keeps-refl r = record { locked = refl; columns = λ k h. refl; genres = λ h. refl }

Keeps-trans : {r r' r'' : CatalogRow} → Keeps r r' → Keeps r' r'' → Keeps r r''
Keeps-trans a b = record {
  locked = b.locked ∙ a.locked;
  columns = λ k h. b.columns k (rw a.locked h) ∙ a.columns k h;
  genres = λ h. b.genres (rw a.locked h) ∙ a.genres h;
}

-- The row is still under its slug, with what was locked.
abbrev pub HasKept : String → CatalogRow → Catalog → Type 0
HasKept slug r c = (r' : CatalogRow) × (get_by_slug slug c ≡ some r') × Keeps r r'

pub record HasIds (c : Catalog) : Type 0 where
  pub unique : HasUniqueIds (λ (r : CatalogRow). r.id) c.rows.rows
  pub below : IdsBelow (λ (r : CatalogRow). r.id) c.rows.next_id c.rows.rows

module _ (slug' : String) (given : List (String × Value)) (c : Catalog) where
  write_row-HasIds : (found : Option CatalogRow) → HasIds c → HasIds (write_row found slug' given c)
  unfolding write_row insert_row
  write_row-HasIds (some old) h = record {
    unique = HasUniqueIds-update _ (λ r. str_eq r.slug slug') _ (λ r. refl) c.rows.rows h.unique;
    below = All-update _ (λ r. str_eq r.slug slug') _ c.rows.rows (λ r p. p) h.below;
  }
  write_row-HasIds none h = record {
    unique = HasUniqueIds-append _ _ c.rows.rows h.below h.unique;
    below =
        All-append _ _ c.rows.rows (All-map _ _ c.rows.rows (λ r p. omega arith) h.below)
          (omega arith);
  }

  module _ (slug : String) (r : CatalogRow) (e : get_by_slug slug c ≡ some r) where
    synced-Keeps : Keeps r (record r { column = synced_column r.locked_fields given r.column })
    unfolding synced_column
    synced-Keeps = record { locked = refl; columns = λ k h. ground (arith, h); genres = λ h. refl }

    write_row-HasKept : (found : Option CatalogRow) → HasKept slug r (write_row found slug' given c)
    unfolding write_row insert_row get_by_slug
    write_row-HasKept (some old) = (
      _,
      find-update_any (λ x. str_eq x.slug slug) (λ x. str_eq x.slug slug')
          (λ x. record x { column = synced_column x.locked_fields given x.column }) c.rows.rows r
          (λ y. refl) e,
      elim (Bool-cases (str_eq r.slug slug')) [
        | inl t ↦ rw t synced-Keeps
        | inr f ↦ rw f (Keeps-refl r)
      ],
    )
    write_row-HasKept none = (r, find-append _ c.rows.rows _ r e, Keeps-refl r)

module _ (given : List GenreData) (c : Catalog) where
  pub link_genres-HasIds : (id : ℕ) → HasIds c → HasIds (link_genres id given c)
  unfolding link_genres
  link_genres-HasIds id h = record {
    unique = HasUniqueIds-update _ (λ r. r.id == id) _ (λ r. refl) c.rows.rows h.unique;
    below = All-update _ (λ r. r.id == id) _ c.rows.rows (λ r p. p) h.below;
  }

  sync_genres-HasIds : (found : Option CatalogRow) → HasIds c → HasIds (sync_genres found given c)
  unfolding sync_genres
  sync_genres-HasIds none h = h
  sync_genres-HasIds (some r) h = ground (arith, h, link_genres-HasIds r.id h)

  module _ (slug slug' : String) (r : CatalogRow) (e : get_by_slug slug c ≡ some r)
      (h : HasIds c) where
    -- A row with the id of a row whose genres are locked has them locked.
    locked_by_id :
        (r₀ : CatalogRow)
        → get_by_slug slug' c ≡ some r₀
        → (r₀.id == r.id) ≡ true
        → has_field "genres" r.locked_fields ≡ true
        → has_field "genres" r₀.locked_fields ≡ true
    unfolding get_by_slug
    locked_by_id r₀ e₀ same l =
        All-of_find _ (λ x. str_eq x.slug slug') c.rows.rows r₀
          (All-of_found (λ (x : CatalogRow). x.id) (λ x. has_field "genres" x.locked_fields ≡ true)
            (λ x. str_eq x.slug slug) c.rows.rows r h.unique e l)
          e₀ same

    relinked-Keeps :
        (r₀ : CatalogRow) (ids : List ℕ)
        → get_by_slug slug' c ≡ some r₀
        → has_field "genres" r₀.locked_fields ≡ false
        → Keeps r (if r.id == r₀.id then record r { genre_ids = ids } else r)
    relinked-Keeps r₀ ids e₀ free = elim (Bool-cases (r.id == r₀.id)) [
      | inr f ↦ rw f (Keeps-refl r)
      | inl t ↦ rw t (record {
        locked = refl;
        columns = λ k l. refl;
        genres = λ l. absurd (ground (arith, free, locked_by_id r₀ e₀ (ground (arith, t)) l));
      })
    ]

    link_genres-HasKept :
        (r₀ : CatalogRow)
        → get_by_slug slug' c ≡ some r₀
        → has_field "genres" r₀.locked_fields ≡ false
        → HasKept slug r (link_genres r₀.id given c)
    unfolding link_genres get_by_slug
    link_genres-HasKept r₀ e₀ free =
        let ids = (get_or_create_genres given c.genres).0 in
        (
          _,
          find-update_any (λ x. str_eq x.slug slug) (λ x. x.id == r₀.id)
              (λ x. record x { genre_ids = ids }) c.rows.rows r (λ y. refl) e,
          relinked-Keeps r₀ ids e₀ free,
        )

    sync_genres-HasKept :
        (found : Option CatalogRow)
        → get_by_slug slug' c ≡ found
        → HasKept slug r (sync_genres found given c)
    unfolding sync_genres
    sync_genres-HasKept none e₀ = (r, e, Keeps-refl r)
    sync_genres-HasKept (some r₀) e₀ =
        elim (Bool-cases (not (is_empty given) && not (has_field "genres" r₀.locked_fields))) [
          | inl run ↦ rw run (link_genres-HasKept r₀ e₀ (ground (arith, run)))
          | inr skip ↦ rw skip (r, e, Keeps-refl r)
        ]

-- The syncs of a run: slug, columns and genres.
unfoldable pub sync_all : List (String × List (String × Value) × List GenreData) → Catalog → Catalog
sync_all [] c = c
sync_all ((slug, given, genres) ∷ syncs) c = sync_all syncs (upsert_movie slug given genres c)

module _ (slug : String) (r : CatalogRow) where
  upsert_movie-HasKept :
      (slug' : String) (given : List (String × Value)) (genres : List GenreData) (c : Catalog)
      → get_by_slug slug c ≡ some r
      → HasIds c
      → HasKept slug r (upsert_movie slug' given genres c)
        × HasIds (upsert_movie slug' given genres c)
  unfolding upsert_movie
  upsert_movie-HasKept slug' given genres c e h =
      let found = get_by_slug slug' c in
      let c' = write_row found slug' given c in
      let h' = write_row-HasIds slug' given c found h in
      let (r', e', kept) = write_row-HasKept slug' given c slug r e found in
      let (r'', e'', kept') =
        sync_genres-HasKept genres c' slug slug' r' e' h' (get_by_slug slug' c') refl in
      ((r'', e'', Keeps-trans kept kept'), sync_genres-HasIds genres c' (get_by_slug slug' c') h')

-- Through any run of syncs, of this row and of others, a row stays under its slug with every locked column and, when they
-- are locked, its genres.
pub sync_all-HasKept :
    (slug : String) (r : CatalogRow)
    (syncs : List (String × List (String × Value) × List GenreData)) (c : Catalog)
    → get_by_slug slug c ≡ some r
    → HasIds c
    → HasKept slug r (sync_all syncs c)
unfolding sync_all
sync_all-HasKept slug r [] c e h = (r, e, Keeps-refl r)
sync_all-HasKept slug r ((slug', given, genres) ∷ syncs) c e h =
    let ((r', e', kept), h') = upsert_movie-HasKept slug r slug' given genres c e h in
    let (r'', e'', kept') =
      sync_all-HasKept slug r' syncs (upsert_movie slug' given genres c) e' h' in
    (r'', e'', Keeps-trans kept kept')
