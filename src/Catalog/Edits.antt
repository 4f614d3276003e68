-- ===== src/Catalog/Edits.antt =====
-- An edit of a catalog row by an admin, and the syncs that come after it: backlogg/admin/service.py.
use backlogg.Prelude.{
  true, false, not, String, str_eq, List, [], ◌∷◌, ◌++◌, map, Option, none, some, inl, inr, ◌==◌,
  ◌≡◌, refl, arith, any, filter, find, update_where, Bool-cases,
}
use backlogg.Prelude.Rows.{HasUniqueIds-update, All-update, find-update}
use text.Mathlib.TextEquality.{eq_iff}
use mathlib.Core.Option
use backlogg.Db.Tables.{ItemType}
use backlogg.Catalog.{
  Value, Genre, GenreData, CatalogRow, Catalog, has_field, value_of, or_else, get_by_slug,
  get_or_create_genres, link_genres,
}
use backlogg.Catalog.Genres.{HasGenres, get_or_create_genres-stored}
use backlogg.Catalog.Admin.{
  CatalogEditIn, editable_fields, edited_fields, is_blank, genres_payload, set_columns,
  admin_update_movie, new_locked, set_locked, not_allowed, Edited, apply_edit, checked_edit,
  edit_catalog_item,
}
use backlogg.Catalog.Locks.{Keeps, HasIds, link_genres-HasIds, sync_all, sync_all-HasKept}

has_field-append :
    (k : String) (xs ys : List String) → has_field k ys ≡ true → has_field k (xs ++ ys) ≡ true
unfolding has_field any
has_field-append k [] ys h = h
has_field-append k (x ∷ xs) ys h = ground (arith, has_field-append k xs ys h)

has_field-append_left :
    (k : String) (xs ys : List String) → has_field k xs ≡ true → has_field k (xs ++ ys) ≡ true
unfolding has_field any
has_field-append_left k [] ys h = ground (arith, h)
has_field-append_left k (x ∷ xs) ys h = ground (arith, h, has_field-append_left k xs ys)

-- A field that is not unlocked passes the filter.
has_field-filter :
    (k : String) (unlock xs : List String)
    → has_field k unlock ≡ false
    → has_field k xs ≡ true
    → has_field k (filter (λ f. not (has_field f unlock)) xs) ≡ true
unfolding any filter has_field
has_field-filter k unlock [] free h = h
has_field-filter k unlock (x ∷ xs) free h = elim (Bool-cases (str_eq x k)) [
  | inl t ↦
      let gone : has_field x unlock ≡ false = rw ((eq_iff x k).0 t) free in
      rw gone (ground (arith, t))
  | inr f ↦ ground (arith, f, h, has_field-filter k unlock xs free)
]

value_of-has_field :
    (k : String) (v : Value) (fields : List (String × Value))
    → value_of k fields ≡ some v
    → has_field k (map (λ f. f.0) fields) ≡ true
unfolding value_of has_field any
value_of-has_field k v [] e = ground arith
value_of-has_field k v ((k', w) ∷ fields) e = ground (arith, e, value_of-has_field k v fields)

-- What the edit is about has its new value and is locked, but for what it unlocks.
pub record IsEdited (payload : CatalogEditIn) (given : Option (List GenreData))
    (stored : List Genre) (r : CatalogRow) : Type 0 where
  pub genres : HasGenres stored given r.genre_ids
  pub columns : (k : String) (v : Value) → value_of k payload.fields ≡ some v → r.column k ≡ v
  pub locks :
      (k : String)
      → has_field k (edited_fields payload) ≡ true
      → has_field k payload.unlock_fields ≡ false
      → has_field k r.locked_fields ≡ true

-- The row of the edit, after it.
module _ (payload : CatalogEditIn) (slug : String) (item : CatalogRow) where
  abbrev with_columns : CatalogRow → CatalogRow
  with_columns r = record r { column = λ k. or_else (r.column k) (value_of k payload.fields) }

  abbrev with_locks : CatalogRow → CatalogRow
  with_locks r = record r {
    locked_fields = new_locked r.locked_fields (edited_fields payload) payload.unlock_fields;
  }

  -- A row of the item's id under the slug is rewritten and stays there.
  rewritten :
      (f : CatalogRow → CatalogRow) (rows : List CatalogRow) (r : CatalogRow)
      → ((x : CatalogRow) → (f x).slug ≡ x.slug)
      → find (λ x. str_eq x.slug slug) rows ≡ some r
      → r.id ≡ item.id
      → find (λ x. str_eq x.slug slug) (update_where (λ x. x.id == item.id) f rows) ≡ some (f r)
  rewritten f rows r keeps e same =
      find-update (λ x. str_eq x.slug slug) (λ x. x.id == item.id) f rows r (λ y. rw keeps refl) e
        (ground (arith, same))

  with_locks-IsEdited :
      (given : Option (List GenreData)) (stored : List Genre) (r : CatalogRow)
      → HasGenres stored given r.genre_ids
      → IsEdited payload given stored (with_locks (with_columns r))
  unfolding new_locked
  with_locks-IsEdited given stored r h = record {
    genres = h;
    columns = λ k v e. rw e refl;
    locks = λ k h free.
        has_field-filter k payload.unlock_fields (r.locked_fields ++ edited_fields payload) free
          (has_field-append k r.locked_fields (edited_fields payload) h);
  }

  applied :
      (genres : Option (List GenreData)) (c : Catalog)
      → get_by_slug slug c ≡ some item
      → (r : CatalogRow) × (get_by_slug slug
            (set_locked item.id payload (admin_update_movie item.id payload.fields genres c))
          ≡ some r)
        × IsEdited payload genres
            (set_locked item.id payload
              (admin_update_movie item.id payload.fields genres c)).genres.rows
            r
  unfolding admin_update_movie set_locked set_columns link_genres get_by_slug
  applied none c e = (
    _,
    rewritten with_locks _ _ (λ x. refl)
        (rewritten with_columns c.rows.rows item (λ x. refl) e refl) refl,
    with_locks-IsEdited none c.genres.rows item tt,
  )
  applied (some given) c e =
      let ids = (get_or_create_genres given c.genres).0 in
      (
        _,
        rewritten with_locks _ _ (λ x. refl)
            (rewritten (λ r. record r { genre_ids = ids }) _ _ (λ x. refl)
              (rewritten with_columns c.rows.rows item (λ x. refl) e refl) refl)
            refl,
        with_locks-IsEdited (some given) (get_or_create_genres given c.genres).1.rows
            (record item { genre_ids = ids }) (get_or_create_genres-stored given c.genres),
      )

  rewritten-HasIds :
      (f : CatalogRow → CatalogRow) (c : Catalog)
      → ((x : CatalogRow) → (f x).id ≡ x.id)
      → HasIds c
      → HasIds (record c {
        rows = record (c.rows) { rows = update_where (λ x. x.id == item.id) f c.rows.rows };
      })
  rewritten-HasIds f c keeps h = record {
    unique = HasUniqueIds-update _ (λ r. r.id == item.id) _ keeps c.rows.rows h.unique;
    below = All-update _ (λ r. r.id == item.id) _ c.rows.rows (λ r p. rw keeps p) h.below;
  }

  applied-HasIds :
      (genres : Option (List GenreData)) (c : Catalog)
      → HasIds c
      → HasIds (set_locked item.id payload (admin_update_movie item.id payload.fields genres c))
  unfolding admin_update_movie set_locked set_columns
  applied-HasIds none c h =
      rewritten-HasIds with_locks _ (λ x. refl) (rewritten-HasIds with_columns c (λ x. refl) h)
  applied-HasIds (some given) c h =
      rewritten-HasIds with_locks _ (λ x. refl)
        (link_genres-HasIds given _ item.id (rewritten-HasIds with_columns c (λ x. refl) h))

module _ (strip slugify : String → String) (slug : String) (payload : CatalogEditIn) (c : Catalog)
    (row : CatalogRow) where
  -- The genres of the edit, with their slugs.
  abbrev pub edited_genres : Option (List GenreData)
  edited_genres = Option.map (genres_payload slugify []) payload.genres

  -- What a successful edit leaves.
  abbrev IsDone : Edited × Catalog → Type 0
  IsDone done =
      (done.0 ≡ inr row)
      → HasIds c
      → (r : CatalogRow) × (get_by_slug slug done.1 ≡ some r)
        × IsEdited payload edited_genres done.1.genres.rows r
        × HasIds done.1

  apply_edit-IsDone :
      (found : Option CatalogRow)
      → get_by_slug slug c ≡ found
      → IsDone (apply_edit slugify payload found c)
  unfolding apply_edit
  apply_edit-IsDone none e bad h = absurd (ground (arith, bad))
  apply_edit-IsDone (some item) e good h =
      let genres = Option.map (genres_payload slugify []) payload.genres in
      let (r, e', edited) = applied payload slug item genres c e in
      (r, e', edited, applied-HasIds payload slug item genres c h)

  checked_edit-IsDone :
      (fs gs : List String) → IsDone (checked_edit strip slugify fs gs slug payload c)
  unfolding checked_edit
  checked_edit-IsDone (f ∷ fs) gs bad h = absurd (ground (arith, bad))
  checked_edit-IsDone [] (g ∷ gs) bad h = absurd (ground (arith, bad))
  checked_edit-IsDone [] [] good h =
      elim (Bool-cases (is_blank strip (value_of "title" payload.fields))) [
        | inl blank ↦ absurd (ground (arith, rw blank at good))
        | inr filled ↦ rw filled (apply_edit-IsDone (get_by_slug slug c) refl (rw filled at good) h)
      ]

  -- After a successful edit, the row has the edited columns, and as genres those that are stored under the
  -- edit's slugs, in order; those fields are locked unless the edit unlocks them, and
  -- through any run of later syncs it stays under its slug with every locked column and, if they are locked, its genres.
  pub edit_catalog_item-survives :
      (t : ItemType) (syncs : List (String × List (String × Value) × List GenreData))
      → HasIds c
      → (edit_catalog_item strip slugify t slug payload c).0 ≡ inr row
      → let c' = (edit_catalog_item strip slugify t slug payload c).1 in
        (r r' : CatalogRow) × (get_by_slug slug c' ≡ some r)
        × IsEdited payload edited_genres c'.genres.rows r
        × (get_by_slug slug (sync_all syncs c') ≡ some r')
        × Keeps r r'
  unfolding edit_catalog_item
  edit_catalog_item-survives t syncs h good =
      let (r, e, edited, h') =
        checked_edit-IsDone (not_allowed (editable_fields t) (edited_fields payload))
          (not_allowed (editable_fields t) payload.unlock_fields) good h in
      let (r', e', kept) = sync_all-HasKept slug r syncs _ e h' in (r, r', e, edited, e', kept)
