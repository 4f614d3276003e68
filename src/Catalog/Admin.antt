-- ===== src/Catalog/Admin.antt =====
-- The edit of a catalog row by an admin: edit_catalog_item of backlogg/admin/service.py, with
-- admin_update_movie of backlogg/movies/repository.py.
use backlogg.Prelude.{
  ℕ, Bool, true, false, not, ◌||◌, String, str_eq, List, [], ◌∷◌, ◌++◌, map, Option, none, some,
  ◌⊎◌, inl, inr, ◌==◌, if◌then◌else◌, is_some, filter, find, update_where,
}
use mathlib.Core.Option
use backlogg.Db.Tables.{ItemType, movie, series, book, game}
use backlogg.Catalog.{
  Value, GenreData, CatalogRow, Catalog, has_field, value_of, or_else, get_by_slug, link_genres,
}

-- CatalogEditIn, with the fields that were set: the plain ones by name, and the genres' names.
pub record CatalogEditIn : Type 0 where
  pub fields : List (String × Value)
  pub genres : Option (List String)
  pub unlock_fields : List String

unfoldable pub editable_fields : ItemType → List String
editable_fields movie = "title" ∷ "poster_url" ∷ "release_date" ∷ "genres" ∷ []
editable_fields series = "title" ∷ "poster_url" ∷ "first_air_date" ∷ "genres" ∷ []
editable_fields book = "title" ∷ "poster_url" ∷ "first_publish_date" ∷ "genres" ∷ []
editable_fields game = "title" ∷ "poster_url" ∷ "release_date" ∷ "genres" ∷ []

-- The keys of the payload but unlock_fields.
unfoldable pub edited_fields : CatalogEditIn → List String
edited_fields payload =
    map (λ f. f.0) payload.fields ++ (if is_some payload.genres then "genres" ∷ [] else [])

unfoldable pub is_blank : (String → String) → Option Value → Bool
is_blank strip none = false
is_blank strip (some Value.null) = true
is_blank strip (some (Value.number n)) = false
is_blank strip (some (Value.text s)) = str_eq (strip s) ""

-- Names with one slug make one genre; a name without a slug makes none.
unfoldable pub genres_payload : (String → String) → List String → List String → List GenreData
genres_payload slugify seen [] = []
genres_payload slugify seen (name ∷ names) =
    let slug = slugify name in
    let skip = str_eq slug "" || has_field slug seen in
    let rest = genres_payload slugify (if skip then seen else slug ∷ seen) names in
    if skip then rest else (name, slug) ∷ rest

unfoldable pub set_columns : ℕ → List (String × Value) → Catalog → Catalog
set_columns id fields c = record c {
  rows = record (c.rows) {
    rows =
        update_where (λ r. r.id == id)
          (λ r. record r { column = λ k. or_else (r.column k) (value_of k fields) }) c.rows.rows;
  };
}

unfoldable pub admin_update_movie :
    ℕ → List (String × Value) → Option (List GenreData) → Catalog → Catalog
admin_update_movie id fields none c = set_columns id fields c
admin_update_movie id fields (some given) c = link_genres id given (set_columns id fields c)

-- (set(locked) | set(edited)) - unlock
unfoldable pub new_locked : List String → List String → List String → List String
new_locked locked edited unlock = filter (λ f. not (has_field f unlock)) (locked ++ edited)

unfoldable pub set_locked : ℕ → CatalogEditIn → Catalog → Catalog
set_locked id payload c = record c {
  rows = record (c.rows) {
    rows =
        update_where (λ r. r.id == id)
          (λ r. record r {
            locked_fields =
                new_locked r.locked_fields (edited_fields payload) payload.unlock_fields;
          })
          c.rows.rows;
  };
}

unfoldable pub not_allowed : List String → List String → List String
not_allowed allowed = filter (λ f. not (has_field f allowed))

-- The 422 and 404 answers, by what they report.
pub data EditError : Type 0 where
  not_editable : List String → EditError
  empty_title : EditError
  item_not_found : EditError

abbrev pub Edited : Type 0
Edited = EditError ⊎ CatalogRow

-- The row that the session holds, after the edit.
abbrev edited_row : CatalogRow → Option CatalogRow → Edited
edited_row item none = inr item
edited_row item (some r) = inr r

unfoldable pub apply_edit :
    (String → String) → CatalogEditIn → Option CatalogRow → Catalog → Edited × Catalog
apply_edit slugify payload none c = (inl EditError.item_not_found, c)
apply_edit slugify payload (some item) c =
    let genres = Option.map (genres_payload slugify []) payload.genres in
    let c' = set_locked item.id payload (admin_update_movie item.id payload.fields genres c) in
    (edited_row item (find (λ r. r.id == item.id) c'.rows.rows), c')

-- The title is checked when both lists are allowed.
unfoldable pub checked_edit :
    (String → String)
    → (String → String)
    → List String
    → List String
    → String
    → CatalogEditIn
    → Catalog
    → Edited × Catalog
checked_edit strip slugify (f ∷ fs) unlocked slug payload c =
    (inl (EditError.not_editable (f ∷ fs)), c)
checked_edit strip slugify [] (f ∷ fs) slug payload c = (inl (EditError.not_editable (f ∷ fs)), c)
checked_edit strip slugify [] [] slug payload c =
    let edited = apply_edit slugify payload (get_by_slug slug c) c in
    if is_blank strip (value_of "title" payload.fields)
    then (inl EditError.empty_title, c)
    else edited

unfoldable pub edit_catalog_item :
    (String → String)
    → (String → String)
    → ItemType
    → String
    → CatalogEditIn
    → Catalog
    → Edited × Catalog
edit_catalog_item strip slugify item_type slug payload c =
    checked_edit strip slugify (not_allowed (editable_fields item_type) (edited_fields payload))
      (not_allowed (editable_fields item_type) payload.unlock_fields) slug payload c
