-- ===== src/Tests/Editing.antt =====
-- An admin renames a film, and two syncs come after that.
use backlogg.Prelude.{
  String, List, [], ◌∷◌, some, inr, ◌≡◌, refl, arith, any, find, filter, update_where,
}
use backlogg.Db.Tables.{movie, insert_row}
use backlogg.Catalog.{
  Value, GenreData, CatalogRow, Catalog, has_field, value_of, or_else, get_by_slug, write_genre,
  get_or_create_genre, get_or_create_genres, link_genres,
}
use backlogg.Catalog.Admin.{
  CatalogEditIn, editable_fields, edited_fields, is_blank, genres_payload, set_columns,
  admin_update_movie, new_locked, set_locked, not_allowed, apply_edit, checked_edit,
  edit_catalog_item,
}
use backlogg.Catalog.Locks.{Keeps, HasIds, sync_all}
use backlogg.Catalog.Edits.{IsEdited, edit_catalog_item-survives}

abbrev synced : List (String × List (String × Value) × List GenreData)
synced =
    (
      "alien-1979",
      ("title", Value.text "Alien") ∷ ("poster_url", Value.text "new") ∷ [],
      ("Horror", "horror") ∷ [],
    )
    ∷ ("heat-1995", ("title", Value.text "Heat") ∷ [], [])
    ∷ []

abbrev films : Catalog
films = record {
  rows = record {
    rows =
        record {
          id = 7;
          slug = "alien-1979";
          column = λ k. Value.text "old";
          locked_fields = [];
          genre_ids = [];
        }
        ∷ [];
    next_id = 8;
  };
  genres = record { rows = []; next_id = 1 };
}

abbrev rename : CatalogEditIn
rename = record {
  fields = ("title", Value.text "Alien (1979)") ∷ [];
  genres = some ("SF" ∷ []);
  unlock_fields = [];
}

abbrev unchanged : String → String
unchanged s = s

abbrev after_rename : CatalogRow
after_rename = record {
  id = 7;
  slug = "alien-1979";
  column = λ k. or_else (Value.text "old") (value_of k rename.fields);
  locked_fields = "title" ∷ "genres" ∷ [];
  genre_ids = 1 ∷ [];
}

renamed :
    (edit_catalog_item unchanged unchanged movie "alien-1979" rename films).0 ≡ inr after_rename
unfolding edit_catalog_item checked_edit apply_edit not_allowed editable_fields edited_fields
    is_blank value_of get_by_slug genres_payload set_columns link_genres get_or_create_genres
    get_or_create_genre write_genre insert_row admin_update_movie new_locked set_locked has_field
    any find filter update_where
renamed = refl

films-HasIds : HasIds films
unfolding any
films-HasIds = record { unique = (refl, tt); below = (omega arith, tt) }

edit_catalog_item-survives_example :
    let c = (edit_catalog_item unchanged unchanged movie "alien-1979" rename films).1 in
    (r r' : CatalogRow) × (get_by_slug "alien-1979" c ≡ some r)
    × IsEdited rename (some (("SF", "SF") ∷ [])) c.genres.rows r
    × (get_by_slug "alien-1979" (sync_all synced c) ≡ some r')
    × Keeps r r'
unfolding genres_payload has_field any
edit_catalog_item-survives_example =
    edit_catalog_item-survives unchanged unchanged "alien-1979" rename films after_rename movie
      synced films-HasIds renamed
