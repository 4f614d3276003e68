-- ===== src/Catalog.antt =====
-- One catalog table with its genres, and the upsert of a sync, as backlogg/movies/repository.py has them
-- for movies (the series, books and games repositories repeat it). A row's plain columns are read by name.
-- The slug of a sync is already resolved, and a sync does not send locked_fields.
pub mod Genres
pub mod Admin
pub mod Locks
pub mod Edits
use backlogg.Prelude.{
  ℕ, Bool, true, false, not, ◌&&◌, ◌||◌, String, str_eq, List, [], ◌∷◌, ◌++◌, map, Option, none,
  some, ◌⊎◌, inl, inr, ◌==◌, if◌then◌else◌, is_some, any, filter, find, update_where,
}
use mathlib.Core.Option
use backlogg.Db.Tables.{ItemType, movie, series, book, game, Table, insert_row}

-- What a plain column holds.
pub data Value : Type 0 where
  null : Value
  text : String → Value
  number : ℕ → Value

pub record Genre : Type 0 where
  pub id : ℕ
  pub name : String
  pub slug : String

pub record CatalogRow : Type 0 where
  pub id : ℕ
  pub slug : String
  pub column : String → Value
  pub locked_fields : List String
  pub genre_ids : List ℕ

pub record Catalog : Type 0 where
  pub rows : Table CatalogRow
  pub genres : Table Genre

-- A genre as a payload has it: its name and its slug.
abbrev pub GenreData : Type 0
GenreData = String × String

unfoldable pub has_field : String → List String → Bool
has_field k = any (λ f. str_eq f k)

-- dict.get, on the items of a dictionary
unfoldable pub value_of : String → List (String × Value) → Option Value
value_of k [] = none
value_of k ((k', v) ∷ given) = if str_eq k' k then some v else value_of k given

abbrev pub or_else : Value → Option Value → Value
or_else v none = v
or_else v (some w) = w

abbrev never_set : List String
never_set = "id" ∷ "slug" ∷ "created_at" ∷ "rating_count_internal" ∷ []

-- ON CONFLICT (slug) DO UPDATE: a locked column keeps its own value.
unfoldable pub synced_column :
    List String → List (String × Value) → (String → Value) → String → Value
synced_column locked given column k =
    if has_field k never_set || has_field k locked
    then column k
    else or_else (column k) (value_of k given)

unfoldable pub get_by_slug : String → Catalog → Option CatalogRow
get_by_slug slug c = find (λ r. str_eq r.slug slug) c.rows.rows

unfoldable pub write_row : Option CatalogRow → String → List (String × Value) → Catalog → Catalog
write_row (some old) slug given c = record c {
  rows = record (c.rows) {
    rows =
        update_where (λ r. str_eq r.slug slug)
          (λ r. record r { column = synced_column r.locked_fields given r.column }) c.rows.rows;
  };
}
write_row none slug given c = record c {
  rows =
      insert_row
        (λ id. record {
          id = id;
          slug = slug;
          column = λ k. or_else null (value_of k given);
          locked_fields = [];
          genre_ids = [];
        })
        c.rows;
}

unfoldable pub write_genre : Option Genre → GenreData → Table Genre → ℕ × Table Genre
write_genre (some g) given genres = (g.id, genres)
write_genre none (name, slug) genres =
    (genres.next_id, insert_row (λ id. record { id = id; name = name; slug = slug }) genres)

unfoldable pub get_or_create_genre : GenreData → Table Genre → ℕ × Table Genre
get_or_create_genre given genres =
    write_genre (find (λ g. str_eq g.slug given.1) genres.rows) given genres

unfoldable pub get_or_create_genres : List GenreData → Table Genre → List ℕ × Table Genre
get_or_create_genres [] genres = ([], genres)
get_or_create_genres (given ∷ rest) genres =
    let (i, genres') = get_or_create_genre given genres in
    let (ids, genres'') = get_or_create_genres rest genres' in (i ∷ ids, genres'')

-- The links of a row to its genres are deleted and inserted again.
unfoldable pub link_genres : ℕ → List GenreData → Catalog → Catalog
link_genres id given c =
    let (ids, genres) = get_or_create_genres given c.genres in
    record {
      rows = record (c.rows) {
        rows = update_where (λ r. r.id == id) (λ r. record r { genre_ids = ids }) c.rows.rows;
      };
      genres = genres;
    }

abbrev pub is_empty : List GenreData → Bool
is_empty [] = true
is_empty (g ∷ gs) = false

-- Reload, and the genres unless they are locked.
unfoldable pub sync_genres : Option CatalogRow → List GenreData → Catalog → Catalog
sync_genres none given c = c
sync_genres (some r) given c =
    if not (is_empty given) && not (has_field "genres" r.locked_fields)
    then link_genres r.id given c
    else c

unfoldable pub upsert_movie : String → List (String × Value) → List GenreData → Catalog → Catalog
upsert_movie slug given genres_data c =
    let c' = write_row (get_by_slug slug c) slug given c in
    sync_genres (get_by_slug slug c') genres_data c'
