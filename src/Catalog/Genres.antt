-- ===== src/Catalog/Genres.antt =====
-- The genres that get_or_create_genre of backlogg/movies/repository.py finds or stores.
use backlogg.Prelude.{
  str_eq, List, [], ◌∷◌, map, Option, none, some, ◌≡◌, refl, ap, ap₂, sym, ◌∙◌, ℕ, Bool, arith,
  find,
}
use backlogg.Prelude.Rows.{find-append, find-new}
use text.Mathlib.TextEquality.{eq_iff}
use mathlib.Core.Option
use backlogg.Db.Tables.{Table, insert_row}
use backlogg.Catalog.{Genre, GenreData, write_genre, get_or_create_genre, get_or_create_genres}

-- The id of the genre that is stored under a slug.
abbrev pub stored_genre : List Genre → GenreData → Option ℕ
stored_genre genres g = Option.map (λ x. x.id) (find (λ x. str_eq x.slug g.1) genres)

-- The genres of the edit, as ids: those of the genres stored under the slugs, in order.
abbrev pub HasGenres : List Genre → Option (List GenreData) → List ℕ → Type 0
HasGenres genres none ids = Unit
HasGenres genres (some given) ids = map some ids ≡ map (stored_genre genres) given

write_genre-stored :
    (g : GenreData) (genres : Table Genre) (found : Option Genre)
    → find (λ x. str_eq x.slug g.1) genres.rows ≡ found
    → let (i, genres') = write_genre found g genres in
      (x : Genre) × (find (λ x. str_eq x.slug g.1) genres'.rows ≡ some x) × (x.id ≡ i)
unfolding write_genre insert_row
write_genre-stored g genres (some x) e = (x, e, refl)
write_genre-stored g genres none e =
    (_, find-new (λ x. str_eq x.slug g.1) genres.rows _ e (ground (arith, eq_iff g.1 g.1)), refl)

write_genre-keeps :
    (q : Genre → Bool) (g : GenreData) (genres : Table Genre) (found : Option Genre) (x : Genre)
    → find q genres.rows ≡ some x
    → find q (write_genre found g genres).1.rows ≡ some x
unfolding write_genre insert_row
write_genre-keeps q g genres (some y) x e = e
write_genre-keeps q g genres none x e = find-append q genres.rows _ x e

get_or_create_genres-keeps :
    (q : Genre → Bool) (given : List GenreData) (genres : Table Genre) (x : Genre)
    → find q genres.rows ≡ some x
    → find q (get_or_create_genres given genres).1.rows ≡ some x
unfolding get_or_create_genres get_or_create_genre
get_or_create_genres-keeps q [] genres x e = e
get_or_create_genres-keeps q (g ∷ given) genres x e =
    let found = find (λ y. str_eq y.slug g.1) genres.rows in
    get_or_create_genres-keeps q given (write_genre found g genres).1 x
      (write_genre-keeps q g genres found x e)

-- The ids are those of the genres that are stored under the slugs afterwards.
pub get_or_create_genres-stored :
    (given : List GenreData) (genres : Table Genre)
    → let (ids, genres') = get_or_create_genres given genres in
      map some ids ≡ map (stored_genre genres'.rows) given
unfolding get_or_create_genres get_or_create_genre
get_or_create_genres-stored [] genres = refl
get_or_create_genres-stored (g ∷ given) genres =
    let found = find (λ y. str_eq y.slug g.1) genres.rows in
    let genres' = (write_genre found g genres).1 in
    let (x, e, same) = write_genre-stored g genres found refl in
    let later = get_or_create_genres-keeps (λ y. str_eq y.slug g.1) given genres' x e in
    ap₂ (λ i is. i ∷ is) (sym (ap (Option.map (λ y. y.id)) later ∙ ap some same))
      (get_or_create_genres-stored given genres')
