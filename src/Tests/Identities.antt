-- ===== src/Tests/Identities.antt =====
-- Two films that a source renames in one batch, one of them into the slug of the other.
use backlogg.Prelude.{
  ℕ, false, List, [], ◌∷◌, some, String, ◌≡◌, refl, find, filter, any, map, ◌==◌, update_where,
}
use backlogg.Prelude.Rows.{HasUniqueIds}
use backlogg.Prelude.Counts.{count}
use backlogg.Catalog.{Value, null, text, CatalogRow, Catalog, synced_column, has_field}
use backlogg.Identity.{
  ExternalId, slug_for, wanted_of, join_row, linked_rows, contested, is_safe, set_slug, rename_all,
  align_slugs_to_external_ids, upsert_movie_by_id,
}
use backlogg.Identity.Owners.{HasUniqueSlugs, Lands}
use backlogg.Identity.Joins.{HasUniqueLinks}
use backlogg.Identity.Aligning.{
  link_of, align_slugs_to_external_ids-HasUniqueSlugs, align_slugs_to_external_ids-Lands,
}
use backlogg.Identity.Upsert.{Holds, upsert_movie_by_id-Holds}

abbrev film : ℕ → String → CatalogRow
film id slug = record {
  id = id;
  slug = slug;
  column = λ k. null;
  locked_fields = "overview" ∷ [];
  genre_ids = [];
}

abbrev films : List CatalogRow
films = film 1 "dune-part-one" ∷ film 2 "dune-2020" ∷ []

abbrev link : ℕ → String → ExternalId
link id x = record { item_type = "MOVIE"; item_id = id; source = "TMDB"; external_id = x }

abbrev links : List ExternalId
links = link 1 "438631" ∷ link 2 "841" ∷ []

abbrev proposed : List (String × String)
proposed = ("438631", "dune-2020") ∷ ("841", "dune-1984") ∷ []

aligned_films : align_slugs_to_external_ids "MOVIE" "TMDB" proposed links false films ≡ (
  ("438631", "dune-part-one") ∷ ("841", "dune-1984") ∷ [],
  film 1 "dune-part-one" ∷ film 2 "dune-1984" ∷ [],
)
unfolding align_slugs_to_external_ids linked_rows join_row wanted_of slug_for is_safe contested
    count has_field rename_all set_slug filter find any update_where
aligned_films = refl

films-HasUniqueIds : HasUniqueIds (λ r. r.id) films
unfolding any
films-HasUniqueIds = (refl, (refl, tt))

films-HasUniqueSlugs : HasUniqueSlugs films
unfolding any
films-HasUniqueSlugs = (refl, (refl, tt))

links-HasUniqueLinks : HasUniqueLinks links
unfolding any
links-HasUniqueLinks = (refl, refl, (refl, refl, tt))

link_found : find (link_of "MOVIE" "TMDB" "841") links ≡ some (link 2 "841")
unfolding find
link_found = refl

film_found : find (λ y. y.id == 2) films ≡ some (film 2 "dune-2020")
unfolding find
film_found = refl

slug_proposed : slug_for "841" (wanted_of proposed) ≡ some "dune-1984"
unfolding slug_for wanted_of filter
slug_proposed = refl

align_slugs_to_external_ids-Lands_example :
    (let (resolved, rows') =
        align_slugs_to_external_ids "MOVIE" "TMDB" proposed links false films in
      (s : String) × (slug_for "841" resolved ≡ some s) × Lands rows' s 2)
align_slugs_to_external_ids-Lands_example =
    align_slugs_to_external_ids-Lands "MOVIE" "TMDB" proposed links false films "841" "dune-1984"
      (link 2 "841") (film 2 "dune-2020") films-HasUniqueIds films-HasUniqueSlugs
      links-HasUniqueLinks link_found film_found slug_proposed

align_slugs_to_external_ids-HasUniqueSlugs_example :
    (let rows' = (align_slugs_to_external_ids "MOVIE" "TMDB" proposed links false films).1 in
      HasUniqueIds (λ r. r.id) rows' × HasUniqueSlugs rows')
align_slugs_to_external_ids-HasUniqueSlugs_example =
    align_slugs_to_external_ids-HasUniqueSlugs "MOVIE" "TMDB" proposed links false films
      films-HasUniqueIds films-HasUniqueSlugs links-HasUniqueLinks

abbrev catalog : Catalog
catalog = record {
  rows = record { rows = films; next_id = 3 };
  genres = record { rows = []; next_id = 1 };
}

abbrev payload : List (String × Value)
payload = ("title", text "Dune") ∷ ("overview", text "A desert") ∷ []

upsert_movie_by_id-Holds_example :
    (let c' = upsert_movie_by_id (some "841") "dune-1984" payload [] links false catalog in
      (map (λ r. r.id) c'.rows.rows ≡ 1 ∷ 2 ∷ [])
      × Holds c'.rows.rows 2
          ("overview" ∷ [])
          (synced_column ("overview" ∷ []) payload (λ k. null)))
upsert_movie_by_id-Holds_example =
    upsert_movie_by_id-Holds "841" "dune-1984" payload [] links false catalog (link 2 "841")
      (film 2 "dune-2020") refl refl films-HasUniqueIds films-HasUniqueSlugs links-HasUniqueLinks
      link_found film_found
