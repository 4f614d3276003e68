-- ===== src/Identity.antt =====
-- The identity of an item: backlogg/shared/identity.py, over the rows of one catalog table and external_ids. A
-- dictionary is the list of its items. IntegrityError is an argument: the slug that another writer took
-- between the check and the update.
pub mod Owners
pub mod Renames
pub mod Joins
pub mod Contests
pub mod Aligning
pub mod Upsert
use backlogg.Prelude.{
  ℕ, Bool, true, false, not, ◌&&◌, ◌||◌, String, str_eq, List, [], ◌∷◌, map, Option, none, some,
  ◌==◌, leb, if◌then◌else◌, any, filter, find, update_where,
}
use backlogg.Prelude.Counts.{count}
use backlogg.Catalog.{Value, GenreData, CatalogRow, Catalog, has_field, upsert_movie}

pub record ExternalId : Type 0 where
  pub item_type : String
  pub item_id : ℕ
  pub source : String
  pub external_id : String

-- A row that is linked to one of the wanted external ids, with the slug that the payload proposes.
pub record LinkedRow : Type 0 where
  pub external_id : String
  pub item_id : ℕ
  pub current : String
  pub locked : List String
  pub target : String

-- dict.get
unfoldable pub slug_for : String → List (String × String) → Option String
slug_for x [] = none
slug_for x ((k, slug) ∷ slugs) = if str_eq k x then some slug else slug_for x slugs

abbrev pub or_default : String → Option String → String
or_default d none = d
or_default d (some slug) = slug

unfoldable pub wanted_of : List (String × String) → List (String × String)
wanted_of = filter (λ p. not (str_eq p.0 "") && not (str_eq p.1 ""))

-- The inner join of a link with its row; a link whose row is gone decides nothing.
unfoldable pub join_row :
    ExternalId → Option CatalogRow → Option String → List LinkedRow → List LinkedRow
join_row l none target rest = rest
join_row l (some r) none rest = rest
join_row l (some r) (some target) rest =
    record {
      external_id = l.external_id;
      item_id = l.item_id;
      current = r.slug;
      locked = r.locked_fields;
      target = target;
    }
    ∷ rest

module _ (item_type source : String) where
  abbrev pub of_source : ExternalId → Bool
  of_source l = str_eq l.item_type item_type && str_eq l.source source

  unfoldable pub linked_rows :
      List (String × String) → List CatalogRow → List ExternalId → List LinkedRow
  linked_rows wanted rows [] = []
  linked_rows wanted rows (l ∷ ls) =
      let rest = linked_rows wanted rows ls in
      if of_source l
      then join_row l (find (λ r. r.id == l.item_id) rows) (slug_for l.external_id wanted) rest
      else rest

abbrev pub owned_by : ℕ → Option CatalogRow → Bool
owned_by id none = true
owned_by id (some r) = r.id == id

unfoldable pub contested : List (String × String) → String → Bool
contested wanted slug = leb 2 (count (λ p. str_eq p.1 slug) wanted)

-- The rename is applied: the slug differs, the title is not locked, no other row has the slug and no
-- other item of the batch proposes it.
unfoldable pub is_safe : List (String × String) → List CatalogRow → LinkedRow → Bool
is_safe wanted rows a =
    not (str_eq a.current a.target)
    && not (has_field "title" a.locked)
    && owned_by a.item_id (find (λ r. str_eq r.slug a.target) rows)
    && not (contested wanted a.target)

unfoldable pub set_slug : ℕ → String → List CatalogRow → List CatalogRow
set_slug id slug = update_where (λ r. r.id == id) (λ r. record r { slug = slug })

unfoldable pub rename_all : List LinkedRow → List CatalogRow → List CatalogRow
rename_all [] rows = rows
rename_all (a ∷ more) rows = rename_all more (set_slug a.item_id a.target rows)

abbrev pub resolved_slug : (LinkedRow → Bool) → LinkedRow → String × String
resolved_slug safe a = (a.external_id, if safe a then a.target else a.current)

unfoldable pub align_slugs_to_external_ids :
    String
    → String
    → List (String × String)
    → List ExternalId
    → Bool
    → List CatalogRow
    → List (String × String) × List CatalogRow
align_slugs_to_external_ids item_type source proposed links integrity_error rows =
    let wanted = wanted_of proposed in
    let linked = linked_rows item_type source wanted rows links in
    let safe = is_safe wanted rows in
    if integrity_error
    then (map (resolved_slug (λ a. false)) linked, rows)
    else (map (resolved_slug safe) linked, rename_all (filter safe linked) rows)

unfoldable pub resolve_item_slug :
    String
    → String
    → String
    → String
    → List ExternalId
    → Bool
    → List CatalogRow
    → String × List CatalogRow
resolve_item_slug item_type source external_id proposed_slug links integrity_error rows =
    let (resolved, rows') =
      align_slugs_to_external_ids item_type source ((external_id, proposed_slug) ∷ []) links
        integrity_error rows in
    (or_default proposed_slug (slug_for external_id resolved), rows')

-- upsert_movie with the external id that its callers pass: the slug is resolved first.
unfoldable pub upsert_movie_by_id :
    Option String
    → String
    → List (String × Value)
    → List GenreData
    → List ExternalId
    → Bool
    → Catalog
    → Catalog
upsert_movie_by_id none slug given genres_data links integrity_error c =
    upsert_movie slug given genres_data c
upsert_movie_by_id (some x) slug given genres_data links integrity_error c =
    let (own_slug, rows') =
      resolve_item_slug "MOVIE" "TMDB" x slug links integrity_error c.rows.rows in
    if str_eq x "" || str_eq slug ""
    then upsert_movie slug given genres_data c
    else upsert_movie own_slug given genres_data
        (record c { rows = record (c.rows) { rows = rows' } })
