-- ===== src/Identity/Aligning.antt =====
-- An item that is linked keeps its row: align_slugs_to_external_ids and resolve_item_slug of
-- backlogg/shared/identity.py, with the upsert that follows.
use backlogg.Prelude.{
  Bool, true, false, ◌&&◌, String, str_eq, List, [], ◌∷◌, map, Option, none, some, ◌==◌, ◌≡◌, refl,
  ap, ◌∙◌, arith, Bool-cases, inl, inr, find, filter, All,
}
use text.Mathlib.TextEquality.{eq_iff}
use backlogg.Prelude.Rows.{HasUniqueIds, All-map}
use backlogg.Catalog.{CatalogRow}
use backlogg.Identity.{
  ExternalId, LinkedRow, slug_for, wanted_of, join_row, of_source, linked_rows, is_safe, rename_all,
  resolved_slug, align_slugs_to_external_ids,
}
use backlogg.Identity.Owners.{HasUniqueSlugs, Lands}
use backlogg.Identity.Renames.{IsReady, rename_all-LandsResolved, rename_all-HasUniqueSlugs}
use backlogg.Identity.Joins.{HasUniqueLinks, Joined, linked_rows-Joined, linked_rows_unique}
use backlogg.Identity.Contests.{is_safe-HasUniqueTargets, Joined-Lands, Joined-IsReady}

-- The link of one external id of a source.
abbrev pub link_of : String → String → String → ExternalId → Bool
link_of item_type source x l = of_source item_type source l && str_eq l.external_id x

module _ (safe : LinkedRow → Bool) (renamed : List CatalogRow) where
  abbrev HasRow : LinkedRow → Type 0
  HasRow a = Lands renamed (resolved_slug safe a).1 a.item_id

  -- What is resolved for the other entries.
  join_row-other :
      (l : ExternalId) (x : String) (r : Option CatalogRow) (t : Option String)
      (rest : List LinkedRow)
      → str_eq l.external_id x ≡ false
      → All HasRow (join_row l r t rest)
      → (slug_for x (map (resolved_slug safe) (join_row l r t rest))
          ≡ slug_for x (map (resolved_slug safe) rest))
        × All HasRow rest
  unfolding join_row slug_for
  join_row-other l x none t rest ne h = (refl, h)
  join_row-other l x (some r) none rest ne h = (refl, h)
  join_row-other l x (some r) (some t) rest ne h = (ground (arith, ne), h.1)

  join_row-own :
      (l : ExternalId) (x : String) (r : CatalogRow) (t : String) (found : Option CatalogRow)
      (slug : Option String) (rest : List LinkedRow)
      → str_eq l.external_id x ≡ true
      → found ≡ some r
      → slug ≡ some t
      → All HasRow (join_row l found slug rest)
      → (s : String) × (slug_for x (map (resolved_slug safe) (join_row l found slug rest)) ≡ some s)
        × Lands renamed s l.item_id
  unfolding join_row slug_for
  join_row-own l x r t none slug rest own er et h = absurd (ground (arith, er))
  join_row-own l x r t (some r') none rest own er et h = absurd (ground (arith, et))
  join_row-own l x r t (some r') (some t') rest own er et h = (_, ground (arith, own), h.0)

  module _ (item_type source x target : String) (wanted : List (String × String))
      (rows : List CatalogRow) where
    resolved-Lands :
        (ls : List ExternalId) (l : ExternalId) (r : CatalogRow)
        → find (link_of item_type source x) ls ≡ some l
        → slug_for x wanted ≡ some target
        → find (λ y. y.id == l.item_id) rows ≡ some r
        → All HasRow (linked_rows item_type source wanted rows ls)
        → (s : String) × (slug_for x
              (map (resolved_slug safe) (linked_rows item_type source wanted rows ls))
            ≡ some s)
          × Lands renamed s l.item_id
    unfolding find linked_rows
    resolved-Lands [] l r el et er h = absurd (ground (arith, el))
    resolved-Lands (m ∷ ls) l r el et er h =
        let rest = linked_rows item_type source wanted rows ls in
        let row = find (λ y. y.id == m.item_id) rows in
        let slug = slug_for m.external_id wanted in
        elim (Bool-cases (of_source item_type source m)) [
          | inr f ↦ rw f (resolved-Lands ls l r (ground (arith, f, el)) et er (rw f at h))
          | inl t ↦ elim (Bool-cases (str_eq m.external_id x)) [
            | inl own ↦
                let same : m ≡ l = ground (arith, t, own, el) in
                let (s, e, (r', e', id)) =
                  join_row-own m x r target row slug rest own
                    (ap (λ k. find (λ y. y.id == k.item_id) rows) same ∙ er)
                    (ground (arith, own, eq_iff m.external_id x, ap (λ k. slug_for k wanted), et))
                    (rw t at h) in
                rw t (s, e, (r', e', id ∙ ap (λ k. k.item_id) same))
            | inr other ↦
                let (e, later) = join_row-other m x row slug rest other (rw t at h) in
                let (s, e', found) =
                  resolved-Lands ls l r (ground (arith, t, other, el)) et er later in
                rw t (s, e ∙ e', found)
          ]
        ]

module _ (item_type source : String) (proposed : List (String × String)) (links : List ExternalId)
    (integrity_error : Bool) (rows : List CatalogRow) where
  abbrev pub aligned : List (String × String) × List CatalogRow
  aligned = align_slugs_to_external_ids item_type source proposed links integrity_error rows

  -- A batch keeps the ids and the slugs of a table unique, whatever it proposes.
  pub align_slugs_to_external_ids-HasUniqueSlugs :
      HasUniqueIds (λ r. r.id) rows
      → HasUniqueSlugs rows
      → HasUniqueLinks links
      → HasUniqueIds (λ r. r.id) aligned.1 × HasUniqueSlugs aligned.1
  unfolding align_slugs_to_external_ids
  align_slugs_to_external_ids-HasUniqueSlugs ids slugs unique =
      let wanted = wanted_of proposed in
      let linked = linked_rows item_type source wanted rows links in
      let safe = is_safe wanted rows in
      let joined = linked_rows-Joined item_type source wanted rows links in
      let (own_ids, keys) = linked_rows_unique item_type source wanted rows links unique in
      elim (Bool-cases integrity_error) [
        | inl t ↦ rw t (ids, slugs)
        | inr f ↦ rw f (
            rename_all-HasUniqueSlugs safe linked rows own_ids
              (is_safe-HasUniqueTargets wanted rows linked keys joined)
              (All-map (Joined wanted rows) (IsReady safe rows) linked
                (Joined-IsReady wanted rows ids slugs) joined)
              ids slugs)
      ]

  -- Where an external id of the batch is linked to a row of the table and its payload proposes a slug, the
  -- batch resolves a slug for it, and after the batch that slug finds this row: whatever the other
  -- entries propose, and also when another writer took one of the slugs.
  pub align_slugs_to_external_ids-Lands :
      (x target : String) (l : ExternalId) (r : CatalogRow)
      → HasUniqueIds (λ r. r.id) rows
      → HasUniqueSlugs rows
      → HasUniqueLinks links
      → find (link_of item_type source x) links ≡ some l
      → find (λ y. y.id == l.item_id) rows ≡ some r
      → slug_for x (wanted_of proposed) ≡ some target
      → (s : String) × (slug_for x aligned.0 ≡ some s) × Lands aligned.1 s l.item_id
  unfolding align_slugs_to_external_ids
  align_slugs_to_external_ids-Lands x target l r ids slugs unique el er et =
      let wanted = wanted_of proposed in
      let linked = linked_rows item_type source wanted rows links in
      let safe = is_safe wanted rows in
      let joined = linked_rows-Joined item_type source wanted rows links in
      let (own_ids, keys) = linked_rows_unique item_type source wanted rows links unique in
      elim (Bool-cases integrity_error) [
        | inl t ↦ rw t (
            resolved-Lands (λ a. false) rows item_type source x target wanted rows links l r el et
              er
              (All-map (Joined wanted rows) (λ a. Lands rows a.current a.item_id) linked
                (Joined-Lands wanted rows ids slugs) joined))
        | inr f ↦ rw f (
            resolved-Lands safe (rename_all (filter safe linked) rows) item_type source x target
              wanted rows links l r el et er
              (rename_all-LandsResolved safe linked rows own_ids
                (is_safe-HasUniqueTargets wanted rows linked keys joined)
                (All-map (Joined wanted rows) (IsReady safe rows) linked
                  (Joined-IsReady wanted rows ids slugs) joined)))
      ]
