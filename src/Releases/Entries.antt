-- ===== src/Releases/Entries.antt =====
-- The entries of a daily export of backlogg/scheduler/tmdb_exports.py: their order, and those that were answered.
use backlogg.Prelude.{
  Bool, true, ◌&&◌, ◌||◌, List, [], ◌∷◌, map, any, filter, String, str_eq, ◌≡◌, ◌≢◌, refl, arith,
  All,
}
use text.Mathlib.TextEquality.{eq_iff}
use backlogg.Discovery.Changes.{has}
use backlogg.Incremental.{Fetched, failed}
use backlogg.Releases.{ExportEntry, place_entry, sort_entries}

module _ {Float : Type 0} (before : ExportEntry Float → ExportEntry Float → Bool) where
  any-place_entry :
      (q : ExportEntry Float → Bool) (e : ExportEntry Float) (es : List (ExportEntry Float))
      → any q (place_entry before e es) ≡ (q e || any q es)
  unfolding any place_entry
  any-place_entry q e [] = refl
  any-place_entry q e (d ∷ ds) = ground (arith, any-place_entry q e ds)

  pub any-sort_entries :
      (q : ExportEntry Float → Bool) (es : List (ExportEntry Float))
      → any q (sort_entries before es) ≡ any q es
  unfolding any sort_entries
  any-sort_entries q [] = refl
  any-sort_entries q (e ∷ es) =
      ground (arith, any-place_entry q e (sort_entries before es), any-sort_entries q es)

pub any-filter_entries :
    {Float : Type 0} (p q : ExportEntry Float → Bool) (es : List (ExportEntry Float))
    → any q (filter p es) ≡ any (λ e. p e && q e) es
unfolding any filter
any-filter_entries p q [] = refl
any-filter_entries p q (e ∷ es) = ground (arith, any-filter_entries p q es)

pub has-map :
    {Float : Type 0} (id : String) (es : List (ExportEntry Float))
    → has id (map (λ e. e.external_id) es) ≡ any (λ e. str_eq e.external_id id) es
unfolding any
has-map id [] = refl
has-map id (e ∷ es) = ground (arith, has-map id es)

-- Each entry of a list that passes a test, from the ids of those that do.
abbrev pub Answered :
    {Float : Type 0}
    → (String → Fetched)
    → (ExportEntry Float → Bool)
    → List (ExportEntry Float)
    → Type 0
Answered fetch_detail p = All (λ e. p e ≡ true → fetch_detail e.external_id ≢ failed)

pub each-Answered :
    {Float : Type 0} (fetch_detail : String → Fetched) (p : ExportEntry Float → Bool)
    (es : List (ExportEntry Float))
    → ((id : String)
        → any (λ e. p e && str_eq e.external_id id) es ≡ true
        → fetch_detail id ≢ failed)
    → Answered fetch_detail p es
unfolding any
each-Answered fetch_detail p [] h = tt
each-Answered fetch_detail p (e ∷ es) h = (
  λ t. h e.external_id (ground (arith, t, eq_iff e.external_id e.external_id)),
  each-Answered fetch_detail p es (λ id a. h id (ground (arith, a))),
)
