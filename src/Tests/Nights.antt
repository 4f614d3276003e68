-- ===== src/Tests/Nights.antt =====
-- Two targets of films, of which one is gone and one never links, worked off in nights of one target.
use backlogg.Prelude.{
  ℕ, Bool, false, List, [], ◌∷◌, none, some, String, str_eq, ◌≡◌, ◌≢◌, refl, arith, ◌+◌, ◌*◌, ◌≤◌,
  find, any, length, if◌then◌else◌,
}
use backlogg.Prelude.Counts.{count}
use backlogg.Writer.{BulkItem, WritePath}
use backlogg.Seeding.{
  SeedTarget, SeedSpec, SeedFetched, failed, absent, got, SeedState, unlinked,
  count_seed_target_progress, sync_tmdb_type,
}
use backlogg.Seeding.Convergence.{nights, nights-count_seed_target_progress}
use backlogg.Seeding.Outage.{named, sync_tmdb_type-named}

-- A session is the ids that are linked, and no item of this source links.
abbrev write_path : WritePath (List String) (Unit {0}) (Unit {0})
write_path = record {
  bulk_load_items =
      λ s items. some (s, record { written = length items; rejected = 0; people_rejected = 0 });
  upsert_item = λ s item. some (s, 1);
  persist_people = λ s n people. some s;
}

abbrev linked : List String → String → String → String → Bool
linked s item_type source id = any (λ x. str_eq x id) s

abbrev stale : List String → ℕ → List String
stale s n = []

abbrev spec_of : ℕ → SeedSpec (List String) (Unit {0}) (Unit {0})
spec_of size = record {
  path = write_path;
  linked = linked;
  stale = stale;
  item_type = "MOVIE";
  source = "TMDB";
  max_attempts = 3;
  batch_size = 2;
  size = size;
}

abbrev target : ℕ → String → SeedTarget
target id external_id = record {
  id = id;
  item_type = "MOVIE";
  source = "TMDB";
  external_id = external_id;
  vote_count = some (100 + id);
  attempts = 0;
  unreachable_at = none;
  last_attempt_at = none;
}

abbrev start : SeedState (List String)
start = record { targets = target 1 "603" ∷ target 2 "604" ∷ []; session = "9" ∷ [] }

abbrev item : String → BulkItem (Unit {0}) (Unit {0})
item id = record { slug = id; payload = tt; external_id = some id; people = [] }

abbrev fetches : ℕ → String → SeedFetched (Unit {0}) (Unit {0})
fetches k id = if str_eq id "603" then absent else got (item id)

fetches-answer : (k : ℕ) (id : String) → fetches k id ≢ failed
fetches-answer k id = ground arith

nights-count_seed_target_progress_example :
    (k : ℕ) × (k ≤ 3 * length start.targets)
    × (let st' = nights (spec_of 1) fetches (λ k. 100 + k) k start in
        let progress = count_seed_target_progress linked "MOVIE" "TMDB" 3 st' in
        (progress.pending ≡ 0)
        × (count (unlinked linked "MOVIE" "TMDB" 3 st'.session) st'.targets
            ≡ progress.gone + progress.unlinkable))
nights-count_seed_target_progress_example =
    nights-count_seed_target_progress (spec_of 1) fetches (λ k. 100 + k) start (omega arith)
      fetches-answer

abbrev down : String → SeedFetched (Unit {0}) (Unit {0})
down id = if str_eq id "604" then failed else absent

sync_tmdb_type-named_example :
    (let st' = (sync_tmdb_type (spec_of 2) down 7 false false false start).0 in
      find (named "MOVIE" "TMDB" "604") st'.targets
      ≡ find (named "MOVIE" "TMDB" "604") start.targets)
sync_tmdb_type-named_example =
    sync_tmdb_type-named (spec_of 2) down 7 false false false start "MOVIE" "TMDB" "604" refl
