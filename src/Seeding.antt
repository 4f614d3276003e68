-- ===== src/Seeding.antt =====
-- The target list of backlogg/scheduler/repository.py (seed_targets) and the nightly slice of
-- backlogg/scheduler/jobs.py that works it off: _sync_tmdb_type. Session and write path are those of Writer.
-- Whether a link of external_ids reaches a live item, the items by last_synced_at and the fetch of an item
-- are arguments, and so is whether the database raises where the job goes on without it.
pub mod Measure
pub mod Convergence
pub mod Outage
use backlogg.Prelude.{
  ℕ, zero, suc, Bool, true, false, not, ◌&&◌, ◌||◌, ◌==◌, List, [], ◌∷◌, ◌++◌, map, Option, none,
  some, String, str_eq, any, filter, update_where, ◌+◌, ◌-◌, ltb, leb, if◌then◌else◌, length,
}
use backlogg.Prelude.Counts.{count}
use Prim.Native.Nat.{max}
use backlogg.Writer
use backlogg.Writer.Chunks.{take, in_chunks}
use backlogg.Writer.{BulkItem, WriteCounts, WritePath, BatchWriter}

pub record SeedTarget : Type 0 where
  pub id : ℕ
  pub item_type : String
  pub source : String
  pub external_id : String
  pub vote_count : Option ℕ
  pub attempts : ℕ
  pub unreachable_at : Option ℕ
  pub last_attempt_at : Option ℕ

abbrev pub is_some {ℓ} : {A : Type ℓ} → Option A → Bool
is_some none = false
is_some (some a) = true

abbrev pub in_list : List String → String → Bool
in_list ids id = any (λ i. str_eq i id) ids

abbrev pub of_type : String → String → SeedTarget → Bool
of_type item_type source t = str_eq t.item_type item_type && str_eq t.source source

unfoldable pub retired : ℕ → SeedTarget → Bool
retired max_attempts t = is_some t.unreachable_at || leb max_attempts t.attempts

-- ORDER BY attempts, vote_count DESC NULLS LAST, id
abbrev pub more_votes : Option ℕ → Option ℕ → Bool
more_votes none b = false
more_votes (some a) none = true
more_votes (some a) (some b) = ltb b a

unfoldable pub target_before : SeedTarget → SeedTarget → Bool
target_before a b =
    ltb a.attempts b.attempts
    || a.attempts == b.attempts
      && (more_votes a.vote_count b.vote_count
          || not (more_votes b.vote_count a.vote_count) && ltb a.id b.id)

unfoldable pub place : SeedTarget → List SeedTarget → List SeedTarget
place t [] = t ∷ []
place t (u ∷ us) = if target_before u t then u ∷ place t us else t ∷ u ∷ us

unfoldable pub order_targets : List SeedTarget → List SeedTarget
order_targets [] = []
order_targets (t ∷ ts) = place t (order_targets ts)

unfoldable pub mark_seed_targets_attempted :
    String → String → List String → ℕ → List SeedTarget → List SeedTarget
mark_seed_targets_attempted item_type source ids now =
    update_where (λ t. of_type item_type source t && in_list ids t.external_id)
      (λ t. record t { attempts = t.attempts + 1; last_attempt_at = some now })

unfoldable pub mark_seed_targets_unreachable :
    String → String → List String → ℕ → List SeedTarget → List SeedTarget
mark_seed_targets_unreachable item_type source ids now =
    update_where (λ t. of_type item_type source t && in_list ids t.external_id)
      (λ t. record t { unreachable_at = some now; last_attempt_at = some now })

pub record SeedTargetProgress : Type 0 where
  pub total : ℕ
  pub pending : ℕ
  pub gone : ℕ
  pub unlinkable : ℕ

-- What a fetch of one item ends in: an exception, a 404 or the item.
pub data SeedFetched (Payload Person : Type 0) : Type 0 where
  failed : SeedFetched Payload Person
  absent : SeedFetched Payload Person
  got : BulkItem Payload Person → SeedFetched Payload Person

pub record SeedResult : Type 0 where
  pub synced : ℕ
  pub errors : ℕ
  pub people_errors : ℕ
  pub pending : Option ℕ
  pub stuck : Option ℕ
  pub refreshed : ℕ

-- The targets, and the session that has the catalog.
pub record SeedState (S : Type 0) : Type 0 where
  pub targets : List SeedTarget
  pub session : S

module _ {S : Type 0} (linked : S → String → String → String → Bool) (item_type source : String)
    (max_attempts : ℕ) where
  -- _unlinked_targets_stmt
  unfoldable pub unlinked : S → SeedTarget → Bool
  unlinked s t = of_type item_type source t && not (linked s item_type source t.external_id)

  unfoldable pub workable : S → SeedTarget → Bool
  workable s t = unlinked s t && not (retired max_attempts t)

  unfoldable pub count_seed_target_progress : SeedState S → SeedTargetProgress
  count_seed_target_progress st = record {
    total = count (of_type item_type source) st.targets;
    pending = count (workable st.session) st.targets;
    gone = count (λ t. unlinked st.session t && is_some t.unreachable_at) st.targets;
    unlinkable =
        count
          (λ t.
            unlinked st.session t && not (is_some t.unreachable_at) && leb max_attempts t.attempts)
          st.targets;
  }

  unfoldable pub get_pending_seed_targets : SeedState S → ℕ → List String
  get_pending_seed_targets st limit =
      map (λ t. t.external_id)
        (take limit (order_targets (filter (workable st.session) st.targets)))

-- What a slice has so far.
pub record SeedPass (S Payload Person : Type 0) : Type 0 where
  pub errors : ℕ
  pub resolved : List String
  pub gone : List String
  pub writer : BatchWriter S Payload Person

-- What the spec of a type and the settings give a slice; which ids are linked, and the stale items, are read off the session.
pub record SeedSpec (S Payload Person : Type 0) : Type 0 where
  pub path : WritePath S Payload Person
  pub linked : S → String → String → String → Bool
  pub stale : S → ℕ → List String
  pub item_type : String
  pub source : String
  pub max_attempts : ℕ
  pub batch_size : ℕ
  pub size : ℕ

module _ {S Payload Person : Type 0} (spec : SeedSpec S Payload Person) where
  open spec use {path, linked, stale, item_type, source, max_attempts, batch_size, size}

  unfoldable pub seed_one :
      List String
      → String
      → SeedFetched Payload Person
      → SeedPass S Payload Person
      → SeedPass S Payload Person
  seed_one pending id failed p = record p { errors = p.errors + 1 }
  seed_one pending id absent p =
      if in_list pending id then record p { gone = p.gone ++ id ∷ [] } else p
  seed_one pending id (got item) p =
      let p' = if in_list pending id then record p { resolved = p.resolved ++ id ∷ [] } else p in
      record p' { writer = Writer.add path batch_size item p.writer }

  abbrev pub flush_seed : SeedPass S Payload Person → SeedPass S Payload Person
  flush_seed p = record p { writer = Writer.flush path p.writer }

  abbrev pub new_pass : S → SeedPass S Payload Person
  new_pass s = record {
    errors = 0;
    resolved = [];
    gone = [];
    writer = record {
      session = s;
      pending = [];
      counts = record { synced = 0; errors = 0; people_errors = 0 };
    };
  }

  -- A failure to stamp leaves the targets as they were.
  unfoldable pub stamp_seed_outcomes :
      Bool → ℕ → List String → List String → List SeedTarget → List SeedTarget
  stamp_seed_outcomes raises now resolved gone targets =
      if raises
      then targets
      else mark_seed_targets_unreachable item_type source gone now
          (mark_seed_targets_attempted item_type source resolved now targets)

  unfoldable pub hydrate_slice :
      (String → SeedFetched Payload Person)
      → List String
      → List String
      → S
      → SeedPass S Payload Person
  hydrate_slice fetch pending work s =
      in_chunks batch_size (λ id. seed_one pending id (fetch id)) flush_seed (length work) work
        (new_pass s)

  -- The pending targets of a slice, and the items to refresh in what is left of it.
  unfoldable pub read_seed_work_list : SeedState S → List String × List String
  read_seed_work_list st =
      let pending = get_pending_seed_targets linked item_type source max_attempts st size in
      (pending, if ltb (length pending) size then stale st.session (size - length pending) else [])

  abbrev pub seed_result : SeedPass S Payload Person → SeedTargetProgress → ℕ → SeedResult
  seed_result p progress refreshed = record {
    synced = p.writer.counts.synced;
    errors = p.errors + p.writer.counts.errors;
    people_errors = p.writer.counts.people_errors;
    pending = some progress.pending;
    stuck = some (progress.gone + progress.unlinkable);
    refreshed = refreshed;
  }

  -- The three arguments after the clock say whether the reading, the stamping and the recount raise.
  unfoldable pub sync_tmdb_type :
      (String → SeedFetched Payload Person)
      → ℕ
      → Bool
      → Bool
      → Bool
      → SeedState S
      → SeedState S × SeedResult
  sync_tmdb_type fetch now read_raises stamp_raises recount_raises st =
      let progress = count_seed_target_progress linked item_type source max_attempts st in
      let (pending, refresh) = read_seed_work_list st in
      let p = hydrate_slice fetch pending (pending ++ refresh) st.session in
      let st' : SeedState S = record {
        targets = stamp_seed_outcomes stamp_raises now p.resolved p.gone st.targets;
        session = p.writer.session;
      } in
      let after =
        if recount_raises
        then progress
        else count_seed_target_progress linked item_type source max_attempts st' in
      if read_raises
      then (
        st,
        record {
          synced = 0;
          errors = 1;
          people_errors = 0;
          pending = none;
          stuck = none;
          refreshed = 0;
        },
      )
      else (st', seed_result p after (length refresh))
