-- ===== src/Writer.antt =====
-- The batched writes of backlogg/scheduler/jobs.py: _write_items_individually, _write_batch and BatchWriter.
-- A session is a value, so rollback_quietly is the session from before the failed step, and none is an
-- exception. What the step writes is an argument: the bulk load, one item's upsert with its link, and the
-- people of an item.
pub mod Accounting
pub mod Chunks
use backlogg.Prelude.{
  ℕ, zero, suc, Bool, true, false, List, [], ◌∷◌, ◌++◌, Option, none, some, String, str_eq, ◌+◌,
  leb, if◌then◌else◌, length,
}
use Prim.Native.Nat.{max}

-- The slug is the text "" where the payload has none.
pub record BulkItem (Payload Person : Type 0) : Type 0 where
  pub slug : String
  pub payload : Payload
  pub external_id : Option String
  pub people : List Person

pub record WriteCounts : Type 0 where
  pub synced : ℕ
  pub errors : ℕ
  pub people_errors : ℕ

abbrev pub add_counts : WriteCounts → WriteCounts → WriteCounts
add_counts c d = record {
  synced = c.synced + d.synced;
  errors = c.errors + d.errors;
  people_errors = c.people_errors + d.people_errors;
}

pub record BulkLoadResult : Type 0 where
  pub written : ℕ
  pub rejected : ℕ
  pub people_rejected : ℕ

-- What the writer calls: bulk_load_items, the body of the try for one item, and its people.
pub record WritePath (Session Payload Person : Type 0) : Type 0 where
  pub bulk_load_items : Session → List (BulkItem Payload Person) → Option (Session × BulkLoadResult)
  pub upsert_item : Session → BulkItem Payload Person → Option (Session × ℕ)
  pub persist_people : Session → ℕ → List Person → Option Session

module _ {Session Payload Person : Type 0} (path : WritePath Session Payload Person) where
  unfoldable pub write_people : Session → Option Session → Session × WriteCounts
  write_people s none = (s, record { synced = 1; errors = 0; people_errors = 1 })
  write_people s (some s') = (s', record { synced = 1; errors = 0; people_errors = 0 })

  unfoldable pub after_upsert : Session → List Person → Option (Session × ℕ) → Session × WriteCounts
  after_upsert s people none = (s, record { synced = 0; errors = 1; people_errors = 0 })
  after_upsert s [] (some (s', id)) = (s', record { synced = 1; errors = 0; people_errors = 0 })
  after_upsert s (p ∷ people) (some (s', id)) =
      write_people s' (path.persist_people s' id (p ∷ people))

  -- An item with no slug raises before it is written.
  unfoldable pub write_item : Session → BulkItem Payload Person → Session × WriteCounts
  write_item s item =
      if str_eq item.slug ""
      then (s, record { synced = 0; errors = 1; people_errors = 0 })
      else after_upsert s item.people (path.upsert_item s item)

  unfoldable pub write_items_individually :
      Session → List (BulkItem Payload Person) → Session × WriteCounts
  write_items_individually s [] = (s, record { synced = 0; errors = 0; people_errors = 0 })
  write_items_individually s (item ∷ items) =
      let (s', counts) = write_item s item in
      let (s'', rest) = write_items_individually s' items in (s'', add_counts counts rest)

  unfoldable pub after_bulk :
      Session
      → List (BulkItem Payload Person)
      → Option (Session × BulkLoadResult)
      → Session × WriteCounts
  after_bulk s items none = write_items_individually s items
  after_bulk s items (some (s', outcome)) = (
    s',
    record {
      synced = outcome.written;
      errors = outcome.rejected;
      people_errors = outcome.people_rejected;
    },
  )

  unfoldable pub write_batch : Session → List (BulkItem Payload Person) → Session × WriteCounts
  write_batch s [] = (s, record { synced = 0; errors = 0; people_errors = 0 })
  write_batch s (item ∷ items) = after_bulk s (item ∷ items) (path.bulk_load_items s (item ∷ items))

pub record BatchWriter (Session Payload Person : Type 0) : Type 0 where
  pub session : Session
  pub pending : List (BulkItem Payload Person)
  pub counts : WriteCounts

module _ {Session Payload Person : Type 0} (path : WritePath Session Payload Person) where
  unfoldable pub flush : BatchWriter Session Payload Person → BatchWriter Session Payload Person
  flush w =
      let (s, counts) = write_batch path w.session w.pending in
      record { session = s; pending = []; counts = add_counts w.counts counts }

  -- The settings' BULK_LOAD_BATCH_SIZE is the first argument.
  unfoldable pub add :
      ℕ
      → BulkItem Payload Person
      → BatchWriter Session Payload Person
      → BatchWriter Session Payload Person
  unfolding flush
  add batch_size item w =
      let w' = record w { pending = w.pending ++ item ∷ [] } in
      if leb (max 1 batch_size) (length w'.pending) then flush w' else w'
