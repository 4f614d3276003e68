-- ===== src/Writer/Accounting.antt =====
-- What the batched writes of backlogg/scheduler/jobs.py count, and where a failed batch ends.
use backlogg.Prelude.{
  ℕ, List, [], ◌∷◌, ◌++◌, Option, none, some, ◌≡◌, refl, arith, ◌+◌, ◌≤◌, length, length-append,
}
use backlogg.Writer.{
  BulkItem, BulkLoadResult, WritePath, write_people, after_upsert, write_item,
  write_items_individually, after_bulk, write_batch, BatchWriter, flush, add,
}

-- Each item that the bulk load takes is a row, a rejection, or the same row as another of the batch.
abbrev pub CountsBulk : {S P Q : Type 0} → WritePath S P Q → Type 0
CountsBulk {S} {P} {Q} path =
    (s : S) (items : List (BulkItem P Q)) (s' : S) (o : BulkLoadResult)
    → path.bulk_load_items s items ≡ some (s', o)
    → o.written + o.rejected ≤ length items

module _ {S P Q : Type 0} (path : WritePath S P Q) where
  write_people-counts :
      (s : S) (done : Option S)
      → ((write_people path s done).1.synced ≡ 1) × ((write_people path s done).1.errors ≡ 0)
  unfolding write_people
  write_people-counts s none = (refl, refl)
  write_people-counts s (some s') = (refl, refl)

  after_upsert-counts :
      (s : S) (people : List Q) (done : Option (S × ℕ))
      → (after_upsert path s people done).1.synced + (after_upsert path s people done).1.errors ≡ 1
  unfolding after_upsert
  after_upsert-counts s people none = refl
  after_upsert-counts s [] (some (s', id)) = refl
  after_upsert-counts s (q ∷ people) (some (s', id)) =
      omega (arith, write_people-counts s' (path.persist_people s' id (q ∷ people)))

  write_item-counts :
      (s : S) (item : BulkItem P Q)
      → (write_item path s item).1.synced + (write_item path s item).1.errors ≡ 1
  unfolding write_item
  write_item-counts s item =
      ground (arith, after_upsert-counts s item.people (path.upsert_item s item))

  -- One at a time, each item is either synced or an error.
  pub write_items_individually-counts :
      (s : S) (items : List (BulkItem P Q))
      → (write_items_individually path s items).1.synced
          + (write_items_individually path s items).1.errors
        ≡ length items
  unfolding write_items_individually
  write_items_individually-counts s [] = refl
  write_items_individually-counts s (item ∷ items) = omega (
    arith,
    write_item-counts s item,
    write_items_individually-counts (write_item path s item).0 items,
  )

  after_bulk-counts :
      (s : S) (items : List (BulkItem P Q)) (done : Option (S × BulkLoadResult))
      → ((s' : S) (o : BulkLoadResult)
          → done ≡ some (s', o)
          → o.written + o.rejected ≤ length items)
      → (after_bulk path s items done).1.synced + (after_bulk path s items done).1.errors
        ≤ length items
  unfolding after_bulk
  after_bulk-counts s items none h = omega (arith, write_items_individually-counts s items)
  after_bulk-counts s items (some (s', o)) h = h s' o refl

  pub write_batch-counts :
      CountsBulk path
      → (s : S) (items : List (BulkItem P Q))
      → (write_batch path s items).1.synced + (write_batch path s items).1.errors ≤ length items
  unfolding write_batch
  write_batch-counts bulk s [] = omega arith
  write_batch-counts bulk s (item ∷ items) =
      after_bulk-counts s (item ∷ items) (path.bulk_load_items s (item ∷ items))
        (bulk s (item ∷ items))

  -- What was counted and what waits, together.
  abbrev pub accounted : BatchWriter S P Q → ℕ
  accounted w = w.counts.synced + w.counts.errors + length w.pending

  pub flush-accounted :
      CountsBulk path → (w : BatchWriter S P Q) → accounted (flush path w) ≤ accounted w
  unfolding flush
  flush-accounted bulk w = omega (arith, write_batch-counts bulk w.session w.pending)

  pub add-accounted :
      CountsBulk path
      → (batch_size : ℕ) (item : BulkItem P Q) (w : BatchWriter S P Q)
      → accounted (add path batch_size item w) ≤ accounted w + 1
  unfolding add
  add-accounted bulk batch_size item w =
      let w' = record w { pending = w.pending ++ item ∷ [] } in
      ground (arith, flush-accounted bulk w', length-append w.pending (item ∷ []))
