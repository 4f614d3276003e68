-- ===== src/Incremental/Hydration.antt =====
-- What _hydrate_ids of backlogg/scheduler/jobs.py counts: each id is asked for once.
use backlogg.Prelude.{
  ℕ, true, List, [], ◌∷◌, Option, none, some, String, any, ◌≡◌, ◌≢◌, refl, arith, ◌+◌, ◌≤◌, length,
}
use text.Mathlib.TextEquality.{eq_iff}
use backlogg.Writer.{BatchWriter}
use backlogg.Writer.Accounting.{CountsBulk, accounted, flush-accounted, add-accounted}
use backlogg.Discovery.Gate.{Detail, ReleaseGate, Reason}
use backlogg.Discovery.Changes.{has}
use backlogg.Writer.Chunks.{in_chunks, in_chunks_inv}
use backlogg.Incremental.{
  HydrationSpec, Fetched, failed, absent, got, HydrationOutcome, Pass, gate_reason, hydrate_detail,
  hydrate_one, flush_pass, hydrate_id, hydrate_ids, no_outcome, new_writer,
}

abbrev failure : Fetched → ℕ
failure failed = 1
failure absent = 0
failure (got d) = 0

module _ (fetch_detail : String → Fetched) where
  -- The ids whose request raised.
  unfoldable pub failures : List String → ℕ
  failures [] = 0
  failures (id ∷ ids) = failure (fetch_detail id) + failures ids

  failure_zero : (f : Fetched) → failure f ≡ 0 → f ≢ failed
  failure_zero failed e = absurd (ground (arith, e))
  failure_zero absent e = cc
  failure_zero (got d) e = cc

  pub failures_zero :
      (ids : List String)
      → failures ids ≡ 0
      → (id : String) → has id ids ≡ true
      → fetch_detail id ≢ failed
  unfolding failures any
  failures_zero [] e id h = ground (arith, h)
  failures_zero (x ∷ ids) e id h = ground (
    arith,
    h,
    eq_iff x id,
    failure_zero (fetch_detail x) (omega (arith, e)),
    failures_zero ids (omega (arith, e)) id,
  )

module _ {S P Q : Type 0} (spec : HydrationSpec S P Q) where
  open spec use {path, batch_size, fetch_detail, map_detail}

  -- The rule of the loop, for what one id and one flush keep.
  pub hydrate_ids_inv :
      (gate : Option ReleaseGate) (today : ℕ) (Holds : List String → Pass spec → Type 0)
      → ((id : String) (ids : List String) (p : Pass spec)
          → Holds (id ∷ ids) p
          → Holds ids (hydrate_id spec gate today id p))
      → ((ids : List String) (p : Pass spec) → Holds ids p → Holds ids (flush_pass spec p))
      → (ids : List String) (p : Pass spec) → Holds ids p
      → Holds []
          (in_chunks batch_size (hydrate_id spec gate today) (flush_pass spec) (length ids) ids p)
  hydrate_ids_inv gate today Holds kept flushed ids p h =
      in_chunks_inv batch_size (hydrate_id spec gate today) (flush_pass spec) Holds kept flushed
        (length ids) ids p (omega arith) h

  hydrate_detail-errors :
      (id : String) (d : Detail) (r : Option Reason) (o : HydrationOutcome) (w : BatchWriter S P Q)
      → (hydrate_detail spec id d r (o, w)).0.fetch_errors ≡ o.fetch_errors
  unfolding hydrate_detail
  hydrate_detail-errors id d none o w = refl
  hydrate_detail-errors id d (some r) o w = refl

  hydrate_one-errors :
      (gate : Option ReleaseGate) (today : ℕ) (id : String) (f : Fetched) (o : HydrationOutcome)
      (w : BatchWriter S P Q)
      → (hydrate_one spec gate today id f (o, w)).0.fetch_errors ≡ o.fetch_errors + failure f
  unfolding hydrate_one
  hydrate_one-errors gate today id failed o w = omega arith
  hydrate_one-errors gate today id absent o w = omega arith
  hydrate_one-errors gate today id (got d) o w =
      omega (arith, hydrate_detail-errors id d (gate_reason spec gate d today) o w)

  -- Each request that raises is counted.
  pub hydrate_ids-errors :
      (gate : Option ReleaseGate) (today : ℕ) (ids : List String) (s : S)
      → (hydrate_ids spec gate today ids s).1.fetch_errors ≡ failures fetch_detail ids
  unfolding hydrate_ids failures
  hydrate_ids-errors gate today ids s =
      let counted =
        hydrate_ids_inv gate today
          (λ rest p. p.0.fetch_errors + failures fetch_detail rest ≡ failures fetch_detail ids)
          (λ id rest p h.
            omega (arith, h, hydrate_one-errors gate today id (fetch_detail id) p.0 p.1))
          (λ rest p h. h) ids (no_outcome spec (length ids), new_writer spec s) (omega arith) in
      omega (arith, counted)

  -- One id adds one to what is counted or waits.
  abbrev tally : Pass spec → ℕ
  tally (o, w) = o.fetch_errors + o.gone + o.gated_out + accounted path w

  hydrate_detail-tally :
      CountsBulk path
      → (id : String) (d : Detail) (r : Option Reason) (o : HydrationOutcome)
        (w : BatchWriter S P Q)
      → tally (hydrate_detail spec id d r (o, w)) ≤ tally (o, w) + 1
  unfolding hydrate_detail
  hydrate_detail-tally bulk id d none o w =
      omega (arith, add-accounted path bulk batch_size (map_detail id d) w)
  hydrate_detail-tally bulk id d (some r) o w = omega arith

  hydrate_one-tally :
      CountsBulk path
      → (gate : Option ReleaseGate) (today : ℕ) (id : String) (f : Fetched) (o : HydrationOutcome)
        (w : BatchWriter S P Q)
      → tally (hydrate_one spec gate today id f (o, w)) ≤ tally (o, w) + 1
  unfolding hydrate_one
  hydrate_one-tally bulk gate today id failed o w = omega arith
  hydrate_one-tally bulk gate today id absent o w = omega arith
  hydrate_one-tally bulk gate today id (got d) o w =
      hydrate_detail-tally bulk id d (gate_reason spec gate d today) o w

  -- Where the bulk load counts no item twice, a pass over the ids counts none twice: requests that raised,
  -- 404s, items that the gate rejects, items written and items that could not be written are no more than
  -- the ids together; and the requests that raised are counted one by one.
  pub hydrate_ids-tally :
      CountsBulk path
      → (gate : Option ReleaseGate) (today : ℕ) (ids : List String) (s : S)
      → (let o = (hydrate_ids spec gate today ids s).1 in
          (o.fetch_errors + o.gone + o.gated_out + (o.written + o.write_errors) ≤ length ids)
          × (o.fetch_errors ≡ failures fetch_detail ids))
  unfolding hydrate_ids
  hydrate_ids-tally bulk gate today ids s =
      let kept =
        hydrate_ids_inv gate today (λ rest p. tally p + length rest ≤ length ids)
          (λ id rest p h.
            omega (arith, h, hydrate_one-tally bulk gate today id (fetch_detail id) p.0 p.1))
          (λ rest p h. omega (arith, h, flush-accounted path bulk p.1)) ids
          (no_outcome spec (length ids), new_writer spec s) (omega arith) in
      (omega (arith, kept), hydrate_ids-errors gate today ids s)
