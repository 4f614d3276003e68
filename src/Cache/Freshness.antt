-- ===== src/Cache/Freshness.antt =====
-- The cache of backlogg/core/cache.py answers as its history says.
use backlogg.Prelude.{
  ℕ, List, [], ◌∷◌, Option, none, some, String, str_eq, ◌≡◌, refl, ap, ap₂, sym, ◌∙◌, arith, ◌+◌,
  ◌≤◌, leb, ltb, if◌then◌else◌, Bool-cases, inl, inr,
}
use text.Mathlib.TextEquality.{eq_iff}
use backlogg.Cache.{Store, read_entry, get, set, clear, Operation, run}

-- What a history, newest operation first, lets a read at `now` see: the last value that was written
-- under the key since the last wipe, while its lifetime lasts.
unfoldable pub served : {V : Type 0} → ℕ → String → List (ℕ × Operation V) → Option V
served now key [] = none
served now key ((at, Operation.read k) ∷ past) = served now key past
served now key ((at, Operation.write k value ttl) ∷ past) =
    if str_eq k key then (if ltb now (at + ttl) then some value else none) else served now key past
served now key ((at, Operation.wipe) ∷ past) = none

unfoldable pub answers :
    {V : Type 0} → List (ℕ × Operation V) → List (ℕ × Operation V) → List (Option V)
answers [] past = []
answers ((now, Operation.read key) ∷ ops) past =
    served now key past ∷ answers ops ((now, Operation.read key) ∷ past)
answers ((now, Operation.write key value ttl) ∷ ops) past =
    answers ops ((now, Operation.write key value ttl) ∷ past)
answers ((now, Operation.wipe) ∷ ops) past = answers ops ((now, Operation.wipe) ∷ past)

-- The operations come in order of time, from `last` on.
abbrev pub InOrder : {V : Type 0} → ℕ → List (ℕ × Operation V) → Type 0
InOrder last [] = Unit
InOrder last ((now, op) ∷ ops) = (last ≤ now) × InOrder now ops

module _ {V : Type 0} where
  -- What a read would make of an entry.
  unfoldable alive : ℕ → Option (ℕ × V) → Option V
  alive now none = none
  alive now (some (expires_at, value)) = if leb expires_at now then none else some value

  -- A store stands for a history when every later read of any key would see the same.
  Represents : ℕ → Store V → List (ℕ × Operation V) → Type 0
  Represents last store past =
      (now : ℕ) (key : String) → last ≤ now → alive now (store key) ≡ served now key past

  read_entry-alive :
      (now : ℕ) (key : String) (entry : Option (ℕ × V)) (store : Store V)
      → (read_entry now key entry store).0 ≡ alive now entry
  unfolding read_entry alive
  read_entry-alive now key none store = refl
  read_entry-alive now key (some (expires_at, value)) store = ground arith

  -- A read drops an entry only when no later read would see it.
  alive-read_entry :
      (now later : ℕ) (key k : String) (entry : Option (ℕ × V)) (store : Store V)
      → store key ≡ entry
      → now ≤ later
      → alive later ((read_entry now key entry store).1 k) ≡ alive later (store k)
  unfolding read_entry alive
  alive-read_entry now later key k none store e le = refl
  alive-read_entry now later key k (some (expires_at, value)) store e le =
      elim (Bool-cases (leb expires_at now)) [
        | inl old ↦ elim (Bool-cases (str_eq key k)) [
          | inl same ↦ rw (old, same, sym (ap store ((eq_iff key k).0 same)), e) (ground arith)
          | inr other ↦ rw (old, other) refl
        ]
        | inr new ↦ rw new refl
      ]

  module _ (now : ℕ) (key : String) where
    Represents-read :
        (past : List (ℕ × Operation V)) (last : ℕ) (store : Store V)
        → last ≤ now
        → Represents last store past
        → Represents now (get now key store).1 ((now, Operation.read key) ∷ past)
    unfolding Represents get served
    Represents-read past last store le r later k le' =
        alive-read_entry now later key k (store key) store refl le'
        ∙ r later k (omega (arith, le, le'))

    Represents-write :
        (value : V) (ttl : ℕ) (past : List (ℕ × Operation V)) (last : ℕ) (store : Store V)
        → last ≤ now
        → Represents last store past
        → Represents now (set now key value ttl store) ((now, Operation.write key value ttl) ∷ past)
    unfolding Represents set served alive
    Represents-write value ttl past last store le r later k le' =
        ground (arith, r later k (omega (arith, le, le')))

  Represents-wipe :
      (now : ℕ) (past : List (ℕ × Operation V)) (store : Store V)
      → Represents now (clear store) ((now, Operation.wipe) ∷ past)
  unfolding Represents clear served alive
  Represents-wipe now past store later k le = refl

  run-Represents :
      (ops past : List (ℕ × Operation V)) (last : ℕ) (store : Store V)
      → InOrder last ops
      → Represents last store past
      → run ops store ≡ answers ops past
  unfolding run answers get Represents
  run-Represents [] past last store order r = refl
  run-Represents ((now, Operation.read key) ∷ ops) past last store order r =
      ap₂ (λ o os. o ∷ os) (read_entry-alive now key (store key) store ∙ r now key order.0)
        (run-Represents ops _ now _ order.1 (Represents-read now key past last store order.0 r))
  run-Represents ((now, Operation.write key value ttl) ∷ ops) past last store order r =
      run-Represents ops _ now _ order.1
        (Represents-write now key value ttl past last store order.0 r)
  run-Represents ((now, Operation.wipe) ∷ ops) past last store order r =
      run-Represents ops _ now _ order.1 (Represents-wipe now past store)

-- A new cache answers each read of a run in order of time as the history of the run says: never a value past its lifetime,
-- never one that was overwritten or wiped, and always the last one otherwise.
pub run-eq-answers :
    {V : Type 0} (ops : List (ℕ × Operation V))
    → InOrder 0 ops
    → run ops (λ key. none) ≡ answers ops []
unfolding served alive Represents
run-eq-answers ops order = run-Represents ops [] 0 (λ key. none) order (λ now key le. refl)
