-- ===== src/Cache.antt =====
-- The response cache of backlogg/core/cache.py. Times and lifetimes are in ticks of the clock.
pub mod Freshness
use backlogg.Prelude.{
  ℕ, Bool, List, [], ◌∷◌, Option, none, some, String, str_eq, ◌+◌, leb, if◌then◌else◌,
}

-- The dictionary of expiry and value, as a function of the key.
abbrev pub Store : Type 0 → Type 0
Store V = String → Option (ℕ × V)

module _ {V : Type 0} where
  abbrev pub put : String → Option (ℕ × V) → Store V → Store V
  put key entry store k = if str_eq key k then entry else store k

  unfoldable pub read_entry : ℕ → String → Option (ℕ × V) → Store V → Option V × Store V
  read_entry now key none store = (none, store)
  read_entry now key (some (expires_at, value)) store =
      if leb expires_at now then (none, put key none store) else (some value, store)

  unfoldable pub get : ℕ → String → Store V → Option V × Store V
  get now key store = read_entry now key (store key) store

  unfoldable pub set : ℕ → String → V → ℕ → Store V → Store V
  set now key value ttl_seconds store = put key (some (now + ttl_seconds, value)) store

  unfoldable pub clear : Store V → Store V
  clear store key = none

pub data Operation (V : Type 0) : Type 0 where
  read : String → Operation V
  write : String → V → ℕ → Operation V
  wipe : Operation V

-- The answers to the reads of a run.
unfoldable pub run : {V : Type 0} → List (ℕ × Operation V) → Store V → List (Option V)
run [] store = []
run ((now, Operation.read key) ∷ ops) store =
    let (answer, store') = get now key store in answer ∷ run ops store'
run ((now, Operation.write key value ttl) ∷ ops) store = run ops (set now key value ttl store)
run ((now, Operation.wipe) ∷ ops) store = run ops (clear store)
