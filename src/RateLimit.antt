-- ===== src/RateLimit.antt =====
-- The sliding-window limiter of backlogg/core/rate_limit.py. Times are counted in ticks of the clock, `second` of them in a second.
pub mod Window
pub mod Bound
pub mod Retry
pub mod Keys
use backlogg.Prelude.{
  ℕ, suc, Bool, true, false, List, [], ◌∷◌, ◌++◌, ◌+◌, ◌-◌, ◌*◌, ◌/◌, ltb, leb, if◌then◌else◌,
  length, String, str_eq,
}
use Prim.Native.Nat.{max}

pub record RateLimitResult : Type 0 where
  pub allowed : Bool
  pub retry_after : ℕ

-- `while hits and hits[0] <= now - window_seconds: hits.popleft()`
unfoldable pub slide : ℕ → ℕ → List ℕ → List ℕ
slide now window [] = []
slide now window (h ∷ hits) = if leb (h + window) now then slide now window hits else h ∷ hits

-- math.ceil of a number of ticks, in seconds
unfoldable pub ceil_seconds : ℕ → ℕ → ℕ
ceil_seconds second ticks = (ticks + (second - 1)) / second

abbrev pub oldest : List ℕ → ℕ
oldest [] = 0
oldest (h ∷ hits) = h

abbrev pub refusal : ℕ → ℕ → ℕ → List ℕ → RateLimitResult
refusal second now window hits = record {
  allowed = false;
  retry_after = max 1 (ceil_seconds second (oldest hits + window - now));
}

-- The decision on the hits that are still in the window.
unfoldable pub decide_hit : ℕ → ℕ → ℕ → ℕ → List ℕ → RateLimitResult × List ℕ
decide_hit second now limit window hits =
    if leb limit (length hits)
    then (refusal second now window hits, hits)
    else (record { allowed = true; retry_after = 0 }, hits ++ (now ∷ []))

unfoldable pub consume : ℕ → ℕ → ℕ → ℕ → List ℕ → RateLimitResult × List ℕ
consume second now limit window hits = decide_hit second now limit window (slide now window hits)

-- The deques by key: a `defaultdict` has the empty one where nothing was stored.
abbrev pub Hits : Type 0
Hits = String → List ℕ

abbrev pub store : String → List ℕ → Hits → Hits
store key hits all k = if str_eq key k then hits else all k

unfoldable pub check : ℕ → ℕ → String → ℕ → ℕ → Hits → RateLimitResult × Hits
check second now key limit window all =
    let (r, hits) = consume second now limit window (all key) in (r, store key hits all)

-- Checks of one key at the given times: those that are let through.
unfoldable pub let_through : ℕ → ℕ → ℕ → List ℕ → List ℕ → List ℕ
let_through second limit window [] hits = []
let_through second limit window (now ∷ times) hits =
    let (r, hits') = consume second now limit window hits in
    let rest = let_through second limit window times hits' in if r.allowed then now ∷ rest else rest

-- A call of check, at the time of the clock.
pub record Check : Type 0 where
  pub now : ℕ
  pub key : String
  pub limit : ℕ
  pub window : ℕ

-- Checks one after the other, each with its own key and rate: those that are let through.
unfoldable pub let_keys_through : ℕ → List Check → Hits → List Check
let_keys_through second [] all = []
let_keys_through second (c ∷ calls) all =
    let (r, all') = check second c.now c.key c.limit c.window all in
    let rest = let_keys_through second calls all' in if r.allowed then c ∷ rest else rest
