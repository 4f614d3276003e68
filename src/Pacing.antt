-- ===== src/Pacing.antt =====
-- The request pacer of backlogg/shared/pacing.py. Times are in ticks of the clock; a sleep lasts as long
-- as it was asked to.
pub mod Spacing
use backlogg.Prelude.{ℕ, zero, suc, List, [], ◌∷◌, ◌+◌, ◌-◌}
use Prim.Native.Nat.{max}

-- The time of the next free slot, and the delay of the caller.
unfoldable pub wait : ℕ → ℕ → ℕ → ℕ × ℕ
wait zero now next_at = (next_at, 0)
wait (suc rest) now next_at = let start = max now next_at in (start + suc rest, start - now)

-- The instants at which the requests of callers at the given times start.
unfoldable pub starts : ℕ → List ℕ → ℕ → List ℕ
starts min_interval [] next_at = []
starts min_interval (now ∷ times) next_at =
    let (next_at', delay) = wait min_interval now next_at in
    (now + delay) ∷ starts min_interval times next_at'
