-- ===== src/RateLimit/Retry.antt =====
-- The Retry-After of backlogg/core/rate_limit.py.
use backlogg.Prelude.{
  ℕ, zero, suc, true, false, List, [], ◌∷◌, ◌≡◌, refl, arith, ◌+◌, ◌-◌, ◌*◌, ◌<◌, ◌≤◌, leb, length,
  inl, inr, ◌⊎◌, Bool-cases, sym, ap, ◌∙◌,
}
use backlogg.RateLimit.{slide, ceil_seconds, refusal, decide_hit, consume}
use Prim.Native.Nat.{max}
use native.Mathlib.Nat.{div-lt_iff_lt-mul}

-- The ceiling is the least number of seconds that covers the ticks.
leb-ceil_seconds :
    (second ticks d : ℕ) → 0 < second → leb (ceil_seconds second ticks) d ≡ leb ticks (d * second)
unfolding ceil_seconds
leb-ceil_seconds second ticks d pos =
    let (there, back) = div-lt_iff_lt-mul {k = second} {x = ticks + (second - 1)} {y = suc d} pos in
    ground (arith, there, back)

length-slide-le : (now window : ℕ) (hits : List ℕ) → length (slide now window hits) ≤ length hits
unfolding slide
length-slide-le now window [] = omega arith
length-slide-le now window (h ∷ hits) = ground (arith, length-slide-le now window hits)

-- What a slide leaves starts with a hit that is still in the window.
slide-head :
    (now window h : ℕ) (hits rest : List ℕ) → slide now window hits ≡ h ∷ rest → now < h + window
unfolding slide
slide-head now window h [] rest e = ground arith
slide-head now window h (k ∷ hits) rest e = ground (arith, slide-head now window h hits rest)

List-cases : (xs : List ℕ) → (xs ≡ []) ⊎ ((x : ℕ) × (rest : List ℕ) × (xs ≡ x ∷ rest))
List-cases [] = inl refl
List-cases (x ∷ rest) = inr (x, rest, refl)

-- A full deque turns the hit away until its oldest hit leaves the window, and no longer.
consume-full :
    (second now limit window h : ℕ) (rest : List ℕ)
    → 0 < limit
    → length (h ∷ rest) ≡ limit
    → (consume second now limit window (h ∷ rest)).0.allowed ≡ leb (h + window) now
unfolding consume decide_hit slide
consume-full second now limit window h rest pos full =
    ground (arith, length-slide-le now window rest)

-- The Retry-After is at least one, and the least number of seconds after which the oldest hit is gone.
max-ceil_seconds :
    (second ticks d : ℕ)
    → 0 < second
    → 0 < ticks
    → leb (max 1 (ceil_seconds second ticks)) d ≡ leb ticks (d * second)
max-ceil_seconds second ticks zero tick some_left = ground arith
max-ceil_seconds second ticks (suc d) tick some_left =
    ground (arith, leb-ceil_seconds second ticks (suc d) tick)

module _ (second now limit window h : ℕ) (hits rest : List ℕ) (e : slide now window hits ≡ h ∷ rest)
    (full : limit ≤ length (h ∷ rest)) where
  -- A check that finds a full deque keeps it.
  consume-refuses :
      consume second now limit window hits ≡ (refusal second now window (h ∷ rest), h ∷ rest)
  unfolding consume decide_hit
  consume-refuses = rw (e) (ground (arith, full))

consume-allows :
    (second now limit window : ℕ) (hits : List ℕ)
    → length (slide now window hits) < limit
    → (consume second now limit window hits).0.allowed ≡ true
unfolding consume decide_hit
consume-allows second now limit window hits room = ground (arith, room)

length-of_slide :
    (now window h : ℕ) (hits rest : List ℕ)
    → slide now window hits ≡ h ∷ rest
    → suc (length rest) ≤ length hits
length-of_slide now window h hits rest e = rw (ap length e) at (length-slide-le now window hits)

-- After a refusal of a key that holds no more hits than its limit, a hit d whole seconds later is let through exactly
-- if d is at least the Retry-After of the refusal, which is at least 1.
pub consume-retry_after :
    (second now limit window d : ℕ) (hits : List ℕ)
    → 0 < second
    → 0 < limit
    → length hits ≤ limit
    → (consume second now limit window hits).0.allowed ≡ false
    → let (result, hits') = consume second now limit window hits in
      (1 ≤ result.retry_after)
      × ((consume second (now + d * second) limit window hits').0.allowed
          ≡ leb result.retry_after d)
consume-retry_after second now limit window d hits tick pos few refused =
    elim (List-cases (slide now window hits)) [
      | inl none_left ↦ cc (refused, consume-allows second now limit window hits (rw none_left pos))
      | inr (h, rest, e) ↦ elim (Bool-cases (leb limit (length (h ∷ rest)))) [
        | inl full ↦
            rw (consume-refuses second now limit window h hits rest e (ground (arith, full))) (
              omega arith,
              consume-full second (now + d * second) limit window h rest pos
                    (ground (arith, full, few, length-of_slide now window h hits rest e))
                  ∙ sym (
                      max-ceil_seconds second (h + window - now) d tick
                        (ground (arith, slide-head now window h hits rest e))
                      ∙ ground (arith, slide-head now window h hits rest e)),
            )
        | inr room ↦
            cc (refused, consume-allows second now limit window hits (rw e (ground (arith, room))))
      ]
    ]
