-- ===== src/Tests/Limits.antt =====
-- The rate limiter with three hits in ten seconds and a tick of a tenth of a second, the cache and the pacer.
use backlogg.Prelude.{
  ℕ, false, List, [], ◌∷◌, ◌≡◌, refl, arith, length, leb, ◌≤◌, ◌*◌, ◌+◌, some, none,
}
use backlogg.Cache.{read_entry, get, set, clear, Operation, run}
use backlogg.Cache.Freshness.{answers, run-eq-answers}
use backlogg.Pacing.{wait, starts}
use backlogg.Pacing.Spacing.{within, length-within-le}
use backlogg.RateLimit.{Check, slide, decide_hit, consume, let_through, let_keys_through}
use backlogg.RateLimit.Window.{IsChronological, admit, let_through-eq-admit_new}
use backlogg.RateLimit.Bound.{up_to}
use backlogg.RateLimit.Retry.{consume-retry_after}
use backlogg.RateLimit.Keys.{times_of, HasRate, let_keys_through-IsBounded}

abbrev times : List ℕ
times = 5 ∷ 20 ∷ 30 ∷ 44 ∷ 104 ∷ 106 ∷ 125 ∷ []

let_three_through : let_through 10 3 100 times [] ≡ 5 ∷ 20 ∷ 30 ∷ 106 ∷ 125 ∷ []
unfolding let_through consume decide_hit slide
let_three_through = refl

let_through-eq-admit_new_example : let_through 10 3 100 times [] ≡ admit 3 100 times []
let_through-eq-admit_new_example =
    let_through-eq-admit_new 10 3 100 times (omega arith) (ground arith)

abbrev auth_a : ℕ → Check
auth_a now = record { now = now; key = "auth:a"; limit = 3; window = 100 }

abbrev search_a : ℕ → Check
search_a now = record { now = now; key = "search_fallback:a"; limit = 1; window = 600 }

abbrev calls : List Check
calls = auth_a 5 ∷ search_a 6 ∷ auth_a 20 ∷ search_a 21 ∷ auth_a 30 ∷ auth_a 31 ∷ []

a_in_order : IsChronological (times_of "auth:a" calls)
unfolding times_of
a_in_order = ground arith

calls-HasRate : HasRate "auth:a" 3 100 calls
calls-HasRate = ground arith

let_keys_through-IsBounded_example :
    length (up_to 31 100 (times_of "auth:a" (let_keys_through 10 calls (λ k. [])))) ≤ 3
let_keys_through-IsBounded_example =
    let_keys_through-IsBounded 10 3 100 31 "auth:a" calls (omega arith) calls-HasRate a_in_order

full : (consume 10 44 3 100 (5 ∷ 20 ∷ 30 ∷ [])).0.allowed ≡ false
unfolding consume decide_hit slide
full = refl

consume-retry_after_example :
    let (result, hits) = consume 10 44 3 100 (5 ∷ 20 ∷ 30 ∷ []) in
    (1 ≤ result.retry_after)
    × ((consume 10 (44 + 7 * 10) 3 100 hits).0.allowed ≡ leb result.retry_after 7)
consume-retry_after_example =
    consume-retry_after 10 44 3 100 7 (5 ∷ 20 ∷ 30 ∷ []) (omega arith) (omega arith) (omega arith)
      full

abbrev operations : List (ℕ × Operation ℕ)
operations =
    (1, Operation.write "genres" 7 60)
    ∷ (5, Operation.read "genres")
    ∷ (6, Operation.read "trending")
    ∷ (61, Operation.read "genres")
    ∷ (62, Operation.write "genres" 8 60)
    ∷ (63, Operation.write "genres" 9 60)
    ∷ (64, Operation.read "genres")
    ∷ (65, Operation.wipe)
    ∷ (66, Operation.read "genres")
    ∷ []

reads : run operations (λ key. none) ≡ some 7 ∷ none ∷ none ∷ some 9 ∷ none ∷ []
unfolding run get set clear read_entry
reads = refl

run-eq-answers_example : run operations (λ key. none) ≡ answers operations []
run-eq-answers_example = run-eq-answers operations (ground arith)

paced : starts 10 (3 ∷ 4 ∷ 4 ∷ 40 ∷ []) 0 ≡ 3 ∷ 13 ∷ 23 ∷ 40 ∷ []
unfolding starts wait
paced = refl

length-within-le_example : length (within 10 4 2 (starts 10 (3 ∷ 4 ∷ 4 ∷ 40 ∷ []) 0)) ≤ 2
length-within-le_example = length-within-le 10 4 2 0 (3 ∷ 4 ∷ 4 ∷ 40 ∷ []) (omega arith)
