-- ===== src/Tests/Similar.antt =====
-- The ranker on four candidates, with whole numbers for the floats and titles that end at a colon.
use backlogg.Prelude.{
  ℕ, zero, suc, List, [], ◌∷◌, none, some, ◌≡◌, refl, ◌-◌, ◌*◌, ltb, ◌==◌, ◌≤◌, length, String, map,
}
use Prim.Native.Nat.{max, min}
use Prim.Native.String.{slice, find}
use mathlib.Core.Option
use mathlib.Core.Option.{Option}
use mathlib.Core.List.{Permᴰ}
use backlogg.Ranking.{FloatOps, Candidate}
use backlogg.Ranking.Titles.{TitleOps, franchise_key, series_key, drop_article, long_enough}
use backlogg.Ranking.Diversity.{
  same_key, take_groups, count_repeats, pop, group_keys, ranks_before, insert, sorted, adjusted,
  best_index, pick_all, diversify,
}
use backlogg.Ranking.Quota.{
  is_cross, reserve, at_positions, count_chosen, fill, apply_cross_type_quota, rank_similar,
}
use backlogg.Ranking.Fairness.{IsSublist, available, rank_similar-IsFair}

abbrev whole_pow : ℕ → ℕ → ℕ
whole_pow n zero = 1
whole_pow n (suc k) = n * whole_pow n k

abbrev whole : FloatOps ℕ
whole = record {
  gt = λ m n. ltb n m;
  eq = λ m n. m == n;
  mul = λ m n. m * n;
  pow = whole_pow;
  sub = λ m n. m - n;
  max = max;
  zero = 0;
  one = 1;
  negative_infinity = 0;
}

abbrev colons : TitleOps
colons = record {
  strip = λ t. t;
  before_subtitle = λ t. slice t 0 (find t ":");
  blank_marks = λ t. t;
  drop_sequel_tail = λ t. t;
  lower_words = λ t. t;
}

abbrev candidate : String → ℕ → String → ℕ → Candidate ℕ
candidate item_type item_id title score = record {
  item_type = item_type;
  item_id = item_id;
  title = title;
  slug = title;
  poster_url = none;
  release_date = none;
  rating_external = none;
  rating_internal = none;
  score = score;
  creator_ids = [];
}

abbrev pool : List (Candidate ℕ)
pool =
    candidate "movie" 1 "the saga: one" 9
    ∷ candidate "movie" 2 "saga: two" 8
    ∷ candidate "movie" 3 "alone" 7
    ∷ candidate "book" 4 "other" 1
    ∷ []

the_saga : franchise_key colons "the saga: one" ≡ some "saga"
unfolding franchise_key series_key drop_article long_enough
the_saga = refl

abbrev page : Option (List (Candidate ℕ))
page = rank_similar whole colons "movie" pool 3 1 1

-- The second film of the saga gives way, and the book gets the reserved place.
ids_of_page : Option.map (map (λ c. c.item_id)) page ≡ some (1 ∷ 3 ∷ 4 ∷ [])
unfolding rank_similar diversify pick_all sorted insert ranks_before best_index adjusted group_keys
    count_repeats take_groups pop same_key franchise_key series_key drop_article long_enough
    apply_cross_type_quota reserve fill at_positions count_chosen is_cross Option.bind
ids_of_page = refl

rank_similar-IsFair_example :
    (out : List (Candidate ℕ)) × (diversified : List (Candidate ℕ)) × (page ≡ some out)
    × (diversify whole colons 1 pool ≡ some diversified)
    × Permᴰ diversified pool
    × IsSublist out diversified
    × (length out ≡ min 3 (length pool))
    × (min (min 1 3) (available "movie" pool) ≤ available "movie" out)
rank_similar-IsFair_example = rank_similar-IsFair "movie" whole colons pool 3 1 1
