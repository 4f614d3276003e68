-- ===== src/Ratings/Freshness.antt =====
-- The invariant behind rating_internal and rating_count_internal: each item shows the average, to
-- the nearest hundredth, and the number of its visible scores.
use backlogg.Prelude.{
  ℕ, Bool, true, false, List, [], ◌∷◌, Option, none, some, ◌≡◌, refl, arith, ◌*◌, ◌<◌, length,
  update_where, any, All, inl, inr, Bool-cases, ap, ap₂, sym,
}
use backlogg.Db.Tables.{ItemType, same_type, Item, User, UserRating, Db, eq_of_same_type}
use backlogg.Ratings.Rounding.{round_half_even, round_half_up, sum, average}
use backlogg.Ratings.Aggregates.{
  visible_scores, with_aggregates, is_item, recalculate_item_aggregates,
  recalculate_item_aggregates_batch,
}
use backlogg.Ratings.Ties.{IsNearest, round_half_even-IsNearest, round_half_up-IsNearest}
use backlogg.Ratings.Scores.{is_key}
use backlogg.Ratings.Batch.{refreshed}
use backlogg.Ratings.Agreement.{is_listed, recalculate_batch_lem}

-- The shown rating, in hundredths, is a nearest one to the average of the scores, in tenths.
abbrev pub IsAverage : List ℕ → Option ℕ → Type 0
IsAverage [] none = Unit
IsAverage [] (some v) = ⊥
IsAverage (s ∷ ss) none = ⊥
IsAverage (s ∷ ss) (some v) = IsNearest (10 * sum (s ∷ ss)) (length (s ∷ ss)) v

pub record IsFresh (users : List User) (ratings : List UserRating) (it : Item) : Type 0 where
  pub rating : IsAverage (visible_scores users it.item_type it.id ratings) it.rating_internal
  pub count : it.rating_count_internal ≡ length (visible_scores users it.item_type it.id ratings)

abbrev pub HasFreshAggregates : Db → Type 0
HasFreshAggregates d = All (IsFresh d.users.rows d.user_ratings.rows) d.items

average-IsAverage :
    (round : ℕ → ℕ → ℕ)
    → ((p q : ℕ) → 0 < q → IsNearest p q (round p q))
    → (ss : List ℕ) → IsAverage ss (average round ss)
unfolding average sum
average-IsAverage round nearest [] = tt
average-IsAverage round nearest (s ∷ ss) =
    nearest (10 * sum (s ∷ ss)) (length (s ∷ ss)) (omega arith)

module _ (users users' : List User) (ratings ratings' : List UserRating) where
  -- The two states show the item the same scores.
  abbrev pub Agree : ItemType → ℕ → Type 0
  Agree t i = visible_scores users' t i ratings' ≡ visible_scores users t i ratings

  keep-IsFresh :
      (it : Item) → Agree it.item_type it.id → IsFresh users ratings it → IsFresh users' ratings' it
  keep-IsFresh it same fresh = record { rating = rw same fresh.rating; count = rw same fresh.count }

  pub keep-All-IsFresh :
      (items : List Item)
      → ((t : ItemType) (i : ℕ) → Agree t i)
      → All (IsFresh users ratings) items
      → All (IsFresh users' ratings') items
  keep-All-IsFresh [] same fresh = tt
  keep-All-IsFresh (it ∷ items) same fresh =
      (keep-IsFresh it (same it.item_type it.id) fresh.0, keep-All-IsFresh items same fresh.1)

  -- Items that pass `p` are recomputed by `f`; the others see the same scores as before.
  update_where-IsFresh :
      (p : Item → Bool) (f : Item → Item) (items : List Item)
      → ((it : Item) → p it ≡ true → IsFresh users' ratings' (f it))
      → ((it : Item) → p it ≡ false → Agree it.item_type it.id)
      → All (IsFresh users ratings) items
      → All (IsFresh users' ratings') (update_where p f items)
  unfolding update_where
  update_where-IsFresh p f [] recomputed same fresh = tt
  update_where-IsFresh p f (it ∷ items) recomputed same fresh = elim (Bool-cases (p it)) [
    | inl e ↦ rw e (recomputed it e, update_where-IsFresh p f items recomputed same fresh.1)
    | inr e ↦ rw e (
      keep-IsFresh it (same it e) fresh.0,
      update_where-IsFresh p f items recomputed same fresh.1,
    )
  ]

module _ (d d' : Db) where
  -- Nothing but the scores of some items has changed since the aggregates were fresh.
  abbrev pub AgreeOutside : (ItemType → ℕ → Bool) → Type 0
  AgreeOutside inside =
      (t : ItemType) (i : ℕ)
      → inside t i ≡ false
      → Agree d.users.rows d'.users.rows d.user_ratings.rows d'.user_ratings.rows t i

  pub recalculate-HasFreshAggregates :
      (item_type : ItemType) (item_id : ℕ)
      → d'.items ≡ d.items
      → AgreeOutside (is_key item_type item_id)
      → HasFreshAggregates d
      → HasFreshAggregates (recalculate_item_aggregates item_type item_id d')
  unfolding recalculate_item_aggregates is_item
  recalculate-HasFreshAggregates item_type item_id items same fresh =
      let ss = visible_scores d'.users.rows item_type item_id d'.user_ratings.rows in
      rw items (
        update_where-IsFresh d.users.rows d'.users.rows d.user_ratings.rows d'.user_ratings.rows
          (is_item item_type item_id) (with_aggregates round_half_even ss) d.items
          (λ it own. recomputed it own) (λ it other. same it.item_type it.id other) fresh)
    where
      recomputed :
          (it : Item)
          → is_item item_type item_id it ≡ true
          → IsFresh d'.users.rows d'.user_ratings.rows (
              with_aggregates round_half_even
                (visible_scores d'.users.rows item_type item_id d'.user_ratings.rows)
                it)
      recomputed it own =
          let typed : same_type it.item_type item_type ≡ true = ground arith in
          let t = eq_of_same_type it.item_type item_type typed in
          let i : it.id ≡ item_id = ground arith in
          let at : visible_scores d'.users.rows it.item_type it.id d'.user_ratings.rows
              ≡ visible_scores d'.users.rows item_type item_id d'.user_ratings.rows =
            ap₂ (λ u j. visible_scores d'.users.rows u j d'.user_ratings.rows) t i in
          record {
            rating = rw at (
                average-IsAverage round_half_even round_half_even-IsNearest
                  (visible_scores d'.users.rows item_type item_id d'.user_ratings.rows));
            count = sym (ap length at);
          }

  pub recalculate_batch-HasFreshAggregates :
      (listed : List (ItemType × ℕ))
      → d'.items ≡ d.items
      → AgreeOutside (λ t i. any (λ k. is_key k.0 k.1 t i) listed)
      → HasFreshAggregates d
      → HasFreshAggregates (recalculate_item_aggregates_batch listed d')
  unfolding is_item
  recalculate_batch-HasFreshAggregates listed items same fresh =
      rw (recalculate_batch_lem listed d', items)
        (update_where-IsFresh d.users.rows d'.users.rows d.user_ratings.rows d'.user_ratings.rows
          (is_listed listed) (refreshed d'.users.rows d'.user_ratings.rows) d.items
          (λ it own. record {
            rating =
                average-IsAverage round_half_up round_half_up-IsNearest
                  (visible_scores d'.users.rows it.item_type it.id d'.user_ratings.rows);
            count = refl;
          })
          (λ it other. same it.item_type it.id other) fresh)
