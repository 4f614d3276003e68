-- ===== src/Ratings/Divergence.antt =====
-- recalculate_item_aggregates_batch says that it has the semantics of recalculate_item_aggregates.
-- It rounds in the database, the other in Python: the results differ exactly at the even ties.
use backlogg.Prelude.{
  ℕ, true, List, [], ◌∷◌, some, ◌≡◌, ◌≢◌, ◌↔◌, refl, arith, ◌*◌, length, find, any, find_passes, ap,
  sym, ◌∙◌,
}
use backlogg.Prelude.Rows.{find-update, update_where_ext}
use backlogg.Db.Tables.{ItemType, same_type, Item, Db, eq_of_same_type}
use backlogg.Ratings.Rounding.{round_half_even, round_half_up, average, sum}
use backlogg.Ratings.Ties.{IsEvenTie, roundings_differ_iff, roundings_agree}
use backlogg.Ratings.Aggregates.{
  visible_scores, with_aggregates, is_item, recalculate_item_aggregates,
  recalculate_item_aggregates_batch,
}
use backlogg.Ratings.Batch.{refreshed}
use backlogg.Ratings.Agreement.{is_listed, recalculate_batch_lem}

-- The average of the scores, in hundredths, lies half-way above an even number.
abbrev pub IsTied : List ℕ → Type 0
IsTied [] = ⊥
IsTied (s ∷ ss) = IsEvenTie (10 * sum (s ∷ ss)) (length (s ∷ ss))

averages_differ : (ss : List ℕ) → IsTied ss → average round_half_even ss ≢ average round_half_up ss
unfolding average
averages_differ [] h e = absurd h
averages_differ (s ∷ ss) h e =
    (roundings_differ_iff (10 * sum (s ∷ ss)) (length (s ∷ ss))).1 h (ground arith)

averages_agree : (ss : List ℕ) → ¬ IsTied ss → average round_half_even ss ≡ average round_half_up ss
unfolding average
averages_agree [] h = refl
averages_agree (s ∷ ss) h = ap some (roundings_agree (10 * sum (s ∷ ss)) (length (s ∷ ss)) h)

module _ (t : ItemType) (i : ℕ) (d : Db) where
  abbrev pub scores_of : List ℕ
  scores_of = visible_scores d.users.rows t i d.user_ratings.rows

  own_scores :
      (it : Item)
      → is_item t i it ≡ true
      → visible_scores d.users.rows it.item_type it.id d.user_ratings.rows ≡ scores_of
  unfolding is_item
  own_scores it own =
      let typed : same_type it.item_type t ≡ true = ground arith in
      let named : it.id ≡ i = ground arith in rw (eq_of_same_type it.item_type t typed, named) refl

  is_listed_one : (it : Item) → is_listed ((t, i) ∷ []) it ≡ is_item t i it
  unfolding any
  is_listed_one it = ground arith

  -- Away from the ties the two recomputations of one item are the same.
  single_batch_agree :
      average round_half_even scores_of ≡ average round_half_up scores_of
      → recalculate_item_aggregates_batch ((t, i) ∷ []) d ≡ recalculate_item_aggregates t i d
  unfolding recalculate_item_aggregates
  single_batch_agree same =
      recalculate_batch_lem ((t, i) ∷ []) d
      ∙ ap (λ xs. record d { items = xs })
          (update_where_ext (is_listed ((t, i) ∷ [])) (is_item t i)
            (refreshed d.users.rows d.user_ratings.rows) (with_aggregates round_half_even scores_of)
            d.items is_listed_one (λ it own. rw (own_scores it own, same) refl))

  found_after_single :
      {it : Item}
      → find (is_item t i) d.items ≡ some it
      → find (is_item t i) (recalculate_item_aggregates t i d).items
        ≡ some (with_aggregates round_half_even scores_of it)
  unfolding recalculate_item_aggregates is_item
  found_after_single {it} found =
      find-update (is_item t i) (is_item t i) (with_aggregates round_half_even scores_of) d.items it
        (λ x. refl) found (find_passes (is_item t i) d.items it found)

  found_after_batch :
      {it : Item}
      → find (is_item t i) d.items ≡ some it
      → find (is_item t i) (recalculate_item_aggregates_batch ((t, i) ∷ []) d).items
        ≡ some (with_aggregates round_half_up scores_of it)
  unfolding is_item
  found_after_batch {it} found =
      let own = find_passes (is_item t i) d.items it found in
      rw (recalculate_batch_lem ((t, i) ∷ []) d) (
        find-update (is_item t i) (is_listed ((t, i) ∷ []))
          (refreshed d.users.rows d.user_ratings.rows) d.items it (λ x. refl) found
          (is_listed_one it ∙ own)
        ∙ ap (λ ss. some (with_aggregates round_half_up ss it)) (own_scores it own))

  -- For an item that exists, the batch of that one item and the single recomputation leave the same
  -- database exactly when the average of its visible scores is no even tie.
  pub single_batch_agree_iff :
      {it : Item}
      → find (is_item t i) d.items ≡ some it
      → (recalculate_item_aggregates_batch ((t, i) ∷ []) d ≡ recalculate_item_aggregates t i d)
        ↔ (¬ IsTied scores_of)
  single_batch_agree_iff {it} found = (
    (λ same tied. averages_differ scores_of tied (
        let stored =
          sym (found_after_single found)
          ∙ ap (λ (d' : Db). find (is_item t i) d'.items) (sym same)
          ∙ found_after_batch found in
        ground arith)),
    (λ untied. single_batch_agree (averages_agree scores_of untied)),
  )
