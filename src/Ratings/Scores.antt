-- ===== src/Ratings/Scores.antt =====
-- Which statements on user_ratings leave the visible scores of an item alone.
use backlogg.Prelude.{
  ℕ, Bool, true, false, ◌&&◌, List, [], ◌∷◌, ◌++◌, none, ◌==◌, ◌≡◌, refl, arith, update_where,
  delete_where, filter, All, inl, inr, Bool-cases,
}
use backlogg.Db.Tables.{ItemType, same_type, User, UserRating, eq_of_same_type}
use backlogg.Ratings.Aggregates.{rates_item, contribution, visible_scores}

-- The key (t, i) is that of the item (item_type, item_id).
abbrev pub is_key : ItemType → ℕ → ItemType → ℕ → Bool
is_key item_type item_id t i = same_type t item_type && i == item_id

module _ (users : List User) (item_type : ItemType) (item_id : ℕ) where
  -- A row of one item adds nothing to another.
  contribution-other :
      (t : ItemType) (i : ℕ) (r : UserRating)
      → rates_item item_type item_id r ≡ true
      → is_key item_type item_id t i ≡ false
      → contribution users t i r ≡ none
  unfolding contribution rates_item
  contribution-other t i r own other = elim (Bool-cases (same_type r.item_type t)) [
    | inr e ↦ rw e
    | inl e ↦
        let same = eq_of_same_type r.item_type t e in
        let test : same_type t item_type ≡ true = rw (← same) (ground arith) in ground arith
  ]

  -- An update of rows of one item that keeps them there.
  pub visible_scores-update :
      (p : UserRating → Bool) (f : UserRating → UserRating) (rs : List UserRating)
      → All
          (λ r.
            p r ≡ true
            → (rates_item item_type item_id r ≡ true) × (rates_item item_type item_id (f r) ≡ true))
          rs
      → (t : ItemType) (i : ℕ) → is_key item_type item_id t i ≡ false
      → visible_scores users t i (update_where p f rs) ≡ visible_scores users t i rs
  unfolding visible_scores update_where
  visible_scores-update p f [] keeps t i other = refl
  visible_scores-update p f (r ∷ rs) keeps t i other = elim (Bool-cases (p r)) [
    | inl e ↦
        rw (e, visible_scores-update p f rs keeps.1 t i other)
          (let (before, after) = keeps.0 e in
            rw (contribution-other t i r before other, contribution-other t i (f r) after other)
              refl)
    | inr e ↦ rw (e, visible_scores-update p f rs keeps.1 t i other) refl
  ]

  -- A deletion of rows of one item.
  pub visible_scores-delete :
      (p : UserRating → Bool) (rs : List UserRating)
      → All (λ r. p r ≡ true → rates_item item_type item_id r ≡ true) rs
      → (t : ItemType) (i : ℕ) → is_key item_type item_id t i ≡ false
      → visible_scores users t i (delete_where p rs) ≡ visible_scores users t i rs
  unfolding visible_scores delete_where filter
  visible_scores-delete p [] only t i other = refl
  visible_scores-delete p (r ∷ rs) only t i other = elim (Bool-cases (p r)) [
    | inl e ↦
        rw (e, contribution-other t i r (only.0 e) other)
          (visible_scores-delete p rs only.1 t i other)
    | inr e ↦ rw (e, visible_scores-delete p rs only.1 t i other) refl
  ]

  -- A new row of one item.
  pub visible_scores-insert :
      (r : UserRating) (rs : List UserRating)
      → rates_item item_type item_id r ≡ true
      → (t : ItemType) (i : ℕ) → is_key item_type item_id t i ≡ false
      → visible_scores users t i (rs ++ (r ∷ [])) ≡ visible_scores users t i rs
  unfolding visible_scores
  visible_scores-insert r [] own t i other = rw (contribution-other t i r own other)
  visible_scores-insert r (x ∷ rs) own t i other = rw (visible_scores-insert r rs own t i other)
