-- ===== src/Ratings/Authors.antt =====
-- Which changes of users leave the visible scores of an item alone.
use backlogg.Prelude.{
  ℕ, Bool, true, false, ◌&&◌, ◌||◌, List, [], ◌∷◌, ◌==◌, ◌≡◌, refl, arith, update_where,
  delete_where, filter, find, any, inl, inr, Bool-cases, ap₂, ◌∙◌,
}
use backlogg.Db.Tables.{
  ItemType, same_type, User, UserRating, eq_of_same_type, same_type_comm, same_type_refl,
}
use backlogg.Ratings.Aggregates.{
  add_score, author_active, is_visible, rates_item, contribution, visible_scores,
}
use backlogg.Ratings.Repository.{add_distinct, distinct_items}
use backlogg.Ratings.Scores.{is_key}

-- The user has rated the item (t, i).
abbrev pub has_rated : ℕ → ItemType → ℕ → List UserRating → Bool
has_rated user_id t i rs = any (λ r. rates_item t i r) (filter (λ r. r.user_id == user_id) rs)

any-add_distinct :
    (t u : ItemType) (i j : ℕ) (ks : List (ItemType × ℕ))
    → any (λ k. is_key k.0 k.1 t i) (add_distinct (u, j) ks)
      ≡ (is_key u j t i || any (λ k. is_key k.0 k.1 t i) ks)
unfolding add_distinct any
any-add_distinct t u i j ks = elim (Bool-cases (is_key u j t i)) [
  | inl e ↦
      let typed : same_type t u ≡ true = ground arith in
      let same : i ≡ j = ground arith in
      rw (eq_of_same_type t u typed, same)
        (ground (arith, same_type_refl u, Bool-cases (any (λ k. is_key k.0 k.1 u j) ks)))
  | inr e ↦ ground arith
]

rates_item_comm :
    (t : ItemType) (i : ℕ) (r : UserRating) → is_key r.item_type r.item_id t i ≡ rates_item t i r
unfolding rates_item
rates_item_comm t i r = rw (same_type_comm t r.item_type) (ground arith)

-- An item is among the distinct ones when some row is of it.
pub any-distinct_items :
    (t : ItemType) (i : ℕ) (rs : List UserRating)
    → any (λ k. is_key k.0 k.1 t i) (distinct_items rs) ≡ any (λ r. rates_item t i r) rs
unfolding distinct_items any
any-distinct_items t i [] = refl
any-distinct_items t i (r ∷ rs) =
    any-add_distinct t r.item_type i r.item_id (distinct_items rs)
    ∙ rw (rates_item_comm t i r, any-distinct_items t i rs)

module _ (users users' : List User) (user_id : ℕ)
    (others : (a : ℕ)
      → (a == user_id) ≡ false
      → author_active users' a ≡ author_active users a) where
  contribution-author :
      (t : ItemType) (i : ℕ) (r : UserRating)
      → (r.user_id == user_id && rates_item t i r) ≡ false
      → contribution users' t i r ≡ contribution users t i r
  unfolding contribution is_visible
  contribution-author t i r h = elim (Bool-cases (r.user_id == user_id)) [
    | inl e ↦ ground arith
    | inr e ↦ rw (others r.user_id e) refl
  ]

  -- A change of one author leaves alone the items that author has not rated.
  pub visible_scores-author :
      (t : ItemType) (i : ℕ) (rs : List UserRating)
      → has_rated user_id t i rs ≡ false
      → visible_scores users' t i rs ≡ visible_scores users t i rs
  unfolding visible_scores any filter
  visible_scores-author t i [] h = refl
  visible_scores-author t i (r ∷ rs) h = elim (Bool-cases (r.user_id == user_id)) [
    | inl e ↦
        let own : rates_item t i r ≡ false = ground arith in
        let rest : has_rated user_id t i rs ≡ false = ground arith in
        ap₂ add_score (contribution-author t i r (rw (e, own) refl))
          (visible_scores-author t i rs rest)
    | inr e ↦
        let rest : has_rated user_id t i rs ≡ false = ground arith in
        ap₂ add_score (contribution-author t i r (rw e refl)) (visible_scores-author t i rs rest)
  ]

-- Deleting an author's rows leaves alone the items that author has not rated.
pub visible_scores-delete_author :
    (users : List User) (user_id : ℕ) (t : ItemType) (i : ℕ) (rs : List UserRating)
    → has_rated user_id t i rs ≡ false
    → visible_scores users t i (delete_where (λ r. r.user_id == user_id) rs)
      ≡ visible_scores users t i rs
unfolding visible_scores any filter delete_where contribution
visible_scores-delete_author users user_id t i [] h = refl
visible_scores-delete_author users user_id t i (r ∷ rs) h =
    ground (arith, visible_scores-delete_author users user_id t i rs)

-- A ban changes one author only.
pub author_active-update :
    (users : List User) (user_id : ℕ) (f : User → User) (a : ℕ)
    → ((u : User) → (f u).id ≡ u.id)
    → (a == user_id) ≡ false
    → author_active (update_where (λ u. u.id == user_id) f users) a ≡ author_active users a
unfolding author_active find update_where
author_active-update [] user_id f a keeps h = refl
author_active-update (u ∷ users) user_id f a keeps h =
    ground (arith, keeps u, author_active-update users user_id f a keeps h)

-- So does a deletion.
pub author_active-delete :
    (users : List User) (user_id : ℕ) (a : ℕ)
    → (a == user_id) ≡ false
    → author_active (delete_where (λ u. u.id == user_id) users) a ≡ author_active users a
unfolding author_active find delete_where filter
author_active-delete [] user_id a h = refl
author_active-delete (u ∷ users) user_id a h =
    ground (arith, author_active-delete users user_id a h)
