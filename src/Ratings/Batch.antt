-- ===== src/Ratings/Batch.antt =====
-- recalculate_item_aggregates_batch against a direct description: exactly the listed items are
-- refreshed, each from its own visible scores.
use backlogg.Prelude.{
  ℕ, Bool, true, false, ◌&&◌, ◌||◌, List, [], ◌∷◌, Option, none, some, ◌==◌, ◌≡◌, refl, arith,
  if◌then◌else◌, any, update_where, inl, inr, Bool-cases, ap, ap₂, update_where-never, sym, ◌∙◌,
}
use backlogg.Db.Tables.{ItemType, same_type, Item, User, UserRating, eq_of_same_type}
use backlogg.Ratings.Rounding.{round_half_up, average}
use backlogg.Ratings.Aggregates.{
  add_score, rates_item, contribution, visible_scores, with_aggregates, in_ids, add_to_group,
  group_score, add_group_score, aggregate_groups, group_of, from_group, update_type, update_types,
}

abbrev scores_or_nil : Option (List ℕ) → List ℕ
scores_or_nil none = []
scores_or_nil (some ss) = ss

abbrev nonempty : List ℕ → Option (List ℕ)
nonempty [] = none
nonempty (s ∷ ss) = some (s ∷ ss)

group_of-add_to_group :
    (i j s : ℕ) (groups : List (ℕ × List ℕ))
    → group_of i (add_to_group j s groups)
      ≡ (if j == i then some (s ∷ scores_or_nil (group_of i groups)) else group_of i groups)
unfolding group_of add_to_group
group_of-add_to_group i j s [] = ground arith
group_of-add_to_group i j s ((k, ss) ∷ groups) = ground (arith, group_of-add_to_group i j s groups)

-- One more row in the groups, seen from the group of `i`.
group_of-add_group_score :
    (i j : ℕ) (o : Option ℕ) (groups : List (ℕ × List ℕ)) (ss : List ℕ)
    → group_of i groups ≡ nonempty ss
    → group_of i (add_group_score j o groups) ≡ nonempty (if j == i then add_score o ss else ss)
group_of-add_group_score i j none groups ss h = ground arith
group_of-add_group_score i j (some s) groups [] h =
    ground (arith, group_of-add_to_group i j s groups)
group_of-add_group_score i j (some s) groups (x ∷ xs) h =
    ground (arith, group_of-add_to_group i j s groups)

module _ (users : List User) (t : ItemType) (ids : List ℕ) (i : ℕ) where
  group_score-listed :
      (r : UserRating)
      → in_ids ids i ≡ true
      → (r.item_id == i) ≡ true
      → group_score users t ids r ≡ contribution users t i r
  unfolding group_score contribution rates_item
  group_score-listed r h e = let same : r.item_id ≡ i = ground arith in rw (e, same, h) refl

  contribution-other : (r : UserRating) → (r.item_id == i) ≡ false → contribution users t i r ≡ none
  unfolding contribution rates_item
  contribution-other r e = ground arith

  -- The group of a listed id holds its visible scores; an id with none has no group.
  group_of-aggregate_groups :
      (ratings : List UserRating)
      → in_ids ids i ≡ true
      → group_of i (aggregate_groups users t ids ratings)
        ≡ nonempty (visible_scores users t i ratings)
  unfolding aggregate_groups visible_scores group_of
  group_of-aggregate_groups [] h = refl
  group_of-aggregate_groups (r ∷ rs) h =
      let step =
        group_of-add_group_score i r.item_id (group_score users t ids r)
          (aggregate_groups users t ids rs) (visible_scores users t i rs)
          (group_of-aggregate_groups rs h) in
      elim (Bool-cases (r.item_id == i)) [
        | inl e ↦ step ∙ rw (e, group_score-listed r h e)
        | inr e ↦ step ∙ rw (e, contribution-other r e)
      ]

  group_score-unlisted :
      (r : UserRating)
      → in_ids ids i ≡ false
      → (r.item_id == i) ≡ true
      → group_score users t ids r ≡ none
  unfolding group_score
  group_score-unlisted r h e =
      let same : r.item_id ≡ i = ground arith in
      let out : in_ids ids r.item_id ≡ false = rw same h in ground arith

  -- An id that is not listed has no group.
  group_of-unlisted :
      (ratings : List UserRating)
      → in_ids ids i ≡ false
      → group_of i (aggregate_groups users t ids ratings) ≡ none
  unfolding aggregate_groups group_of
  group_of-unlisted [] h = refl
  group_of-unlisted (r ∷ rs) h =
      let step =
        group_of-add_group_score i r.item_id (group_score users t ids r)
          (aggregate_groups users t ids rs) [] (group_of-unlisted rs h) in
      elim (Bool-cases (r.item_id == i)) [
        | inl e ↦ step ∙ rw (e, group_score-unlisted r h e)
        | inr e ↦ step ∙ rw e
      ]

module _ (users : List User) (ratings : List UserRating) where
  -- The item with its aggregates recomputed from the visible scores of that item.
  abbrev pub refreshed : Item → Item
  refreshed it = with_aggregates round_half_up (visible_scores users it.item_type it.id ratings) it

  abbrev pub in_group : ItemType × List ℕ → Item → Bool
  in_group (t, ids) it = same_type it.item_type t && in_ids ids it.id

  abbrev pub in_groups : List (ItemType × List ℕ) → Item → Bool
  in_groups groups it = any (λ g. in_group g it) groups

  -- The reset row, and then the value of its group.
  from_group-reset :
      (t : ItemType) (ids : List ℕ) (it : Item) (groups : List (ℕ × List ℕ)) (ss : List ℕ)
      → same_type it.item_type t ≡ true
      → group_of it.id groups ≡ nonempty ss
      → from_group t groups (record it { rating_internal = none; rating_count_internal = 0 })
        ≡ with_aggregates round_half_up ss it
  unfolding average
  from_group-reset t ids it groups [] same h = rw (same, h)
  from_group-reset t ids it groups (s ∷ ss) same h = rw (same, h)

  -- The two statements refresh a listed row and leave any other alone.
  update_type_row :
      (t : ItemType) (ids : List ℕ) (it : Item) (b : Bool)
      → in_group (t, ids) it ≡ b
      → from_group t
          (aggregate_groups users t ids ratings)
          (if b then record it { rating_internal = none; rating_count_internal = 0 } else it)
        ≡ (if b then refreshed it else it)
  update_type_row t ids it true h =
      let same : same_type it.item_type t ≡ true = ground arith in
      let listed : in_ids ids it.id ≡ true = ground arith in
      from_group-reset t ids it (aggregate_groups users t ids ratings)
        (visible_scores users t it.id ratings) same
        (group_of-aggregate_groups users t ids it.id ratings listed)
      ∙ ap (λ own. with_aggregates round_half_up (visible_scores users own it.id ratings) it)
          (sym (eq_of_same_type it.item_type t same))
  update_type_row t ids it false h = elim (Bool-cases (same_type it.item_type t)) [
    | inr e ↦ rw e
    | inl e ↦
        let unlisted : in_ids ids it.id ≡ false = ground arith in
        rw (e, group_of-unlisted users t ids it.id ratings unlisted)
  ]

  update_type-eq :
      (g : ItemType × List ℕ) (items : List Item)
      → update_type users ratings g items ≡ update_where (in_group g) refreshed items
  unfolding update_type update_where
  update_type-eq (t, ids) [] = refl
  update_type-eq (t, ids) (it ∷ items) =
      ap₂ ◌∷◌ (update_type_row t ids it (in_group (t, ids) it) refl) (update_type-eq (t, ids) items)

  -- Refreshing twice is refreshing once, and does not change which groups hold the item.
  update_where-refreshed :
      (p q : Item → Bool) (items : List Item)
      → ((it : Item) → q (refreshed it) ≡ q it)
      → update_where q refreshed (update_where p refreshed items)
        ≡ update_where (λ it. p it || q it) refreshed items
  unfolding update_where
  update_where-refreshed p q [] stable = refl
  update_where-refreshed p q (it ∷ items) stable =
      ground (arith, stable it, update_where-refreshed p q items stable)

  in_groups-refreshed :
      (groups : List (ItemType × List ℕ)) (it : Item)
      → in_groups groups (refreshed it) ≡ in_groups groups it
  unfolding any
  in_groups-refreshed [] it = refl
  in_groups-refreshed (g ∷ groups) it = ap (λ b. in_group g it || b) (in_groups-refreshed groups it)

  pub update_types-eq :
      (groups : List (ItemType × List ℕ)) (items : List Item)
      → update_types users ratings groups items ≡ update_where (in_groups groups) refreshed items
  unfolding update_types any
  update_types-eq [] items = sym (update_where-never refreshed items)
  update_types-eq (g ∷ groups) items =
      update_types-eq groups (update_type users ratings g items)
      ∙ ap (update_where (in_groups groups) refreshed) (update_type-eq g items)
      ∙ update_where-refreshed (in_group g) (in_groups groups) items (in_groups-refreshed groups)
