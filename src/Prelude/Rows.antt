-- ===== src/Prelude/Rows.antt =====
-- Rows with ids, as a table's primary key and its sequence keep them.
use Prim.Native.Nat.{ℕ, ◌<◌}
use mathlib.Core.Path.{◌≡◌, refl}
use mathlib.Core.Logic.{inl, inr}
use mathlib.Core.Bool.{Bool, true, false}
use mathlib.Core.List.{List, [], ◌∷◌, ◌++◌}
use mathlib.Core.Option.{none, some}
use native.Mathlib.Omega.{arith}
use backlogg.Prelude.Tests.{if◌then◌else◌, ◌==◌, Bool-cases}
use backlogg.Prelude.Lists.{filter, find, any, update_where, delete_where, All}

module _ {ℓ} {A : Type ℓ} where
  module _ {κ} (P : A → Type κ) where
    pub All-of : ((x : A) → P x) → (xs : List A) → All P xs
    All-of h [] = tt
    All-of h (x ∷ xs) = (h x, All-of h xs)

    pub All-append : (x : A) (xs : List A) → All P xs → P x → All P (xs ++ (x ∷ []))
    All-append x [] h p = (p, tt)
    All-append x (y ∷ xs) h p = (h.0, All-append x xs h.1 p)

    pub All-delete : (q : A → Bool) (xs : List A) → All P xs → All P (delete_where q xs)
    unfolding delete_where filter
    All-delete q [] h = tt
    All-delete q (x ∷ xs) h = ground (arith, All-delete q xs h.1)

    pub All-update :
        (q : A → Bool) (f : A → A) (xs : List A)
        → ((x : A) → P x → P (f x))
        → All P xs
        → All P (update_where q f xs)
    unfolding update_where
    All-update q f [] keeps h = tt
    All-update q f (x ∷ xs) keeps h = elim (Bool-cases (q x)) [
      | inl e ↦ rw e (keeps x h.0, All-update q f xs keeps h.1)
      | inr e ↦ rw e (h.0, All-update q f xs keeps h.1)
    ]

    pub All-of_find : (q : A → Bool) (xs : List A) (x : A) → All P xs → find q xs ≡ some x → P x
    unfolding find
    All-of_find q [] x h e = ground arith
    All-of_find q (y ∷ xs) x h e = ground (arith, All-of_find q xs x h.1)

  pub All-map {κ μ} :
      (P : A → Type κ) (Q : A → Type μ) (xs : List A) → ((x : A) → P x → Q x) → All P xs → All Q xs
  All-map P Q [] f h = tt
  All-map P Q (x ∷ xs) f h = (f x h.0, All-map P Q xs f h.1)

module _ {ℓ} {A : Type ℓ} (id : A → ℕ) where
  abbrev pub HasUniqueIds : List A → Type 0
  HasUniqueIds [] = Unit
  HasUniqueIds (x ∷ xs) = (any (λ y. id y == id x) xs ≡ false) × HasUniqueIds xs

  abbrev pub IdsBelow : ℕ → List A → Type 0
  IdsBelow n = All (λ x. id x < n)

  any-below : (n : ℕ) (xs : List A) → IdsBelow n xs → any (λ y. id y == n) xs ≡ false
  unfolding any
  any-below n [] h = refl
  any-below n (x ∷ xs) h = ground (arith, any-below n xs h.1)

  any-append :
      (i : ℕ) (x : A) (xs : List A)
      → any (λ y. id y == i) xs ≡ false
      → (id x == i) ≡ false
      → any (λ y. id y == i) (xs ++ (x ∷ [])) ≡ false
  unfolding any
  any-append i x [] h e = ground arith
  any-append i x (y ∷ xs) h e = ground (arith, any-append i x xs)

  pub HasUniqueIds-append :
      (x : A) (xs : List A) → IdsBelow (id x) xs → HasUniqueIds xs → HasUniqueIds (xs ++ (x ∷ []))
  unfolding any
  HasUniqueIds-append x [] below h = (refl, tt)
  HasUniqueIds-append x (y ∷ xs) below h =
      (any-append (id y) x xs h.0 (ground arith), HasUniqueIds-append x xs below.1 h.1)

  any-delete :
      (q : A → Bool) (i : ℕ) (xs : List A)
      → any (λ y. id y == i) xs ≡ false
      → any (λ y. id y == i) (delete_where q xs) ≡ false
  unfolding any delete_where filter
  any-delete q i [] h = refl
  any-delete q i (x ∷ xs) h = ground (arith, any-delete q i xs)

  pub HasUniqueIds-delete :
      (q : A → Bool) (xs : List A) → HasUniqueIds xs → HasUniqueIds (delete_where q xs)
  unfolding delete_where filter
  HasUniqueIds-delete q [] h = tt
  HasUniqueIds-delete q (x ∷ xs) h = elim (Bool-cases (q x)) [
    | inl e ↦ rw e (HasUniqueIds-delete q xs h.1)
    | inr e ↦ rw e (any-delete q (id x) xs h.0, HasUniqueIds-delete q xs h.1)
  ]

  module _ (q : A → Bool) (f : A → A) (keeps : (x : A) → id (f x) ≡ id x) where
    any-update :
        (i : ℕ) (xs : List A)
        → any (λ y. id y == i) xs ≡ false
        → any (λ y. id y == i) (update_where q f xs) ≡ false
    unfolding any update_where
    any-update i [] h = refl
    any-update i (x ∷ xs) h = ground (arith, keeps x, any-update i xs)

    pub HasUniqueIds-update : (xs : List A) → HasUniqueIds xs → HasUniqueIds (update_where q f xs)
    unfolding update_where
    HasUniqueIds-update [] h = tt
    HasUniqueIds-update (x ∷ xs) h = elim (Bool-cases (q x)) [
      | inl e ↦ rw (e, keeps x) (any-update (id x) xs h.0, HasUniqueIds-update xs h.1)
      | inr e ↦ rw e (any-update (id x) xs h.0, HasUniqueIds-update xs h.1)
    ]

  any_of_find :
      (q : A → Bool) (xs : List A) (x : A) → find q xs ≡ some x → any (λ y. id y == id x) xs ≡ true
  unfolding any find
  any_of_find q [] x e = ground arith
  any_of_find q (y ∷ xs) x e = ground (arith, any_of_find q xs x)

  All-unlisted :
      (i : ℕ) (P : A → Type 0) (xs : List A)
      → any (λ y. id y == i) xs ≡ false
      → All (λ y. (id y == i) ≡ true → P y) xs
  unfolding any
  All-unlisted i P [] h = tt
  All-unlisted i P (y ∷ xs) h = ((λ e. absurd (ground arith)), All-unlisted i P xs (ground arith))

  -- What holds of a row that was found holds of every row with its id.
  pub All-of_found :
      (P : A → Type 0) (q : A → Bool) (xs : List A) (x : A)
      → HasUniqueIds xs
      → find q xs ≡ some x
      → P x
      → All (λ y. (id y == id x) ≡ true → P y) xs
  unfolding find
  All-of_found P q [] x unique e p = tt
  All-of_found P q (y ∷ xs) x unique e p = elim (Bool-cases (q y)) [
    | inl t ↦
        let same : y ≡ x = ground arith in
        ((λ _. rw same p), All-unlisted (id x) P xs (rw (← same) unique.0))
    | inr f ↦
        let later : find q xs ≡ some x = ground arith in
        (
          (λ t.
              let same : id y ≡ id x = ground arith in
              let clash : any (λ z. id z == id x) xs ≡ false = rw (← same) unique.0 in
              absurd (ground (arith, any_of_find q xs x later))),
          All-of_found P q xs x unique.1 later p,
        )
  ]

module _ {ℓ} {A : Type ℓ} (q : A → Bool) where
  -- An update that keeps the test finds the updated row.
  pub find-update :
      (p : A → Bool) (f : A → A) (xs : List A) (x : A)
      → ((y : A) → q (f y) ≡ q y)
      → find q xs ≡ some x
      → p x ≡ true
      → find q (update_where p f xs) ≡ some (f x)
  unfolding find update_where
  find-update p f [] x keeps e h = ground arith
  find-update p f (y ∷ xs) x keeps e h = elim (Bool-cases (q y)) [
    | inl t ↦
        let same : y ≡ x = ground arith in
        rw (same, h, keeps x) (let t' : q x ≡ true = rw (← same) t in rw t')
    | inr t ↦
        let later : find q xs ≡ some x = ground arith in
        ground (arith, keeps y, find-update p f xs x keeps later h)
  ]

  pub find-update_any :
      (p : A → Bool) (f : A → A) (xs : List A) (x : A)
      → ((y : A) → q (f y) ≡ q y)
      → find q xs ≡ some x
      → find q (update_where p f xs) ≡ some (if p x then f x else x)
  unfolding find update_where
  find-update_any p f [] x keeps e = ground arith
  find-update_any p f (y ∷ xs) x keeps e = ground (arith, keeps y, find-update_any p f xs x keeps)

  -- A row that passes a test that the update keeps is still there.
  pub any-kept :
      (p : A → Bool) (f : A → A) (xs : List A)
      → ((y : A) → q (f y) ≡ q y)
      → any q xs ≡ true
      → any q (update_where p f xs) ≡ true
  unfolding any update_where
  any-kept p f [] keeps h = h
  any-kept p f (y ∷ xs) keeps h = ground (arith, h, keeps y, any-kept p f xs keeps)

  pub any-appended : (xs ys : List A) → any q xs ≡ true → any q (xs ++ ys) ≡ true
  unfolding any
  any-appended [] ys h = absurd (ground (arith, h))
  any-appended (y ∷ xs) ys h = ground (arith, h, any-appended xs ys)

  pub any_is_found : (xs : List A) → any q xs ≡ true → (x : A) × (find q xs ≡ some x)
  unfolding any find
  any_is_found [] h = absurd (ground (arith, h))
  any_is_found (y ∷ xs) h = elim (Bool-cases (q y)) [
    | inl t ↦ (y, ground (arith, t))
    | inr f ↦ let (x, e) = any_is_found xs (ground (arith, h, f)) in (x, ground (arith, f, e))
  ]

  pub found_is_any : (xs : List A) (x : A) → find q xs ≡ some x → any q xs ≡ true
  unfolding any find
  found_is_any [] x e = absurd (ground (arith, e))
  found_is_any (y ∷ xs) x e = ground (arith, e, found_is_any xs x)

  pub find-append : (xs ys : List A) (x : A) → find q xs ≡ some x → find q (xs ++ ys) ≡ some x
  unfolding find
  find-append [] ys x e = ground arith
  find-append (y ∷ xs) ys x e = ground (arith, find-append xs ys x)

  -- A row that is appended is found where there was none.
  pub find-new :
      (xs : List A) (x : A) → find q xs ≡ none → q x ≡ true → find q (xs ++ (x ∷ [])) ≡ some x
  unfolding find
  find-new [] x e h = ground arith
  find-new (y ∷ xs) x e h = ground (arith, find-new xs x)

  pub filter-update :
      (p : A → Bool) (f : A → A) (xs : List A)
      → ((y : A) → q (f y) ≡ q y)
      → ((y : A) → q y ≡ true → p y ≡ false)
      → filter q (update_where p f xs) ≡ filter q xs
  unfolding filter update_where
  filter-update p f [] keeps apart = refl
  filter-update p f (x ∷ xs) keeps apart =
      ground (arith, keeps x, apart x, filter-update p f xs keeps apart)

-- Two updates that agree on every row.
pub update_where_ext {ℓ} :
    {A : Type ℓ} (p q : A → Bool) (f g : A → A) (xs : List A)
    → ((x : A) → p x ≡ q x)
    → ((x : A) → q x ≡ true → f x ≡ g x)
    → update_where p f xs ≡ update_where q g xs
unfolding update_where
update_where_ext p q f g [] same h = refl
update_where_ext p q f g (x ∷ xs) same h =
    ground (arith, same x, h x, update_where_ext p q f g xs same h)
