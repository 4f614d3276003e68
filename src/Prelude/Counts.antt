-- ===== src/Prelude/Counts.antt =====
-- How many rows pass a test, under the statements that change a table.
use Prim.Native.Nat.{ℕ, ◌+◌, ◌≤◌, ◌<◌}
use mathlib.Core.Path.{◌≡◌, refl}
use mathlib.Core.Logic.{inl, inr}
use mathlib.Core.Bool.{Bool, true, false}
use mathlib.Core.List.{List, [], ◌∷◌, ◌++◌}
use mathlib.Core.Option.{none, some}
use native.Mathlib.Omega.{arith}
use backlogg.Prelude.Tests.{◌==◌, if◌then◌else◌, Bool-cases}
use backlogg.Prelude.Lists.{filter, find, any, update_where, delete_where, All}
use backlogg.Prelude.Rows.{HasUniqueIds, IdsBelow, All-map}

module _ {ℓ} {A : Type ℓ} where
  unfoldable pub count : (A → Bool) → List A → ℕ
  count p [] = 0
  count p (x ∷ xs) = (if p x then 1 else 0) + count p xs

  module _ (p : A → Bool) where
    pub count-append :
        (x : A) (xs : List A) → count p (xs ++ (x ∷ [])) ≡ count p xs + (if p x then 1 else 0)
    unfolding count
    count-append x [] = ground arith
    count-append x (y ∷ xs) = ground (arith, count-append x xs)

    pub count-update :
        (q : A → Bool) (f : A → A) (xs : List A)
        → All (λ x. q x ≡ true → p (f x) ≡ p x) xs
        → count p (update_where q f xs) ≡ count p xs
    unfolding count update_where
    count-update q f [] h = refl
    count-update q f (x ∷ xs) h = ground (arith, h.0, count-update q f xs h.1)

    pub count-update_none :
        (q : A → Bool) (f : A → A) (xs : List A)
        → All (λ x. p x ≡ true → q x ≡ true) xs
        → ((x : A) → p (f x) ≡ false)
        → count p (update_where q f xs) ≡ 0
    unfolding count update_where
    count-update_none q f [] h fails = refl
    count-update_none q f (x ∷ xs) h fails =
        ground (arith, h.0, fails x, count-update_none q f xs h.1 fails)

    pub count-delete :
        (q : A → Bool) (xs : List A)
        → All (λ x. q x ≡ true → p x ≡ false) xs
        → count p (delete_where q xs) ≡ count p xs
    unfolding count delete_where filter
    count-delete q [] h = refl
    count-delete q (x ∷ xs) h = ground (arith, h.0, count-delete q xs h.1)

    pub count-delete_all :
        (q : A → Bool) (xs : List A)
        → ((x : A) → p x ≡ true → q x ≡ true)
        → count p (delete_where q xs) ≡ 0
    unfolding count delete_where filter
    count-delete_all q [] h = refl
    count-delete_all q (x ∷ xs) h = ground (arith, h x, count-delete_all q xs h)

    pub count-delete-le : (q : A → Bool) (xs : List A) → count p (delete_where q xs) ≤ count p xs
    unfolding count delete_where filter
    count-delete-le q [] = omega arith
    count-delete-le q (x ∷ xs) = ground (arith, count-delete-le q xs)

    pub count-find :
        (q : A → Bool) (xs : List A) (x : A) → find q xs ≡ some x → p x ≡ true → 1 ≤ count p xs
    unfolding count find
    count-find q [] x e h = ground arith
    count-find q (y ∷ xs) x e h = ground (arith, count-find q xs x)

    pub count-delete_found :
        (q r : A → Bool) (xs : List A) (x : A)
        → find r xs ≡ some x
        → q x ≡ true
        → p x ≡ true
        → count p (delete_where q xs) < count p xs
    unfolding count find delete_where filter
    count-delete_found q r [] x e h h' = ground arith
    count-delete_found q r (y ∷ xs) x e h h' =
        ground (arith, count-delete_found q r xs x, count-delete-le q xs)

    pub count-none :
        (q : A → Bool) (xs : List A)
        → find q xs ≡ none
        → ((x : A) → p x ≡ true → q x ≡ true)
        → count p xs ≡ 0
    unfolding count find
    count-none q [] e h = refl
    count-none q (x ∷ xs) e h = ground (arith, h x, count-none q xs)

    pub count-le :
        (q : A → Bool) (xs : List A) → ((x : A) → p x ≡ true → q x ≡ true) → count p xs ≤ count q xs
    unfolding count
    count-le q [] h = omega arith
    count-le q (x ∷ xs) h = ground (arith, h x, count-le q xs h)

    pub count-any : (xs : List A) → any p xs ≡ true → 1 ≤ count p xs
    unfolding count any
    count-any [] h = ground arith
    count-any (x ∷ xs) h = ground (arith, count-any xs)

    pub count-apart :
        (q r : A → Bool) (xs : List A)
        → ((x : A) → p x ≡ true → r x ≡ true)
        → ((x : A) → q x ≡ true → r x ≡ true)
        → ((x : A) → p x ≡ true → q x ≡ false)
        → count p xs + count q xs ≤ count r xs
    unfolding count
    count-apart q r [] h h' apart = omega arith
    count-apart q r (x ∷ xs) h h' apart =
        ground (arith, h x, h' x, apart x, count-apart q r xs h h' apart)

    pub count-zero-All : (xs : List A) → count p xs ≡ 0 → All (λ x. p x ≡ false) xs
    unfolding count
    count-zero-All [] e = tt
    count-zero-All (x ∷ xs) e = (ground arith, count-zero-All xs (ground (arith, e)))

    -- A test that at most one row passes is passed by the row that it finds alone.
    pub count-one-All :
        (xs : List A) (x : A)
        → find p xs ≡ some x
        → count p xs ≤ 1
        → All (λ y. p y ≡ true → y ≡ x) xs
    unfolding count find
    count-one-All [] x e h = tt
    count-one-All (y ∷ xs) x e h = elim (Bool-cases (p y)) [
      | inl t ↦ (
        (λ _. ground (arith, e, t)),
        All-map _ _ xs (λ z no hit. absurd (ground (arith, no, hit)))
            (count-zero-All xs (ground (arith, h, t))),
      )
      | inr f ↦ (
        (λ hit. absurd (ground (arith, f, hit))),
        count-one-All xs x (ground (arith, e, f)) (ground (arith, h, f)),
      )
    ]

  module _ (id : A → ℕ) where
    pub count-below : (n : ℕ) (xs : List A) → IdsBelow id n xs → count (λ x. id x == n) xs ≡ 0
    unfolding count
    count-below n [] h = refl
    count-below n (x ∷ xs) h = ground (arith, count-below n xs h.1)

    count-absent :
        (k : ℕ) (xs : List A) → any (λ x. id x == k) xs ≡ false → count (λ x. id x == k) xs ≡ 0
    unfolding count any
    count-absent k [] h = refl
    count-absent k (x ∷ xs) h = ground (arith, count-absent k xs)

    pub count-id-le : (k : ℕ) (xs : List A) → HasUniqueIds id xs → count (λ x. id x == k) xs ≤ 1
    unfolding count
    count-id-le k [] h = omega arith
    count-id-le k (x ∷ xs) h = elim (Bool-cases (id x == k)) [
      | inl e ↦
          let same : id x ≡ k = ground arith in ground (arith, count-absent k xs (rw same at h.0))
      | inr e ↦ ground (arith, count-id-le k xs h.1)
    ]
