-- ===== src/Prelude/Lists.antt =====
-- Lists read as SQL tables: a WHERE clause is a Boolean test on a row.
use Prim.Native.Nat.{ℕ, suc, ◌+◌, ◌≤◌}
use mathlib.Core.Path.{◌≡◌, refl, ap}
use mathlib.Core.Bool.{Bool, true, false, not, ◌||◌}
use mathlib.Core.List.{List, [], ◌∷◌, ◌++◌}
use mathlib.Core.Option.{Option, none, some}
use native.Mathlib.Omega.{arith}
use backlogg.Prelude.Tests.{if◌then◌else◌}

module _ {ℓ} {A : Type ℓ} where
  abbrev pub length : List A → ℕ
  length [] = 0
  length (x ∷ xs) = suc (length xs)

  -- SELECT ... WHERE p
  unfoldable pub filter : (A → Bool) → List A → List A
  filter p [] = []
  filter p (x ∷ xs) = if p x then x ∷ filter p xs else filter p xs

  -- The first row that passes the test.
  unfoldable pub find : (A → Bool) → List A → Option A
  find p [] = none
  find p (x ∷ xs) = if p x then some x else find p xs

  unfoldable pub any : (A → Bool) → List A → Bool
  any p [] = false
  any p (x ∷ xs) = p x || any p xs

  -- UPDATE ... SET f WHERE p
  unfoldable pub update_where : (A → Bool) → (A → A) → List A → List A
  update_where p f [] = []
  update_where p f (x ∷ xs) = (if p x then f x else x) ∷ update_where p f xs

  -- DELETE ... WHERE p
  unfoldable pub delete_where : (A → Bool) → List A → List A
  unfolding filter
  delete_where p = filter (λ x. not (p x))

  abbrev pub All {κ} : (A → Type κ) → List A → Type κ
  All P [] = Unit
  All P (x ∷ xs) = P x × All P xs

  pub length-append : (xs ys : List A) → length (xs ++ ys) ≡ length xs + length ys
  length-append [] ys = omega arith
  length-append (x ∷ xs) ys = omega (arith, length-append xs ys)

  pub length-filter-le : (p : A → Bool) (xs : List A) → length (filter p xs) ≤ length xs
  unfolding filter
  length-filter-le p [] = omega arith
  length-filter-le p (x ∷ xs) = ground (arith, length-filter-le p xs)

  -- What `find` returns passes the test.
  pub find_passes : (p : A → Bool) (xs : List A) (a : A) → find p xs ≡ some a → p a ≡ true
  unfolding find
  find_passes p [] a h = ground arith
  find_passes p (x ∷ xs) a h = ground (arith, find_passes p xs a)

  pub update_where-never : (f : A → A) (xs : List A) → update_where (λ x. false) f xs ≡ xs
  unfolding update_where
  update_where-never f [] = refl
  update_where-never f (x ∷ xs) = ap (λ ys. x ∷ ys) (update_where-never f xs)

  pub update_where_congr :
      (p q : A → Bool) (f : A → A) (xs : List A)
      → ((x : A) → p x ≡ q x)
      → update_where p f xs ≡ update_where q f xs
  unfolding update_where
  update_where_congr p q f [] h = refl
  update_where_congr p q f (x ∷ xs) h = ground (arith, h x, update_where_congr p q f xs h)
