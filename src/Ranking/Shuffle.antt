-- ===== src/Ranking/Shuffle.antt =====
-- The re-rank of backlogg/recommendations/ranking.py reorders its candidates.
use backlogg.Prelude.{
  ℕ, zero, suc, not, ◌||◌, List, [], ◌∷◌, Option, some, ◌≡◌, refl, ap, ◌∙◌, arith, ◌+◌, ◌≤◌, ◌<◌,
  ltb, length, Bool-cases, inl, inr,
}
use mathlib.Core.Option
use mathlib.Core.List.{Permᴰ}
use mathlib.Core.List.Permᴰ
use backlogg.Ranking.{FloatOps, Candidate}
use backlogg.Ranking.Titles.{TitleOps}
use backlogg.Ranking.Diversity.{
  Taken, take_groups, pop, group_keys, ranks_before, insert, sorted, adjusted, best_index, pick_all,
  diversify,
}

module _ {ℓ} {A : Type ℓ} where
  -- A position in a list is popped, and the rest is what was there.
  abbrev Popped : ℕ → List A → Type ℓ
  Popped i xs =
      (x : A) × (rest : List A) × (pop i xs ≡ some (x, rest))
      × Permᴰ (x ∷ rest) xs
      × (length xs ≡ suc (length rest))

  pop-Popped : (i : ℕ) (xs : List A) → i < length xs → Popped i xs
  unfolding pop
  pop-Popped i [] small = ground (arith, small)
  pop-Popped zero (x ∷ xs) small = (x, xs, refl, Permᴰ.refl (x ∷ xs), refl)
  pop-Popped (suc i) (x ∷ xs) small =
      let (y, rest, e, shuffled, shorter) = pop-Popped i xs (omega (arith, small)) in
      (
        y,
        x ∷ rest,
        rw e refl,
        Permᴰ.trans (Permᴰ.swap refl refl) (Permᴰ.cons refl shuffled),
        ap suc shorter,
      )

  pub Permᴰ-length : {xs ys : List A} → Permᴰ xs ys → length xs ≡ length ys
  Permᴰ-length Permᴰ.nil = refl
  Permᴰ-length (Permᴰ.cons e d) = ap suc (Permᴰ-length d)
  Permᴰ-length (Permᴰ.swap e₁ e₂) = refl
  Permᴰ-length (Permᴰ.trans d₁ d₂) = Permᴰ-length d₁ ∙ Permᴰ-length d₂

module _ {F : Type 0} (floats : FloatOps F) (titles : TitleOps) where
  insert-Permᴰ :
      (c : Candidate F) (cs : List (Candidate F)) → Permᴰ (insert floats titles c cs) (c ∷ cs)
  unfolding insert
  insert-Permᴰ c [] = Permᴰ.refl (c ∷ [])
  insert-Permᴰ c (d ∷ ds) = elim (Bool-cases (ranks_before floats titles d c)) [
    | inl before ↦
        rw before (Permᴰ.trans (Permᴰ.cons refl (insert-Permᴰ c ds)) (Permᴰ.swap refl refl))
    | inr after ↦ rw after (Permᴰ.refl (c ∷ d ∷ ds))
  ]

  sorted-Permᴰ : (cs : List (Candidate F)) → Permᴰ (sorted floats titles cs) cs
  unfolding sorted
  sorted-Permᴰ [] = Permᴰ.nil
  sorted-Permᴰ (c ∷ cs) =
      Permᴰ.trans (insert-Permᴰ c (sorted floats titles cs)) (Permᴰ.cons refl (sorted-Permᴰ cs))

  -- The scan answers a position that it has passed.
  best_index-lt :
      (score : Candidate F → F) (index best m : ℕ) (best_score : F) (cs : List (Candidate F))
      → best < m
      → index + length cs ≤ m
      → best_index floats titles score index best best_score cs < m
  unfolding best_index
  best_index-lt score index best m best_score [] small fits = small
  best_index-lt score index best m best_score (c ∷ cs) small fits =
      best_index-lt score (suc index) _ m _ cs (ground (arith, small, fits)) (omega (arith, fits))

  abbrev pub Shuffled : Option (List (Candidate F)) → List (Candidate F) → Type 0
  Shuffled answer cs = (out : List (Candidate F)) × (answer ≡ some out) × Permᴰ out cs

  pick_all-Shuffled :
      (factor : F) (fuel : ℕ) (cs : List (Candidate F)) (taken : Taken)
      → length cs ≤ fuel
      → Shuffled (pick_all floats titles factor fuel cs taken) cs
  unfolding pick_all Option.bind
  pick_all-Shuffled factor fuel [] taken enough = ([], refl, Permᴰ.nil)
  pick_all-Shuffled factor zero (c ∷ cs) taken enough = ground (arith, enough)
  pick_all-Shuffled factor (suc fuel) (c ∷ cs) taken enough =
      let (x, rest, e, back, shorter) = pop-Popped _ (c ∷ cs) (
        best_index-lt (adjusted floats titles factor taken) 0 0 (length (c ∷ cs))
          floats.negative_infinity (c ∷ cs) (omega arith) (omega arith)) in
      let (out, found, shuffled) =
        pick_all-Shuffled factor fuel rest (take_groups (group_keys floats titles x) taken)
          (omega (arith, shorter, enough)) in
      (x ∷ out, rw (e, found) refl, Permᴰ.trans (Permᴰ.cons refl shuffled) back)

  -- Whatever the arithmetic, the penalty and the groups are, the re-rank answers, and with exactly the candidates it
  -- was given: a penalty demotes and does not drop.
  pub diversify-Shuffled :
      (penalty : F) (cs : List (Candidate F)) → Shuffled (diversify floats titles penalty cs) cs
  unfolding diversify
  diversify-Shuffled penalty cs =
      let ranked = sorted floats titles cs in
      elim (Bool-cases (not (floats.gt penalty floats.zero) || ltb (length ranked) 2)) [
        | inl as_sorted ↦ rw as_sorted (ranked, refl, sorted-Permᴰ cs)
        | inr to_pick ↦
            let (out, found, shuffled) =
              pick_all-Shuffled (floats.max floats.zero (floats.sub floats.one penalty))
                (length ranked) ranked (λ k. 0) (omega arith) in
            rw (to_pick, found) (out, refl, Permᴰ.trans shuffled (sorted-Permᴰ cs))
      ]
