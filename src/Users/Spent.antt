-- ===== src/Users/Spent.antt =====
-- Tokens that cannot be used any more stay so: the requests of backlogg/users/service.py on refresh tokens and
-- account tokens.
use backlogg.Prelude.{
  ℕ, Bool, true, false, String, str_eq, List, [], ◌∷◌, some, ◌≡◌, refl, arith, inl, inr, Bool-cases,
  All, any, find, update_where, is_some,
}
use text.Mathlib.TextEquality.{eq_iff}
use backlogg.Prelude.Rows.{All-append, All-delete, All-update}
use backlogg.Db.Tables.{User, RefreshToken, AccountToken, TokenPurpose, Db, insert_row}
use backlogg.Db.Session.{request}
use backlogg.Ratings.Aggregates.{recalculate_item_aggregates_batch}
use backlogg.Users.Repository.{
  delete_user, create_refresh_token, revoke_refresh_token, revoke_all_active_for_user,
  create_account_token, consume_account_token,
}
use backlogg.Users.Account.{delete_current_user}

module _ {A : Type 0} (hash : A → String) where
  -- The unique constraint on token_hash.
  abbrev pub HasUniqueHashes : List A → Type 0
  HasUniqueHashes [] = Unit
  HasUniqueHashes (x ∷ xs) = (any (λ y. str_eq (hash y) (hash x)) xs ≡ false) × HasUniqueHashes xs

  module _ (dead : A → Bool) (h : String) where
    -- No row with the hash is alive.
    abbrev pub AllDead : List A → Type 0
    AllDead = All (λ x. str_eq (hash x) h ≡ true → dead x ≡ true)

    module _ (p : A → Bool) (f : A → A) (keeps : (x : A) → hash (f x) ≡ hash x) where
      AllDead-absent :
          (xs : List A) → any (λ y. str_eq (hash y) h) xs ≡ false → AllDead (update_where p f xs)
      unfolding any update_where
      AllDead-absent [] none_here = tt
      AllDead-absent (x ∷ xs) none_here = (
        λ own. absurd (ground (arith, own, none_here, keeps x)),
        AllDead-absent xs (ground (arith, none_here)),
      )

      -- An update that kills the row that is found under the hash.
      pub AllDead-killed :
          (xs : List A) (t : A)
          → ((x : A) → dead (f x) ≡ true)
          → find (λ x. str_eq (hash x) h) xs ≡ some t
          → p t ≡ true
          → HasUniqueHashes xs
          → AllDead (update_where p f xs)
      unfolding find update_where
      AllDead-killed [] t kills e hit unique = tt
      AllDead-killed (x ∷ xs) t kills e hit unique = elim (Bool-cases (str_eq (hash x) h)) [
        | inl own ↦
            let same : x ≡ t = ground (arith, own, e) in
            let here : p x ≡ true = rw same hit in
            let key : hash x ≡ h = (eq_iff (hash x) h).0 own in
            (rw here (λ _. kills x), AllDead-absent xs (rw key at unique.0))
        | inr other ↦ (
          λ own. absurd (ground (arith, own, other, keeps x)),
          AllDead-killed xs t kills (ground (arith, other, e)) hit unique.1,
        )
      ]

-- No refresh token with the hash is active, and no account token with it is unused.
abbrev pub IsSpent : String → Db → Type 0
IsSpent h d =
    AllDead (λ (t : RefreshToken). t.token_hash) (λ t. is_some t.revoked_at) h d.refresh_tokens.rows

abbrev pub IsUsed : String → Db → Type 0
IsUsed h d =
    AllDead (λ (t : AccountToken). t.token_hash) (λ t. is_some t.consumed_at) h
      d.account_tokens.rows

-- Both stay.
abbrev pub KeepsDead : String → Db → Db → Type 0
KeepsDead h d d' = (IsSpent h d → IsSpent h d') × (IsUsed h d → IsUsed h d')

module _ (h : String) where
  pub KeepsDead-trans : (a b c : Db) → KeepsDead h a b → KeepsDead h b c → KeepsDead h a c
  KeepsDead-trans a b c (s, u) (s', u') = (λ x. s' (s x), λ x. u' (u x))

  pub KeepsDead-refl : (d : Db) → KeepsDead h d d
  KeepsDead-refl d = (λ x. x, λ x. x)

  pub create_refresh_token-KeepsDead :
      (user_id : ℕ) (hash : String) (expires_at : ℕ) (d : Db)
      → str_eq hash h ≡ false
      → KeepsDead h d (create_refresh_token user_id hash expires_at d)
  unfolding create_refresh_token insert_row
  create_refresh_token-KeepsDead user_id hash expires_at d other = (
    λ s. All-append _ _ d.refresh_tokens.rows s (λ own. absurd (ground (arith, own, other))),
    λ u. u,
  )

  pub revoke_all-KeepsDead :
      (user_id now : ℕ) (d : Db) → KeepsDead h d (revoke_all_active_for_user user_id now d)
  unfolding revoke_all_active_for_user
  revoke_all-KeepsDead user_id now d =
      (λ s. All-update _ _ _ d.refresh_tokens.rows (λ x k own. refl) s, λ u. u)

  pub revoke_refresh_token-KeepsDead :
      (t : RefreshToken) (now : ℕ) (d : Db) → KeepsDead h d (revoke_refresh_token t now d)
  unfolding revoke_refresh_token
  revoke_refresh_token-KeepsDead t now d = elim (Bool-cases (is_some t.revoked_at)) [
    | inl e ↦ rw (e, revoke_refresh_token) (KeepsDead-refl d)
    | inr e ↦
        rw (e, revoke_refresh_token)
          (λ s. All-update _ _ _ d.refresh_tokens.rows (λ x k own. refl) s, λ u. u)
  ]

  pub create_account_token-KeepsDead :
      (user_id : ℕ) (hash : String) (purpose : TokenPurpose) (expires_at : ℕ) (d : Db)
      → str_eq hash h ≡ false
      → KeepsDead h d (create_account_token user_id hash purpose expires_at d)
  unfolding create_account_token insert_row
  create_account_token-KeepsDead user_id hash purpose expires_at d other = (
    λ s. s,
    λ u. All-append _ _ d.account_tokens.rows u (λ own. absurd (ground (arith, own, other))),
  )

  pub consume_account_token-KeepsDead :
      (t : AccountToken) (now : ℕ) (d : Db) → KeepsDead h d (consume_account_token t now d)
  unfolding consume_account_token
  consume_account_token-KeepsDead t now d =
      (λ s. s, λ u. All-update _ _ _ d.account_tokens.rows (λ x k own. refl) u)

  pub delete_current_user-KeepsDead :
      (user : User) (d : Db) → KeepsDead h d (request (delete_current_user user) d).1
  unfolding delete_current_user delete_user recalculate_item_aggregates_batch
  delete_current_user-KeepsDead user d =
      (λ s. All-delete _ _ d.refresh_tokens.rows s, λ u. All-delete _ _ d.account_tokens.rows u)
