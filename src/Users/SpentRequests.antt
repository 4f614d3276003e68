-- ===== src/Users/SpentRequests.antt =====
-- The requests of backlogg/users/service.py on tokens bring no used token back.
use backlogg.Prelude.{
  ℕ, false, String, str_eq, some, ◌==◌, ◌≡◌, ◌+◌, leb, inl, inr, Option-cases, Bool-cases, is_some,
}
use backlogg.Db.Tables.{User, RefreshToken, Db, email_verify, password_reset}
use backlogg.Db.Session.{request}
use backlogg.Users.Repository.{
  get_user_by_username, get_user_by_email, get_user_by_id, update_user_row, create_refresh_token,
  get_refresh_token_by_hash, revoke_refresh_token, revoke_all_active_for_user,
  get_account_token_by_hash, consume_account_token, set_email_verified, set_password_hash,
}
use backlogg.Users.Sessions.{
  Security, bad_login, login_user, rotate, reuse_defense, refresh_tokens, logout_user,
}
use backlogg.Users.Recovery.{
  is_unusable, request_email_verification, confirm_email_verification, request_password_reset,
  reset_password,
}
use backlogg.Users.Spent.{
  KeepsDead, KeepsDead-refl, KeepsDead-trans, create_refresh_token-KeepsDead, revoke_all-KeepsDead,
  revoke_refresh_token-KeepsDead, create_account_token-KeepsDead, consume_account_token-KeepsDead,
}

module _ (h : String) (security : Security) (now : ℕ) where
  pub login_user-KeepsDead :
      (plaintext username password : String) (d : Db)
      → str_eq (security.hash_token plaintext) h ≡ false
      → KeepsDead h d (request (login_user security now plaintext username password) d).1
  unfolding login_user
  login_user-KeepsDead plaintext username password d other =
      elim (Option-cases (get_user_by_username username d)) [
        | inl e ↦ rw e (KeepsDead-refl h d)
        | inr (user, e) ↦ elim (Bool-cases (bad_login security password (some user))) [
          | inl bad ↦ rw (e, bad) (KeepsDead-refl h d)
          | inr good ↦
              rw (e, good)
                (create_refresh_token-KeepsDead h user.id (security.hash_token plaintext) _ d other)
        ]
      ]

  rotate-KeepsDead :
      (plaintext : String) (t : RefreshToken) (d : Db)
      → str_eq (security.hash_token plaintext) h ≡ false
      → KeepsDead h d (request (rotate security now plaintext t) d).1
  unfolding rotate
  rotate-KeepsDead plaintext t d other = elim (Bool-cases (leb t.expires_at now)) [
    | inl e ↦ rw e (KeepsDead-refl h d)
    | inr e ↦ elim (Option-cases (get_user_by_id t.user_id d)) [
      | inl e' ↦ rw (e, e') (KeepsDead-refl h d)
      | inr (owner, e') ↦ elim (Bool-cases owner.is_banned) [
        | inl b ↦ rw (e, e', b) (KeepsDead-refl h d)
        | inr b ↦
            let d' = revoke_refresh_token t now d in
            let hash = security.hash_token plaintext in
            let until = now + security.refresh_expire in
            rw (e, e', b)
              (KeepsDead-trans h d d' (create_refresh_token t.user_id hash until d')
                (revoke_refresh_token-KeepsDead h t now d)
                (create_refresh_token-KeepsDead h t.user_id hash until d' other))
      ]
    ]
  ]

  pub refresh_tokens-KeepsDead :
      (plaintext presented : String) (d : Db)
      → str_eq (security.hash_token plaintext) h ≡ false
      → KeepsDead h d (request (refresh_tokens security now plaintext presented) d).1
  unfolding refresh_tokens reuse_defense
  refresh_tokens-KeepsDead plaintext presented d other =
      elim (Option-cases (get_refresh_token_by_hash (security.hash_token presented) d)) [
        | inl e ↦ rw e (KeepsDead-refl h d)
        | inr (t, e) ↦ elim (Bool-cases (is_some t.revoked_at)) [
          | inl r ↦ rw (e, r) (revoke_all-KeepsDead h t.user_id now d)
          | inr r ↦ rw (e, r) (rotate-KeepsDead plaintext t d other)
        ]
      ]

  pub logout_user-KeepsDead :
      (user : User) (presented : String) (d : Db)
      → KeepsDead h d (request (logout_user security now user presented) d).1
  unfolding logout_user
  logout_user-KeepsDead user presented d =
      elim (Option-cases (get_refresh_token_by_hash (security.hash_token presented) d)) [
        | inl e ↦ rw e (KeepsDead-refl h d)
        | inr (t, e) ↦ elim (Bool-cases (t.user_id == user.id)) [
          | inl own ↦ rw (e, own) (revoke_refresh_token-KeepsDead h t now d)
          | inr other ↦ rw (e, other) (KeepsDead-refl h d)
        ]
      ]

  pub request_email_verification-KeepsDead :
      (plaintext : String) (ttl : ℕ) (user : User) (d : Db)
      → str_eq (security.hash_token plaintext) h ≡ false
      → KeepsDead h d (request (request_email_verification security now plaintext ttl user) d).1
  unfolding request_email_verification
  request_email_verification-KeepsDead plaintext ttl user d other =
      create_account_token-KeepsDead h user.id (security.hash_token plaintext) email_verify _ d
        other

  pub request_password_reset-KeepsDead :
      (plaintext : String) (ttl : ℕ) (email : String) (d : Db)
      → str_eq (security.hash_token plaintext) h ≡ false
      → KeepsDead h d (request (request_password_reset security now plaintext ttl email) d).1
  unfolding request_password_reset
  request_password_reset-KeepsDead plaintext ttl email d other =
      elim (Option-cases (get_user_by_email email d)) [
        | inl e ↦ rw e (KeepsDead-refl h d)
        | inr (user, e) ↦ rw e (
            create_account_token-KeepsDead h user.id (security.hash_token plaintext) password_reset
              _ d other)
      ]

  pub confirm_email_verification-KeepsDead :
      (presented : String) (d : Db)
      → KeepsDead h d (request (confirm_email_verification security now presented) d).1
  unfolding confirm_email_verification set_email_verified update_user_row
  confirm_email_verification-KeepsDead presented d =
      elim (Option-cases (get_account_token_by_hash (security.hash_token presented) d)) [
        | inl e ↦ rw e (KeepsDead-refl h d)
        | inr (t, e) ↦ elim (Bool-cases (is_unusable now email_verify (some t))) [
          | inl bad ↦ rw (e, bad) (KeepsDead-refl h d)
          | inr good ↦ rw (e, good) (consume_account_token-KeepsDead h t now d)
        ]
      ]

  pub reset_password-KeepsDead :
      (presented new_password : String) (d : Db)
      → KeepsDead h d (request (reset_password security now presented new_password) d).1
  unfolding reset_password set_password_hash update_user_row
  reset_password-KeepsDead presented new_password d =
      elim (Option-cases (get_account_token_by_hash (security.hash_token presented) d)) [
        | inl e ↦ rw e (KeepsDead-refl h d)
        | inr (t, e) ↦ elim (Bool-cases (is_unusable now password_reset (some t))) [
          | inl bad ↦ rw (e, bad) (KeepsDead-refl h d)
          | inr good ↦
              let d' = consume_account_token t now d in
              let d'' = set_password_hash t.user_id (security.hash_password new_password) d' in
              rw (e, good)
                (KeepsDead-trans h d d' (revoke_all_active_for_user t.user_id now d'')
                  (consume_account_token-KeepsDead h t now d)
                  (revoke_all-KeepsDead h t.user_id now d''))
        ]
      ]
