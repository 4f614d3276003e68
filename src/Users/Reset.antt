-- ===== src/Users/Reset.antt =====
-- What a password reset does with its account token (backlogg/users/service.py).
use backlogg.Prelude.{
  ℕ, true, false, String, Option, some, ◌==◌, ◌≡◌, refl, arith, update_where, ==_refl,
}
use backlogg.Prelude.Rows.{find-update}
use backlogg.Db.Tables.{AccountToken, password_reset, Db}
use backlogg.Db.Session.{HttpException, ok, raised, request}
use backlogg.Users.Repository.{
  get_account_token_by_hash, consume_account_token, set_password_hash, revoke_all_active_for_user,
}
use backlogg.Users.Sessions.{Security}
use backlogg.Users.Recovery.{is_unusable, request_password_reset, reset_password}
use backlogg.Users.Rotation.{RevokedFor, revoke_all-RevokedFor}

abbrev pub invalid_token : HttpException
invalid_token = record { status_code = 400; detail = "Invalid or expired token" }

module _ (security : Security) (now : ℕ) (presented : String) (d : Db) where
  abbrev lookup_token : Option AccountToken
  lookup_token = get_account_token_by_hash (security.hash_token presented) d

  -- A token that cannot be used for a reset is refused, and nothing changes.
  pub reset_password-refused :
      (new_password : String)
      → is_unusable now password_reset lookup_token ≡ true
      → request (reset_password security now presented new_password) d ≡ (raised invalid_token, d)
  unfolding reset_password
  reset_password-refused new_password bad = rw bad

  -- A usable token sets the new password of its user, revokes every session of that user, and is
  -- stored as consumed.
  pub reset_password_lem :
      (new_password : String) {t : AccountToken}
      → lookup_token ≡ some t
      → is_unusable now password_reset (some t) ≡ false
      → let (r, d') = request (reset_password security now presented new_password) d in
        (r ≡ ok "Password has been reset")
        × (d'.users.rows
            ≡ update_where
                (λ u. u.id == t.user_id)
                (λ u. record u { password_hash = security.hash_password new_password })
                d.users.rows)
        × RevokedFor t.user_id d'.refresh_tokens.rows
        × (get_account_token_by_hash (security.hash_token presented) d'
            ≡ some (record t { consumed_at = some now }))
  unfolding reset_password consume_account_token set_password_hash revoke_all_active_for_user
      get_account_token_by_hash
  reset_password_lem new_password {t} found good =
      rw (found, good)
        (
          refl,
          refl,
          revoke_all-RevokedFor now t.user_id d.refresh_tokens.rows,
          find-update _ (λ x. x.id == t.id) _ d.account_tokens.rows t (λ x. refl) found
              (==_refl t.id),
        )

-- The answer to a reset request does not depend on the address or on what is stored.
pub request_password_reset_uniform :
    (security : Security) (now ttl : ℕ) (plaintext email : String) (d : Db)
    → (request (request_password_reset security now plaintext ttl email) d).0
      ≡ ok "If that email is registered, a reset link has been sent"
unfolding request_password_reset
request_password_reset_uniform security now ttl plaintext email d = ground arith
