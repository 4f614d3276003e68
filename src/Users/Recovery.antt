-- ===== src/Users/Recovery.antt =====
-- Single-use account tokens: backlogg/users/service.py, « Account recovery ». Sending the mail has no
-- effect on the database and its failures are swallowed there, so only the token is modelled.
use backlogg.Prelude.{
  ℕ, Bool, true, false, not, ◌||◌, String, Option, none, some, ◌+◌, leb, is_some,
}
use backlogg.Db.Tables.{User, TokenPurpose, email_verify, password_reset, AccountToken}
use backlogg.Db.Session.{Action, pure, gets, modify, commit, or_error, raise_if, ◌>>=◌, ◌>>◌}
use backlogg.Users.Repository.{
  get_user_by_email, create_account_token, get_account_token_by_hash, consume_account_token,
  set_email_verified, set_password_hash, revoke_all_active_for_user,
}
use backlogg.Users.Sessions.{Security}

unfoldable pub same_purpose : TokenPurpose → TokenPurpose → Bool
same_purpose email_verify email_verify = true
same_purpose password_reset password_reset = true
same_purpose _ _ = false

-- The four reasons for which a token is refused.
abbrev pub is_unusable : ℕ → TokenPurpose → Option AccountToken → Bool
is_unusable now purpose none = true
is_unusable now purpose (some stored) =
    not (same_purpose stored.purpose purpose)
    || (is_some stored.consumed_at || leb stored.expires_at now)

module _ (security : Security) where
  open security use {hash_token, hash_password}

  unfoldable pub issue_account_token : ℕ → String → ℕ → TokenPurpose → ℕ → Action String
  issue_account_token now plaintext user_id purpose ttl = do
    modify (create_account_token user_id (hash_token plaintext) purpose (now + ttl))
    pure plaintext

  unfoldable pub consume_valid_token : ℕ → String → TokenPurpose → Action AccountToken
  consume_valid_token now presented purpose = do
    found ← gets (get_account_token_by_hash (hash_token presented))
    raise_if (is_unusable now purpose found) 400 "Invalid or expired token"
    stored ← or_error 400 "Invalid or expired token" found
    modify (consume_account_token stored now)
    pure stored

  unfoldable pub request_email_verification : ℕ → String → ℕ → User → Action String
  unfolding issue_account_token
  request_email_verification now plaintext ttl user = do
    issue_account_token now plaintext user.id email_verify ttl
    commit
    pure "Verification email sent"

  unfoldable pub confirm_email_verification : ℕ → String → Action String
  unfolding consume_valid_token
  confirm_email_verification now presented = do
    token ← consume_valid_token now presented email_verify
    modify (set_email_verified token.user_id)
    commit
    pure "Email verified"

  -- Nothing happens for an unknown address.
  abbrev pub issue_reset : ℕ → String → ℕ → Option User → Action (Unit {0})
  issue_reset now plaintext ttl none = pure tt
  issue_reset now plaintext ttl (some user) =
      issue_account_token now plaintext user.id password_reset ttl >>= λ _. commit

  unfoldable pub request_password_reset : ℕ → String → ℕ → String → Action String
  unfolding issue_account_token
  request_password_reset now plaintext ttl email = do
    user ← gets (get_user_by_email email)
    issue_reset now plaintext ttl user
    pure "If that email is registered, a reset link has been sent"

  unfoldable pub reset_password : ℕ → String → String → Action String
  unfolding consume_valid_token
  reset_password now presented new_password = do
    token ← consume_valid_token now presented password_reset
    modify (set_password_hash token.user_id (hash_password new_password))
    modify (revoke_all_active_for_user token.user_id now)
    commit
    pure "Password has been reset"
