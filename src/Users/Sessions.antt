-- ===== src/Users/Sessions.antt =====
-- Login, refresh-token rotation and logout: backlogg/users/service.py and the bearer check of
-- backlogg/users/auth.py. Hashing, token generation and JWT signing are third-party: parameters.
-- `now` is the clock, in seconds, and `plaintext` the opaque token that is generated.
use backlogg.Prelude.{
  ℕ, Bool, true, not, ◌||◌, String, Option, none, some, ◌==◌, ◌+◌, leb, if◌then◌else◌, is_some,
}
use backlogg.Db.Tables.{User, RefreshToken, Db}
use backlogg.Db.Session.{
  Action, pure, gets, modify, commit, http_error, or_error, raise_if, ◌>>=◌, ◌>>◌,
}
use backlogg.Users.Repository.{
  get_user_by_username, get_user_by_id, create_refresh_token, get_refresh_token_by_hash,
  revoke_refresh_token, revoke_all_active_for_user,
}

-- argon2, sha256, PyJWT and the settings that the services read.
pub record Security : Type 0 where
  pub hash_password : String → String
  pub verify_password : String → String → Bool
  pub hash_token : String → String
  pub create_access_token : ℕ → ℕ → String
  pub decode_subject : ℕ → String → Option ℕ
  pub refresh_expire : ℕ

pub record TokenPairOut : Type 0 where
  pub access_token : String
  pub refresh_token : String

module _ (security : Security) where
  open security use {
    verify_password, hash_token, create_access_token, decode_subject, refresh_expire,
  }

  unfoldable pub issue_refresh_token : ℕ → String → ℕ → Action String
  issue_refresh_token now plaintext user_id = do
    modify (create_refresh_token user_id (hash_token plaintext) (now + refresh_expire))
    pure plaintext

  abbrev pub bad_login : String → Option User → Bool
  bad_login password none = true
  bad_login password (some user) =
      not (verify_password password user.password_hash) || user.is_banned

  unfoldable pub login_user : ℕ → String → String → String → Action TokenPairOut
  unfolding issue_refresh_token
  login_user now plaintext username password = do
    found ← gets (get_user_by_username username)
    raise_if (bad_login password found) 401 "Invalid username or password"
    user ← or_error 401 "Invalid username or password" found
    refresh_token ← issue_refresh_token now plaintext user.id
    commit
    pure (record { access_token = create_access_token now user.id; refresh_token = refresh_token })

  abbrev pub is_locked_out : Option User → Bool
  is_locked_out none = true
  is_locked_out (some owner) = owner.is_banned

  -- The token is known and unused: its expiry, its owner, and the rotation.
  unfoldable pub rotate : ℕ → String → RefreshToken → Action TokenPairOut
  unfolding issue_refresh_token
  rotate now plaintext stored = do
    raise_if (leb stored.expires_at now) 401 "Invalid refresh token"
    owner ← gets (get_user_by_id stored.user_id)
    raise_if (is_locked_out owner) 401 "Invalid refresh token"
    modify (revoke_refresh_token stored now)
    refresh_token ← issue_refresh_token now plaintext stored.user_id
    commit
    pure (record {
      access_token = create_access_token now stored.user_id;
      refresh_token = refresh_token;
    })

  -- Reuse is detected: the whole active set of the user is revoked.
  unfoldable pub reuse_defense : ℕ → RefreshToken → Action TokenPairOut
  reuse_defense now stored = do
    modify (revoke_all_active_for_user stored.user_id now)
    commit
    http_error 401 "Invalid refresh token"

  unfoldable pub refresh_tokens : ℕ → String → String → Action TokenPairOut
  refresh_tokens now plaintext presented = do
    found ← gets (get_refresh_token_by_hash (hash_token presented))
    stored ← or_error 401 "Invalid refresh token" found
    if is_some stored.revoked_at then reuse_defense now stored else rotate now plaintext stored

  -- Unknown and foreign tokens are ignored.
  abbrev pub revoke_own : ℕ → User → Option RefreshToken → Db → Db
  revoke_own now user none d = d
  revoke_own now user (some stored) d =
      if stored.user_id == user.id then revoke_refresh_token stored now d else d

  unfoldable pub logout_user : ℕ → User → String → Action (Unit {0})
  logout_user now user presented = do
    found ← gets (get_refresh_token_by_hash (hash_token presented))
    modify (revoke_own now user found)
    commit

  -- get_current_user: the bearer token's subject, as long as the account exists and is not banned.
  unfoldable pub get_current_user : ℕ → Option String → Action User
  get_current_user now credentials = do
    token ← or_error 401 "Not authenticated" credentials
    user_id ← or_error 401 "Invalid or expired token" (decode_subject now token)
    found ← gets (get_user_by_id user_id)
    user ← or_error 401 "Invalid or expired token" found
    raise_if user.is_banned 401 "Invalid or expired token"
    pure user
