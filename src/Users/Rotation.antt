-- ===== src/Users/Rotation.antt =====
-- Refresh tokens: who may rotate one, and what reuse does
-- (backlogg/users/service.py, refresh_tokens).
use backlogg.Prelude.{
  ℕ, true, false, not, ◌&&◌, String, List, [], ◌∷◌, none, some, ◌==◌, ◌==◌, ◌≡◌, refl, arith, ◌<◌,
  is_some, inl, inr, Option-cases, All, filter, update_where,
}
use backlogg.Prelude.Rows.{filter-update}
use backlogg.Db.Tables.{User, RefreshToken, Db}
use backlogg.Db.Session.{HttpException, ok, raised, request}
use backlogg.Users.Repository.{
  get_user_by_id, get_refresh_token_by_hash, revoke_all_active_for_user,
}
use backlogg.Users.Sessions.{Security, TokenPairOut, refresh_tokens, rotate, reuse_defense}

abbrev pub invalid_refresh : HttpException
invalid_refresh = record { status_code = 401; detail = "Invalid refresh token" }

-- Every refresh token of the user is revoked.
abbrev pub RevokedFor : ℕ → List RefreshToken → Type 0
RevokedFor user_id = All (λ t. (t.user_id == user_id) ≡ true → is_some t.revoked_at ≡ true)

pub revoke_all-RevokedFor :
    (now user_id : ℕ) (ts : List RefreshToken)
    → RevokedFor user_id (
        update_where
          (λ t. t.user_id == user_id && not (is_some t.revoked_at))
          (λ t. record t { revoked_at = some now })
          ts)
unfolding update_where
revoke_all-RevokedFor now user_id [] = tt
revoke_all-RevokedFor now user_id (t ∷ ts) =
    (λ own. ground arith, revoke_all-RevokedFor now user_id ts)

module _ (security : Security) where
  -- What a successful rotation needs of the presented token and of its owner.
  pub record MayRotate (now : ℕ) (presented : String) (d : Db) : Type 0 where
    pub stored : RefreshToken
    pub found : get_refresh_token_by_hash (security.hash_token presented) d ≡ some stored
    pub unused : stored.revoked_at ≡ none
    pub alive : now < stored.expires_at
    pub owner : User
    pub owned : get_user_by_id stored.user_id d ≡ some owner
    pub allowed : owner.is_banned ≡ false

  module _ (now : ℕ) (plaintext presented : String) (d : Db) where
    -- Only an unused, unexpired token of a user who exists and is not banned is rotated.
    pub refresh_tokens-MayRotate :
        {pair : TokenPairOut}
        → (request (refresh_tokens security now plaintext presented) d).0 ≡ ok pair
        → MayRotate now presented d
    unfolding refresh_tokens rotate reuse_defense
    refresh_tokens-MayRotate e =
        elim (Option-cases (get_refresh_token_by_hash (security.hash_token presented) d)) [
          | inl unknown ↦ absurd (ground arith)
          | inr (stored, found) ↦ elim (Option-cases (get_user_by_id stored.user_id d)) [
            | inl nobody ↦ absurd (ground arith)
            | inr (owner, owned) ↦ record {
              stored = stored;
              found = found;
              unused = ground arith;
              alive = ground arith;
              owner = owner;
              owned = owned;
              allowed = ground arith;
            }
          ]
        ]

    -- A refused token that was not revoked changes nothing.
    pub refresh_tokens-refused :
        {refusal : HttpException} {t : RefreshToken}
        → get_refresh_token_by_hash (security.hash_token presented) d ≡ some t
        → t.revoked_at ≡ none
        → (request (refresh_tokens security now plaintext presented) d).0 ≡ raised refusal
        → (request (refresh_tokens security now plaintext presented) d).1 ≡ d
    unfolding refresh_tokens rotate
    refresh_tokens-refused found unused e = ground arith

    -- A token that is presented after its revocation is refused, all tokens of its user are revoked
    -- and stay so although the request fails, and those of other users are left alone.
    pub reuse_revokes_all :
        {t : RefreshToken}
        → get_refresh_token_by_hash (security.hash_token presented) d ≡ some t
        → is_some t.revoked_at ≡ true
        → let (r, d') = request (refresh_tokens security now plaintext presented) d in
          (r ≡ raised invalid_refresh)
          × RevokedFor t.user_id d'.refresh_tokens.rows
          × (filter (λ x. not (x.user_id == t.user_id)) d'.refresh_tokens.rows
              ≡ filter (λ x. not (x.user_id == t.user_id)) d.refresh_tokens.rows)
    unfolding refresh_tokens reuse_defense revoke_all_active_for_user
    reuse_revokes_all {t} found revoked =
        rw (found, revoked)
          (
            refl,
            revoke_all-RevokedFor now t.user_id d.refresh_tokens.rows,
            filter-update _ _ _ d.refresh_tokens.rows (λ x. refl) (λ x other. ground arith),
          )
