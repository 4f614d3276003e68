-- ===== src/Users/Bearer.antt =====
-- What get_current_user (backlogg/users/auth.py) lets through.
use backlogg.Prelude.{
  ℕ, false, String, Option, none, some, ◌≡◌, refl, arith, inl, inr, Option-cases,
}
use backlogg.Db.Tables.{User, Db}
use backlogg.Db.Session.{ok, request}
use backlogg.Users.Repository.{get_user_by_id}
use backlogg.Users.Sessions.{Security, get_current_user}

-- A caller that is let through came with a token, and is the stored user under the id that the token's
-- subject decodes to at that time, who is not banned.
pub get_current_user-found :
    (security : Security) (now : ℕ) (credentials : Option String) (d : Db) (user : User)
    → (request (get_current_user security now credentials) d).0 ≡ ok user
    → (token : String) × (i : ℕ) × (credentials ≡ some token)
      × (security.decode_subject now token ≡ some i)
      × (get_user_by_id i d ≡ some user)
      × (user.is_banned ≡ false)
unfolding get_current_user
get_current_user-found security now none d user e = absurd (ground arith)
get_current_user-found security now (some token) d user e =
    elim (Option-cases (security.decode_subject now token)) [
      | inl bad ↦ absurd (ground arith)
      | inr (i, sub) ↦ (token, i, refl, sub, ground arith, ground arith)
    ]
