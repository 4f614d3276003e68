-- ===== src/Tests/Accounts.antt =====
-- Sessions and account tokens.
use backlogg.Prelude.{
  ℕ, List, any, arith, String, false, not, [], ◌∷◌, some, ◌≡◌, refl, ◌==◌, filter, find,
  update_where,
}
use backlogg.Db.Tables.{RefreshToken, AccountToken, Db}
use backlogg.Db.Session.{ok, raised, request}
use backlogg.Users.Repository.{get_user_by_id, get_refresh_token_by_hash, get_account_token_by_hash}
use backlogg.Users.Sessions.{TokenPairOut, rotate, refresh_tokens, get_current_user}
use backlogg.Users.Bearer.{get_current_user-found}
use backlogg.Users.Recovery.{same_purpose, reset_password, request_password_reset}
use backlogg.Users.Rotation.{
  RevokedFor, MayRotate, invalid_refresh, refresh_tokens-MayRotate, refresh_tokens-refused,
  reuse_revokes_all,
}
use backlogg.Users.Reset.{invalid_token, reset_password_lem, request_password_reset_uniform}
use backlogg.Users.Spent.{HasUniqueHashes}
use backlogg.Api.{Member, Call, serve_all}
use backlogg.Api.Once.{refresh_once, reset_once}
use backlogg.Tests.Sample.{ana, session_token, reset_token, start, toy}

abbrev pair : TokenPairOut
pair = record { access_token = "jwt"; refresh_token = "r2" }

rotation : (request (refresh_tokens toy 9 "r2" "r1") start).0 ≡ ok pair
unfolding refresh_tokens get_refresh_token_by_hash find rotate get_user_by_id
rotation = refl

start-HasUniqueHashes :
    HasUniqueHashes (λ (t : RefreshToken). t.token_hash) start.refresh_tokens.rows
    × HasUniqueHashes (λ (t : AccountToken). t.token_hash) start.account_tokens.rows
unfolding any
start-HasUniqueHashes = ground arith

-- A login, a thief's attempt with the old token, and a logout.
abbrev between : List (ℕ × Call)
between =
    (10, Call.login "r4" "ana" "pw")
    ∷ (11, Call.refresh "r5" "r1")
    ∷ (11, Call.forgot_password "a7" 10 "ana@example.org")
    ∷ (12, Call.member (some "ana") (Member.logout "r4"))
    ∷ []

refresh_once_example :
    (let d' = (request (refresh_tokens toy 9 "r2" "r1") start).1 in
      (request (refresh_tokens toy 12 "r3" "r1") (serve_all toy between d')).0
      ≡ raised invalid_refresh)
unfolding any
refresh_once_example =
    refresh_once toy 9 12 "r1" between start "r2" "r3" start-HasUniqueHashes.0 refl refl rotation

refresh_tokens-MayRotate_example : MayRotate toy 9 "r1" start
refresh_tokens-MayRotate_example = refresh_tokens-MayRotate toy 9 "r2" "r1" start rotation

expired : (request (refresh_tokens toy 100 "r2" "r1") start).0 ≡ raised invalid_refresh
unfolding refresh_tokens get_refresh_token_by_hash find rotate
expired = refl

stored_session : get_refresh_token_by_hash "r1" start ≡ some session_token
unfolding get_refresh_token_by_hash find
stored_session = refl

refresh_tokens-refused_example : (request (refresh_tokens toy 100 "r2" "r1") start).1 ≡ start
refresh_tokens-refused_example =
    refresh_tokens-refused toy 100 "r2" "r1" start stored_session refl expired

abbrev used_token : RefreshToken
used_token = record session_token { revoked_at = some 5 }

abbrev used : Db
used = record start { refresh_tokens = record { rows = used_token ∷ []; next_id = 2 } }

stored_used : get_refresh_token_by_hash "r1" used ≡ some used_token
unfolding get_refresh_token_by_hash find
stored_used = refl

reuse_revokes_all_example :
    let (r, d') = request (refresh_tokens toy 9 "r2" "r1") used in
    (r ≡ raised invalid_refresh)
    × RevokedFor 1 d'.refresh_tokens.rows
    × (filter (λ x. not (x.user_id == 1)) d'.refresh_tokens.rows
        ≡ filter (λ x. not (x.user_id == 1)) used.refresh_tokens.rows)
reuse_revokes_all_example = reuse_revokes_all toy 9 "r2" "r1" used stored_used refl

stored_reset : get_account_token_by_hash "a1" start ≡ some reset_token
unfolding get_account_token_by_hash find
stored_reset = refl

reset_password_lem_example :
    let (r, d') = request (reset_password toy 9 "a1" "new") start in
    (r ≡ ok "Password has been reset")
    × (d'.users.rows
        ≡ update_where (λ u. u.id == 1) (λ u. record u { password_hash = "new" }) start.users.rows)
    × RevokedFor 1 d'.refresh_tokens.rows
    × (get_account_token_by_hash "a1" d' ≡ some (record reset_token { consumed_at = some 9 }))
unfolding same_purpose
reset_password_lem_example = reset_password_lem toy 9 "a1" start "new" stored_reset refl

reset_done : (request (reset_password toy 9 "a1" "new") start).0 ≡ ok "Password has been reset"
unfolding reset_password get_account_token_by_hash find same_purpose
reset_done = refl

reset_once_example :
    (let d' = (request (reset_password toy 9 "a1" "new") start).1 in
      let d'' = serve_all toy between d' in
      request (reset_password toy 12 "a1" "newer") d'' ≡ (raised invalid_token, d''))
unfolding any
reset_once_example =
    reset_once toy 9 12 "a1" between start "new" "newer" start-HasUniqueHashes.1 refl reset_done

request_password_reset_uniform_example :
    (request (request_password_reset toy 9 "a2" 10 "nobody") start).0
    ≡ ok "If that email is registered, a reset link has been sent"
request_password_reset_uniform_example = request_password_reset_uniform toy 9 10 "a2" "nobody" start

let_through : (request (get_current_user toy 9 (some "ana")) start).0 ≡ ok ana
unfolding get_current_user get_user_by_id find
let_through = refl

get_current_user-found_example :
    (token : String) × (i : ℕ) × (some "ana" ≡ some token)
    × (toy.decode_subject 9 token ≡ some i)
    × (get_user_by_id i start ≡ some ana)
    × (ana.is_banned ≡ false)
get_current_user-found_example = get_current_user-found toy 9 (some "ana") start ana let_through
