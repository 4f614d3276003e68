-- ===== src/Api/Once.antt =====
-- A refresh token and a reset token of backlogg/users/service.py work once, whatever requests come in between.
use backlogg.Prelude.{
  ℕ, false, String, str_eq, List, ◌≡◌, refl, arith, any, inl, inr, Option-cases, Bool-cases,
  is_some, ==_refl, leb-false, ◌+◌, ◌==◌, find_passes, some,
}
use backlogg.Prelude.Rows.{All-of_find}
use backlogg.Db.Tables.{Db, password_reset}
use backlogg.Db.Session.{ok, raised, request}
use backlogg.Users.Repository.{
  get_refresh_token_by_hash, get_account_token_by_hash, revoke_refresh_token, consume_account_token,
  revoke_all_active_for_user, set_password_hash, update_user_row,
}
use backlogg.Users.Sessions.{Security, TokenPairOut, rotate, refresh_tokens}
use backlogg.Users.Recovery.{is_unusable, reset_password}
use backlogg.Users.Rotation.{refresh_tokens-MayRotate, invalid_refresh, reuse_revokes_all}
use backlogg.Users.Reset.{invalid_token, reset_password-refused}
use backlogg.Users.Spent.{
  HasUniqueHashes, AllDead-killed, IsSpent, IsUsed, create_refresh_token-KeepsDead,
}
use backlogg.Api.{Call, serve_all}
use backlogg.Api.Spent.{draws, serve_all-KeepsDead}

module _ (security : Security) (now : ℕ) (presented : String) (d : Db) where
  abbrev hash : String
  hash = security.hash_token presented

  -- A rotation leaves no active token with the presented one's hash.
  refresh_tokens-IsSpent :
      (plaintext : String) {pair : TokenPairOut}
      → HasUniqueHashes (λ t. t.token_hash) d.refresh_tokens.rows
      → str_eq (security.hash_token plaintext) hash ≡ false
      → (request (refresh_tokens security now plaintext presented) d).0 ≡ ok pair
      → IsSpent hash (request (refresh_tokens security now plaintext presented) d).1
  unfolding refresh_tokens rotate get_refresh_token_by_hash
  refresh_tokens-IsSpent plaintext unique other e =
      let m = refresh_tokens-MayRotate security now plaintext presented d e in
      let t = m.stored in
      let d' = revoke_refresh_token t now d in
      let revoked : IsSpent hash d' =
        unfold revoke_refresh_token in
        rw m.unused (
          AllDead-killed (λ x. x.token_hash) (λ x. is_some x.revoked_at) hash (λ x. x.id == t.id)
            (λ x. record x { revoked_at = some now }) (λ x. refl) d.refresh_tokens.rows t
            (λ x. refl) m.found (==_refl t.id) unique) in
      rw (m.found, m.unused, leb-false t.expires_at now m.alive, m.owned, m.allowed)
        ((create_refresh_token-KeepsDead hash t.user_id (security.hash_token plaintext)
            (now + security.refresh_expire) d' other).0
          revoked)

  spent_refused :
      (plaintext : String)
      → IsSpent hash d
      → (request (refresh_tokens security now plaintext presented) d).0 ≡ raised invalid_refresh
  unfolding refresh_tokens get_refresh_token_by_hash
  spent_refused plaintext spent = elim (Option-cases (get_refresh_token_by_hash hash d)) [
    | inl unknown ↦ rw unknown refl
    | inr (t, found) ↦
        let own = find_passes (λ x. str_eq x.token_hash hash) d.refresh_tokens.rows t found in
        let revoked =
          All-of_find _ (λ x. str_eq x.token_hash hash) d.refresh_tokens.rows t spent found own in
        (reuse_revokes_all security now plaintext presented d found revoked).0
  ]

  -- A reset leaves no unused token with the presented one's hash.
  reset_password-IsUsed :
      (new_password : String) {said : String}
      → HasUniqueHashes (λ t. t.token_hash) d.account_tokens.rows
      → (request (reset_password security now presented new_password) d).0 ≡ ok said
      → IsUsed hash (request (reset_password security now presented new_password) d).1
  unfolding reset_password consume_account_token set_password_hash update_user_row
      revoke_all_active_for_user get_account_token_by_hash
  reset_password-IsUsed new_password unique e =
      elim (Option-cases (get_account_token_by_hash hash d)) [
        | inl unknown ↦ absurd (ground (arith, e, unknown))
        | inr (t, found) ↦ elim (Bool-cases (is_unusable now password_reset (some t))) [
          | inl bad ↦ absurd (ground (arith, e, found, bad))
          | inr good ↦
              rw (found, good)
                (AllDead-killed (λ x. x.token_hash) (λ x. is_some x.consumed_at) hash
                  (λ x. x.id == t.id) (λ x. record x { consumed_at = some now }) (λ x. refl)
                  d.account_tokens.rows t (λ x. refl) found (==_refl t.id) unique)
        ]
      ]

  used_refused :
      (new_password : String)
      → IsUsed hash d
      → request (reset_password security now presented new_password) d ≡ (raised invalid_token, d)
  unfolding get_account_token_by_hash
  used_refused new_password used =
      reset_password-refused security now presented d new_password
        (elim (Option-cases (get_account_token_by_hash hash d)) [
          | inl unknown ↦ rw unknown refl
          | inr (t, found) ↦
              let own = find_passes (λ x. str_eq x.token_hash hash) d.account_tokens.rows t found in
              let gone =
                All-of_find _ (λ x. str_eq x.token_hash hash) d.account_tokens.rows t used found
                  own in
              rw found (ground (arith, gone))
        ])

module _ (security : Security) (now later : ℕ) (presented : String) (calls : List (ℕ × Call))
    (d : Db) where
  -- A refresh token works once: after a successful rotation, and any history of requests that draw no
  -- token with its hash, an attempt with it is refused, also after other attempts with it. Token hashes
  -- are unique, as the table's constraint has it, and the rotation draws another token.
  pub refresh_once :
      (plaintext fresh : String) {pair : TokenPairOut}
      → HasUniqueHashes (λ t. t.token_hash) d.refresh_tokens.rows
      → str_eq (security.hash_token plaintext) (security.hash_token presented) ≡ false
      → any (λ c. draws security (security.hash_token presented) c.1) calls ≡ false
      → (request (refresh_tokens security now plaintext presented) d).0 ≡ ok pair
      → let d' = (request (refresh_tokens security now plaintext presented) d).1 in
        let d'' = serve_all security calls d' in
        (request (refresh_tokens security later fresh presented) d'').0 ≡ raised invalid_refresh
  refresh_once plaintext fresh unique other new e =
      let d' = (request (refresh_tokens security now plaintext presented) d).1 in
      let spent = refresh_tokens-IsSpent security now presented d plaintext unique other e in
      spent_refused security later presented (serve_all security calls d') fresh
        ((serve_all-KeepsDead security (security.hash_token presented) calls d' new).0 spent)

  -- A reset token works once: after a successful reset, and any history of requests that draw no token
  -- with its hash, an attempt with it is refused and changes nothing. Token hashes are unique, as the
  -- table's constraint has it.
  pub reset_once :
      (first second : String) {said : String}
      → HasUniqueHashes (λ t. t.token_hash) d.account_tokens.rows
      → any (λ c. draws security (security.hash_token presented) c.1) calls ≡ false
      → (request (reset_password security now presented first) d).0 ≡ ok said
      → let d' = (request (reset_password security now presented first) d).1 in
        let d'' = serve_all security calls d' in
        request (reset_password security later presented second) d'' ≡ (raised invalid_token, d'')
  reset_once first second unique new e =
      let d' = (request (reset_password security now presented first) d).1 in
      let used = reset_password-IsUsed security now presented d first unique e in
      used_refused security later presented (serve_all security calls d') second
        ((serve_all-KeepsDead security (security.hash_token presented) calls d' new).1 used)
