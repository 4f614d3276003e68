-- ===== src/Users/Edits.antt =====
-- Edits of a user that are no ban, and the account tokens that lead to them: backlogg/users/service.py.
use backlogg.Prelude.{
  ℕ, String, List, [], ◌∷◌, some, true, ◌==◌, ◌≡◌, refl, arith, find, update_where, inl, inr,
  Bool-cases, Option-cases,
}
use backlogg.Prelude.Rows.{All-update}
use backlogg.Db.Tables.{ItemType, User, UserRating, AccountToken, Db, password_reset, email_verify}
use backlogg.Db.Session.{request}
use backlogg.Ratings.Aggregates.{author_active, is_visible, contribution, visible_scores}
use backlogg.Ratings.Freshness.{keep-All-IsFresh}
use backlogg.Ratings.Sound.{IsSound}
use backlogg.Ratings.Removal.{SameCore, SameCore-IsSound}
use backlogg.Users.Repository.{
  get_account_token_by_hash, update_user_row, create_account_token, consume_account_token,
  set_email_verified, set_password_hash, revoke_all_active_for_user,
}
use backlogg.Users.Sessions.{Security}
use backlogg.Users.Recovery.{
  is_unusable, request_email_verification, confirm_email_verification, request_password_reset,
  reset_password,
}

module _ (f : User → User) (keeps : (x : User) → (f x).id ≡ x.id)
    (keeps_ban : (x : User) → (f x).is_banned ≡ x.is_banned) (user_id : ℕ) where
  author_active-edit :
      (users : List User) (a : ℕ)
      → author_active (update_where (λ u. u.id == user_id) f users) a ≡ author_active users a
  unfolding author_active find update_where
  author_active-edit [] a = refl
  author_active-edit (u ∷ users) a =
      ground (arith, keeps u, keeps_ban u, author_active-edit users a)

  visible_scores-edit :
      (users : List User) (t : ItemType) (i : ℕ) (rs : List UserRating)
      → visible_scores (update_where (λ u. u.id == user_id) f users) t i rs
        ≡ visible_scores users t i rs
  unfolding visible_scores contribution is_visible
  visible_scores-edit users t i [] = refl
  visible_scores-edit users t i (r ∷ rs) =
      rw (author_active-edit users r.user_id, visible_scores-edit users t i rs) refl

  -- An edit of a user that is no ban needs no recomputation.
  pub edited-IsSound : (d : Db) → IsSound d → IsSound (update_user_row user_id f d)
  unfolding update_user_row
  edited-IsSound d s = record {
    fresh =
        keep-All-IsFresh d.users.rows _ d.user_ratings.rows d.user_ratings.rows d.items
          (λ t i. visible_scores-edit d.users.rows t i d.user_ratings.rows) s.fresh;
    tables = record {
      rating_ids = s.tables.rating_ids;
      ratings_below = s.tables.ratings_below;
      authors_below = s.tables.authors_below;
      users_below =
          All-update _ (λ u. u.id == user_id) f d.users.rows (λ x p. rw (keeps x) p)
            s.tables.users_below;
    };
  }

module _ (security : Security) (now : ℕ) where
  pub request_email_verification-SameCore :
      (plaintext : String) (ttl : ℕ) (user : User) (d : Db)
      → SameCore d (request (request_email_verification security now plaintext ttl user) d).1
  unfolding request_email_verification create_account_token
  request_email_verification-SameCore plaintext ttl user d = (refl, refl, refl)

  pub request_password_reset-SameCore :
      (plaintext : String) (ttl : ℕ) (email : String) (d : Db)
      → SameCore d (request (request_password_reset security now plaintext ttl email) d).1
  unfolding request_password_reset create_account_token
  request_password_reset-SameCore plaintext ttl email d = ground arith

  consumed-IsSound :
      (t : AccountToken) (d : Db) → IsSound d → IsSound (consume_account_token t now d)
  unfolding consume_account_token
  consumed-IsSound t d s = SameCore-IsSound d _ (refl, refl, refl) s

  pub confirm_email_verification-IsSound :
      (presented : String) (d : Db)
      → IsSound d
      → IsSound (request (confirm_email_verification security now presented) d).1
  unfolding confirm_email_verification set_email_verified
  confirm_email_verification-IsSound presented d s =
      elim (Option-cases (get_account_token_by_hash (security.hash_token presented) d)) [
        | inl unknown ↦ rw unknown s
        | inr (t, found) ↦ elim (Bool-cases (is_unusable now email_verify (some t))) [
          | inl bad ↦ rw (found, bad) s
          | inr good ↦
              rw (found, good)
                (edited-IsSound (λ u. record u { email_verified = true }) (λ x. refl) (λ x. refl)
                  t.user_id _ (consumed-IsSound t d s))
        ]
      ]

  revoked-IsSound :
      (user_id : ℕ) (d : Db) → IsSound d → IsSound (revoke_all_active_for_user user_id now d)
  unfolding revoke_all_active_for_user
  revoked-IsSound user_id d s = SameCore-IsSound d _ (refl, refl, refl) s

  pub reset_password-IsSound :
      (presented new_password : String) (d : Db)
      → IsSound d
      → IsSound (request (reset_password security now presented new_password) d).1
  unfolding reset_password set_password_hash
  reset_password-IsSound presented new_password d s =
      let set = λ (u : User). record u { password_hash = security.hash_password new_password } in
      elim (Option-cases (get_account_token_by_hash (security.hash_token presented) d)) [
        | inl unknown ↦ rw unknown s
        | inr (t, found) ↦ elim (Bool-cases (is_unusable now password_reset (some t))) [
          | inl bad ↦ rw (found, bad) s
          | inr good ↦
              rw (found, good)
                (revoked-IsSound t.user_id _
                  (edited-IsSound set (λ x. refl) (λ x. refl) t.user_id _ (consumed-IsSound t d s)))
        ]
      ]
