-- ===== src/Api/Credentials.antt =====
-- Requests on sessions and account tokens that leave reviews and reports as they are.
use backlogg.Prelude.{ℕ, String, ◌≡◌, arith}
use backlogg.Db.Tables.{User, Db}
use backlogg.Db.Session.{request}
use backlogg.Users.Repository.{
  update_user_row, create_refresh_token, revoke_refresh_token, revoke_all_active_for_user,
  create_account_token, consume_account_token, set_email_verified, set_password_hash,
}
use backlogg.Users.Sessions.{
  Security, login_user, refresh_tokens, rotate, reuse_defense, logout_user,
}
use backlogg.Users.Recovery.{
  request_email_verification, confirm_email_verification, request_password_reset, reset_password,
}

unfoldable pub SameReviews : Db → Db → Type 0
SameReviews d d' = (d'.review_reports ≡ d.review_reports) × (d'.user_ratings ≡ d.user_ratings)

module _ (security : Security) (now : ℕ) where
  pub login_user-SameReviews :
      (plaintext username password : String) (d : Db)
      → SameReviews d (request (login_user security now plaintext username password) d).1
  unfolding SameReviews login_user create_refresh_token
  login_user-SameReviews plaintext username password d = ground arith

  pub refresh_tokens-SameReviews :
      (plaintext presented : String) (d : Db)
      → SameReviews d (request (refresh_tokens security now plaintext presented) d).1
  unfolding SameReviews refresh_tokens rotate reuse_defense create_refresh_token
      revoke_refresh_token revoke_all_active_for_user
  refresh_tokens-SameReviews plaintext presented d = ground arith

  pub logout_user-SameReviews :
      (user : User) (presented : String) (d : Db)
      → SameReviews d (request (logout_user security now user presented) d).1
  unfolding SameReviews logout_user revoke_refresh_token
  logout_user-SameReviews user presented d = ground arith

  pub request_email_verification-SameReviews :
      (plaintext : String) (ttl : ℕ) (user : User) (d : Db)
      → SameReviews d (request (request_email_verification security now plaintext ttl user) d).1
  unfolding SameReviews request_email_verification create_account_token
  request_email_verification-SameReviews plaintext ttl user d = ground arith

  pub request_password_reset-SameReviews :
      (plaintext : String) (ttl : ℕ) (email : String) (d : Db)
      → SameReviews d (request (request_password_reset security now plaintext ttl email) d).1
  unfolding SameReviews request_password_reset create_account_token
  request_password_reset-SameReviews plaintext ttl email d = ground arith

  pub confirm_email_verification-SameReviews :
      (presented : String) (d : Db)
      → SameReviews d (request (confirm_email_verification security now presented) d).1
  unfolding SameReviews confirm_email_verification consume_account_token set_email_verified
      update_user_row
  confirm_email_verification-SameReviews presented d = ground arith

  pub reset_password-SameReviews :
      (presented new_password : String) (d : Db)
      → SameReviews d (request (reset_password security now presented new_password) d).1
  unfolding SameReviews reset_password consume_account_token set_password_hash update_user_row
      revoke_all_active_for_user
  reset_password-SameReviews presented new_password d = ground arith
