-- ===== src/Api/Spent.antt =====
-- Refresh tokens and reset tokens work once, whatever requests come in between.
use backlogg.Prelude.{ℕ, Bool, false, String, str_eq, List, [], ◌∷◌, ◌≡◌, arith, any}
use backlogg.Db.Tables.{User, Db}
use backlogg.Db.Session.{Result, ok, raised, request}
use backlogg.Users.Sessions.{Security, get_current_user}
use backlogg.Users.Spent.{KeepsDead, KeepsDead-refl, KeepsDead-trans, delete_current_user-KeepsDead}
use backlogg.Users.SpentRequests.{
  login_user-KeepsDead, refresh_tokens-KeepsDead, logout_user-KeepsDead,
  request_email_verification-KeepsDead, request_password_reset-KeepsDead,
  confirm_email_verification-KeepsDead, reset_password-KeepsDead,
}
use backlogg.Api.Side.{
  SameSide, follow_user-SameSide, unfollow_user-SameSide, like_review-SameSide,
  unlike_review-SameSide, set_library_status-SameSide, remove_library_entry-SameSide,
  mark_read-SameSide, delete_notification-SameSide, rate_item-SameSide,
  update_current_user-SameSide, register_user-SameSide, set_review_hidden-SameSide,
  set_user_banned-SameSide, set_user_admin_role-SameSide,
}
use backlogg.Api.Moderated.{
  SameTokens, delete_item_rating-SameTokens, report_review-SameTokens, resolve_report-SameTokens,
}
use backlogg.Api.{Member, Call, serve_member, on_behalf, serve, serve_all}

module _ (security : Security) (h : String) where
  abbrev draws_member : Member → Bool
  draws_member (Member.verify_email plaintext ttl) = str_eq (security.hash_token plaintext) h
  draws_member _ = false

  -- The request draws a token with this hash.
  abbrev pub draws : Call → Bool
  draws (Call.member credentials m) = draws_member m
  draws (Call.login plaintext name password) = str_eq (security.hash_token plaintext) h
  draws (Call.refresh plaintext presented) = str_eq (security.hash_token plaintext) h
  draws (Call.forgot_password plaintext ttl email) = str_eq (security.hash_token plaintext) h
  draws _ = false

  tokens : (d d' : Db) → SameTokens d d' → KeepsDead h d d'
  unfolding SameTokens
  tokens d d' (refresh, account) = (λ s. rw refresh s, λ u. rw account u)

  side : (d d' : Db) → SameSide d d' → KeepsDead h d d'
  unfolding SameSide
  side d d' (refresh, account, reports) = (λ s. rw refresh s, λ u. rw account u)

  module _ (now : ℕ) where
    serve_member-KeepsDead :
        (m : Member) (user : User) (d : Db)
        → draws_member m ≡ false
        → KeepsDead h d (serve_member security now m user d)
    unfolding serve_member
    serve_member-KeepsDead (Member.rate t slug payload) user d o =
        side d _ (rate_item-SameSide t slug payload user d)
    serve_member-KeepsDead (Member.unrate t slug) user d o =
        tokens d _ (delete_item_rating-SameTokens t slug user d)
    serve_member-KeepsDead (Member.like fails i) user d o =
        side d _ (like_review-SameSide fails i user d)
    serve_member-KeepsDead (Member.unlike i) user d o = side d _ (unlike_review-SameSide i user d)
    serve_member-KeepsDead (Member.follow fails name) user d o =
        side d _ (follow_user-SameSide fails name user d)
    serve_member-KeepsDead (Member.unfollow name) user d o =
        side d _ (unfollow_user-SameSide name user d)
    serve_member-KeepsDead (Member.set_status fails t slug status) user d o =
        side d _ (set_library_status-SameSide fails t slug status user d)
    serve_member-KeepsDead (Member.remove_entry t slug) user d o =
        side d _ (remove_library_entry-SameSide t slug user d)
    serve_member-KeepsDead (Member.read_notifications ids) user d o =
        side d _ (mark_read-SameSide user.id ids d)
    serve_member-KeepsDead (Member.remove_notification i) user d o =
        side d _ (delete_notification-SameSide user.id i d)
    serve_member-KeepsDead (Member.edit_profile payload) user d o =
        side d _ (update_current_user-SameSide user payload d)
    serve_member-KeepsDead Member.delete_account user d o = delete_current_user-KeepsDead h user d
    serve_member-KeepsDead (Member.logout presented) user d o =
        logout_user-KeepsDead h security now user presented d
    serve_member-KeepsDead (Member.set_role name is_admin) user d o =
        side d _ (set_user_admin_role-SameSide user name is_admin d)
    serve_member-KeepsDead (Member.report i reason) user d o =
        tokens d _ (report_review-SameTokens i reason user.id d)
    serve_member-KeepsDead (Member.verify_email plaintext ttl) user d o =
        request_email_verification-KeepsDead h security now plaintext ttl user d o

    on_behalf-KeepsDead :
        (m : Member) (r : Result User) (d : Db)
        → draws_member m ≡ false
        → KeepsDead h d (on_behalf security now m r d)
    on_behalf-KeepsDead m (ok user) d o = serve_member-KeepsDead m user d o
    on_behalf-KeepsDead m (raised e) d o = KeepsDead-refl h d

    serve-KeepsDead : (c : Call) (d : Db) → draws c ≡ false → KeepsDead h d (serve security now c d)
    unfolding serve
    serve-KeepsDead (Call.member credentials m) d o =
        on_behalf-KeepsDead m (request (get_current_user security now credentials) d).0 d o
    serve-KeepsDead (Call.register payload) d o =
        side d _ (register_user-SameSide security.hash_password payload d)
    serve-KeepsDead (Call.login plaintext name password) d o =
        login_user-KeepsDead h security now plaintext name password d o
    serve-KeepsDead (Call.refresh plaintext presented) d o =
        refresh_tokens-KeepsDead h security now plaintext presented d o
    serve-KeepsDead (Call.hide i hidden) d o = side d _ (set_review_hidden-SameSide i hidden d)
    serve-KeepsDead (Call.set_ban name banned) d o =
        side d _ (set_user_banned-SameSide name banned d)
    serve-KeepsDead (Call.resolve i) d o = tokens d _ (resolve_report-SameTokens i d)
    serve-KeepsDead (Call.confirm_email presented) d o =
        confirm_email_verification-KeepsDead h security now presented d
    serve-KeepsDead (Call.forgot_password plaintext ttl email) d o =
        request_password_reset-KeepsDead h security now plaintext ttl email d o
    serve-KeepsDead (Call.reset presented new_password) d o =
        reset_password-KeepsDead h security now presented new_password d

  pub serve_all-KeepsDead :
      (calls : List (ℕ × Call)) (d : Db)
      → any (λ c. draws c.1) calls ≡ false
      → KeepsDead h d (serve_all security calls d)
  unfolding serve_all any
  serve_all-KeepsDead [] d o = KeepsDead-refl h d
  serve_all-KeepsDead ((now, c) ∷ calls) d o =
      let d' = serve security now c d in
      KeepsDead-trans h d d' (serve_all security calls d')
        (serve-KeepsDead now c d (ground (arith, o)))
        (serve_all-KeepsDead calls d' (ground (arith, o)))
