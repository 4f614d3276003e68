-- ===== src/Api/Announced.antt =====
-- Whatever the requests and their order, the feed announces the reviews with content, each of them once.
use backlogg.Prelude.{ℕ, Bool, List, [], ◌∷◌, refl, Option-cases, inl, inr}
use backlogg.Db.Tables.{User, Db}
use backlogg.Db.Session.{Result, ok, raised, request}
use backlogg.Feed.Announced.{HasFeed, SameFeed-HasFeed}
use backlogg.Feed.Requests.{
  rate_item-HasFeed, delete_item_rating-HasFeed, set_rating_hidden-HasFeed,
}
use backlogg.Feed.Erased.{delete_user-HasFeed}
use backlogg.Ratings.Aggregates.{recalculate_item_aggregates, recalculate_item_aggregates_batch}
use backlogg.Ratings.Repository.{get_rating_by_id}
use backlogg.Ratings.Sound.{IsSound}
use backlogg.Users.Sessions.{Security, get_current_user}
use backlogg.Users.Account.{delete_current_user}
use backlogg.Moderation.{insert_admin_action, set_review_hidden}
use backlogg.Api.Soundness.{serve-IsSound}
use backlogg.Api.Unannounced.{
  follow_user-SameFeed, unfollow_user-SameFeed, like_review-SameFeed, unlike_review-SameFeed,
  remove_library_entry-SameFeed, mark_read-SameFeed, delete_notification-SameFeed,
  report_review-SameFeed, request_email_verification-SameFeed, request_password_reset-SameFeed,
  confirm_email_verification-SameFeed, reset_password-SameFeed, resolve_report-SameFeed,
  update_current_user-SameFeed, register_user-SameFeed, set_user_banned-SameFeed,
  set_user_admin_role-SameFeed, login_user-SameFeed, refresh_tokens-SameFeed, logout_user-SameFeed,
  set_library_status-HasFeed,
}
use backlogg.Api.{Member, Call, serve_member, on_behalf, serve, serve_all}

set_review_hidden-HasFeed :
    (i : ℕ) (hidden : Bool) (d : Db)
    → HasFeed d
    → HasFeed (request (set_review_hidden i hidden) d).1
unfolding set_review_hidden recalculate_item_aggregates insert_admin_action
set_review_hidden-HasFeed i hidden d h = elim (Option-cases (get_rating_by_id i d)) [
  | inl e ↦ rw e h
  | inr (r, e) ↦ rw e (SameFeed-HasFeed _ _ (refl, refl) (set_rating_hidden-HasFeed r hidden d h))
]

delete_current_user-HasFeed :
    (user : User) (d : Db)
    → IsSound d
    → HasFeed d
    → HasFeed (request (delete_current_user user) d).1
unfolding delete_current_user recalculate_item_aggregates_batch
delete_current_user-HasFeed user d s h =
    SameFeed-HasFeed _ _ (refl, refl) (delete_user-HasFeed user.id d s.tables h)

module _ (security : Security) (now : ℕ) where
  serve_member-HasFeed :
      (m : Member) (user : User) (d : Db)
      → IsSound d
      → HasFeed d
      → HasFeed (serve_member security now m user d)
  unfolding serve_member
  serve_member-HasFeed (Member.rate t slug payload) user d s h =
      rate_item-HasFeed t slug payload user d s.tables h
  serve_member-HasFeed (Member.unrate t slug) user d s h =
      delete_item_rating-HasFeed t slug user d h
  serve_member-HasFeed (Member.like fails i) user d s h =
      SameFeed-HasFeed d _ (like_review-SameFeed fails i user d) h
  serve_member-HasFeed (Member.unlike i) user d s h =
      SameFeed-HasFeed d _ (unlike_review-SameFeed i user d) h
  serve_member-HasFeed (Member.follow fails name) user d s h =
      SameFeed-HasFeed d _ (follow_user-SameFeed fails name user d) h
  serve_member-HasFeed (Member.unfollow name) user d s h =
      SameFeed-HasFeed d _ (unfollow_user-SameFeed name user d) h
  serve_member-HasFeed (Member.set_status fails t slug status) user d s h =
      set_library_status-HasFeed t status user d fails slug h
  serve_member-HasFeed (Member.remove_entry t slug) user d s h =
      SameFeed-HasFeed d _ (remove_library_entry-SameFeed t slug user d) h
  serve_member-HasFeed (Member.read_notifications ids) user d s h =
      SameFeed-HasFeed d _ (mark_read-SameFeed user.id ids d) h
  serve_member-HasFeed (Member.remove_notification i) user d s h =
      SameFeed-HasFeed d _ (delete_notification-SameFeed user.id i d) h
  serve_member-HasFeed (Member.edit_profile payload) user d s h =
      SameFeed-HasFeed d _ (update_current_user-SameFeed user payload d) h
  serve_member-HasFeed Member.delete_account user d s h = delete_current_user-HasFeed user d s h
  serve_member-HasFeed (Member.logout presented) user d s h =
      SameFeed-HasFeed d _ (logout_user-SameFeed security now user presented d) h
  serve_member-HasFeed (Member.set_role name is_admin) user d s h =
      SameFeed-HasFeed d _ (set_user_admin_role-SameFeed user name is_admin d) h
  serve_member-HasFeed (Member.report i reason) user d s h =
      SameFeed-HasFeed d _ (report_review-SameFeed i reason user.id d) h
  serve_member-HasFeed (Member.verify_email plaintext ttl) user d s h =
      SameFeed-HasFeed d _ (request_email_verification-SameFeed security now plaintext ttl user d) h

  on_behalf-HasFeed :
      (m : Member) (r : Result User) (d : Db)
      → IsSound d
      → HasFeed d
      → HasFeed (on_behalf security now m r d)
  on_behalf-HasFeed m (ok user) d s h = serve_member-HasFeed m user d s h
  on_behalf-HasFeed m (raised e) d s h = h

  serve-HasFeed : (c : Call) (d : Db) → IsSound d → HasFeed d → HasFeed (serve security now c d)
  unfolding serve
  serve-HasFeed (Call.member credentials m) d s h =
      on_behalf-HasFeed m (request (get_current_user security now credentials) d).0 d s h
  serve-HasFeed (Call.register payload) d s h =
      SameFeed-HasFeed d _ (register_user-SameFeed security.hash_password payload d) h
  serve-HasFeed (Call.login plaintext name password) d s h =
      SameFeed-HasFeed d _ (login_user-SameFeed security now plaintext name password d) h
  serve-HasFeed (Call.refresh plaintext presented) d s h =
      SameFeed-HasFeed d _ (refresh_tokens-SameFeed security now plaintext presented d) h
  serve-HasFeed (Call.hide i hidden) d s h = set_review_hidden-HasFeed i hidden d h
  serve-HasFeed (Call.set_ban name banned) d s h =
      SameFeed-HasFeed d _ (set_user_banned-SameFeed name banned d) h
  serve-HasFeed (Call.resolve i) d s h = SameFeed-HasFeed d _ (resolve_report-SameFeed i d) h
  serve-HasFeed (Call.confirm_email presented) d s h =
      SameFeed-HasFeed d _ (confirm_email_verification-SameFeed security now presented d) h
  serve-HasFeed (Call.forgot_password plaintext ttl email) d s h =
      SameFeed-HasFeed d _ (request_password_reset-SameFeed security now plaintext ttl email d) h
  serve-HasFeed (Call.reset presented new_password) d s h =
      SameFeed-HasFeed d _ (reset_password-SameFeed security now presented new_password d) h

-- After any history of requests on a sound database with a consistent feed, each review with a score or a text has one
-- event, of its author, no other event is about a review, and no user has two reviews of an item.
pub serve_all-HasFeed :
    (security : Security) (calls : List (ℕ × Call)) (d : Db)
    → IsSound d
    → HasFeed d
    → HasFeed (serve_all security calls d)
unfolding serve_all
serve_all-HasFeed security [] d s h = h
serve_all-HasFeed security ((now, c) ∷ calls) d s h =
    serve_all-HasFeed security calls (serve security now c d) (serve-IsSound security now c d s)
      (serve-HasFeed security now c d s h)
