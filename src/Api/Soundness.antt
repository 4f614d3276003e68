-- ===== src/Api/Soundness.antt =====
-- Whatever the requests and their order, the catalog's ratings stay those of the visible reviews.
use backlogg.Prelude.{
  ℕ, Bool, String, List, [], ◌∷◌, Option, ◌==◌, ◌≡◌, refl, ◌<◌, is_some, same_flag, inl, inr,
  Bool-cases, Option-cases,
}
use backlogg.Prelude.Rows.{All-of_find}
use backlogg.Db.Tables.{User, Db}
use backlogg.Db.Session.{Result, ok, raised, request}
use backlogg.Ratings.Sound.{IsSound}
use backlogg.Ratings.Removal.{SameCore-IsSound}
use backlogg.Ratings.Requests.{rate_item-IsSound, delete_item_rating-IsSound}
use backlogg.Users.Repository.{
  get_user_by_username, get_user_by_email, get_user_by_id, set_user_admin,
}
use backlogg.Users.Sessions.{Security, get_current_user}
use backlogg.Users.Bearer.{get_current_user-found}
use backlogg.Users.Account.{
  UserCreate, with_update, register_user, update_current_user, delete_current_user,
}
use backlogg.Users.Edits.{
  edited-IsSound, request_email_verification-SameCore, request_password_reset-SameCore,
  confirm_email_verification-IsSound, reset_password-IsSound,
}
use backlogg.Users.Soundness.{registered-IsSound, deleted-IsSound}
use backlogg.Moderation.{set_user_admin_role}
use backlogg.Moderation.Soundness.{
  insert_admin_action-IsSound, set_review_hidden-IsSound, set_user_banned-IsSound,
}
use backlogg.Api.Frames.{
  follow_user-SameCore, unfollow_user-SameCore, like_review-SameCore, unlike_review-SameCore,
  set_library_status-SameCore, remove_library_entry-SameCore, mark_read-SameCore,
  delete_notification-SameCore, login_user-SameCore, refresh_tokens-SameCore, logout_user-SameCore,
  report_review-SameCore, resolve_report-SameCore,
}
use backlogg.Api.{Member, Call, serve_member, on_behalf, serve, serve_all}

register_user-IsSound :
    (hash : String → String) (payload : UserCreate) (d : Db)
    → IsSound d
    → IsSound (request (register_user hash payload) d).1
unfolding register_user
register_user-IsSound hash payload d s =
    elim (Bool-cases (is_some (get_user_by_username payload.username d))) [
      | inl e ↦ rw e s
      | inr e ↦ elim (Bool-cases (is_some (get_user_by_email payload.email d))) [
        | inl e' ↦ rw (e, e') s
        | inr e' ↦
            rw (e, e')
              (registered-IsSound payload.username payload.email (hash payload.password)
                payload.display_name d s)
      ]
    ]

admin_flag-IsSound :
    (target : User) (is_admin : Bool) (d : Db)
    → IsSound d
    → IsSound (set_user_admin target is_admin d)
unfolding set_user_admin
admin_flag-IsSound target is_admin d s = elim (Bool-cases (same_flag target.is_admin is_admin)) [
  | inl e ↦ rw (e, set_user_admin) s
  | inr e ↦
      rw (e, set_user_admin)
        (edited-IsSound (λ u. record u { is_admin = is_admin }) (λ x. refl) (λ x. refl) target.id d
          s)
]

set_user_admin_role-IsSound :
    (caller : User) (name : String) (is_admin : Bool) (d : Db)
    → IsSound d
    → IsSound (request (set_user_admin_role caller name is_admin) d).1
unfolding set_user_admin_role
set_user_admin_role-IsSound caller name is_admin d s = elim (Bool-cases caller.is_superadmin) [
  | inr e ↦ rw e s
  | inl e ↦ elim (Option-cases (get_user_by_username name d)) [
    | inl e' ↦ rw (e, e') s
    | inr (target, e') ↦
        rw (e, e') (insert_admin_action-IsSound _ _ _ _ _ (admin_flag-IsSound target is_admin d s))
  ]
]

serve_member-IsSound :
    (security : Security) (now : ℕ) (m : Member) (user : User) (d : Db)
    → user.id < d.users.next_id
    → IsSound d
    → IsSound (serve_member security now m user d)
unfolding serve_member
serve_member-IsSound security now (Member.rate t slug payload) user d known s =
    rate_item-IsSound t slug payload user d known s
serve_member-IsSound security now (Member.unrate t slug) user d known s =
    delete_item_rating-IsSound t slug user d s
serve_member-IsSound security now (Member.like fails i) user d known s =
    SameCore-IsSound d _ (like_review-SameCore fails i user d) s
serve_member-IsSound security now (Member.unlike i) user d known s =
    SameCore-IsSound d _ (unlike_review-SameCore i user d) s
serve_member-IsSound security now (Member.follow fails name) user d known s =
    SameCore-IsSound d _ (follow_user-SameCore fails name user d) s
serve_member-IsSound security now (Member.unfollow name) user d known s =
    SameCore-IsSound d _ (unfollow_user-SameCore name user d) s
serve_member-IsSound security now (Member.set_status fails t slug status) user d known s =
    SameCore-IsSound d _ (set_library_status-SameCore fails t slug status user d) s
serve_member-IsSound security now (Member.remove_entry t slug) user d known s =
    SameCore-IsSound d _ (remove_library_entry-SameCore t slug user d) s
serve_member-IsSound security now (Member.read_notifications ids) user d known s =
    SameCore-IsSound d _ (mark_read-SameCore user.id ids d) s
serve_member-IsSound security now (Member.remove_notification i) user d known s =
    SameCore-IsSound d _ (delete_notification-SameCore user.id i d) s
serve_member-IsSound security now (Member.edit_profile payload) user d known s =
    unfold update_current_user in
    edited-IsSound (with_update payload) (λ x. refl) (λ x. refl) user.id d s
serve_member-IsSound security now Member.delete_account user d known s =
    unfold delete_current_user in deleted-IsSound d user.id s
serve_member-IsSound security now (Member.logout presented) user d known s =
    SameCore-IsSound d _ (logout_user-SameCore security now user presented d) s
serve_member-IsSound security now (Member.set_role name is_admin) user d known s =
    set_user_admin_role-IsSound user name is_admin d s
serve_member-IsSound security now (Member.report i reason) user d known s =
    SameCore-IsSound d _ (report_review-SameCore i reason user.id d) s
serve_member-IsSound security now (Member.verify_email plaintext ttl) user d known s =
    SameCore-IsSound d _ (request_email_verification-SameCore security now plaintext ttl user d) s

get_current_user-known :
    (security : Security) (now : ℕ) (credentials : Option String) (d : Db) (user : User)
    → IsSound d
    → (request (get_current_user security now credentials) d).0 ≡ ok user
    → user.id < d.users.next_id
unfolding get_user_by_id
get_current_user-known security now credentials d user s e =
    let (_, i, _, _, found, _) = get_current_user-found security now credentials d user e in
    All-of_find (λ (u : User). u.id < d.users.next_id) (λ u. u.id == i) d.users.rows user
      s.tables.users_below found

on_behalf-IsSound :
    (security : Security) (now : ℕ) (m : Member) (r : Result User) (d : Db)
    → ((user : User) → r ≡ ok user → user.id < d.users.next_id)
    → IsSound d
    → IsSound (on_behalf security now m r d)
on_behalf-IsSound security now m (ok user) d known s =
    serve_member-IsSound security now m user d (known user refl) s
on_behalf-IsSound security now m (raised e) d known s = s

pub serve-IsSound :
    (security : Security) (now : ℕ) (c : Call) (d : Db)
    → IsSound d
    → IsSound (serve security now c d)
unfolding serve
serve-IsSound security now (Call.member credentials m) d s =
    on_behalf-IsSound security now m (request (get_current_user security now credentials) d).0 d
      (λ user e. get_current_user-known security now credentials d user s e) s
serve-IsSound security now (Call.register payload) d s =
    register_user-IsSound security.hash_password payload d s
serve-IsSound security now (Call.login plaintext name password) d s =
    SameCore-IsSound d _ (login_user-SameCore security now plaintext name password d) s
serve-IsSound security now (Call.refresh plaintext presented) d s =
    SameCore-IsSound d _ (refresh_tokens-SameCore security now plaintext presented d) s
serve-IsSound security now (Call.hide i hidden) d s = set_review_hidden-IsSound i hidden d s
serve-IsSound security now (Call.set_ban name banned) d s = set_user_banned-IsSound name banned d s
serve-IsSound security now (Call.resolve i) d s =
    SameCore-IsSound d _ (resolve_report-SameCore i d) s
serve-IsSound security now (Call.confirm_email presented) d s =
    confirm_email_verification-IsSound security now presented d s
serve-IsSound security now (Call.forgot_password plaintext ttl email) d s =
    SameCore-IsSound d _ (request_password_reset-SameCore security now plaintext ttl email d) s
serve-IsSound security now (Call.reset presented new_password) d s =
    reset_password-IsSound security now presented new_password d s

-- After any history of requests on a sound database, every item's internal rating and count are the
-- average, to the nearest hundredth, and the number of the scores of its visible reviews.
pub serve_all-IsSound :
    (security : Security) (calls : List (ℕ × Call)) (d : Db)
    → IsSound d
    → IsSound (serve_all security calls d)
unfolding serve_all
serve_all-IsSound security [] d s = s
serve_all-IsSound security ((now, c) ∷ calls) d s =
    serve_all-IsSound security calls (serve security now c d) (serve-IsSound security now c d s)
