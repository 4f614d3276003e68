-- ===== src/Users/Repository.antt =====
-- backlogg/users/repository.py. A deleted user takes along the rows that reference it; the audit log
-- keeps its rows without the actor (ON DELETE SET NULL).
use backlogg.Prelude.{
  ℕ, Bool, true, false, not, ◌&&◌, ◌||◌, String, str_eq, List, Option, none, some, ◌==◌,
  if◌then◌else◌, is_some, same_flag, find, any, update_where, delete_where, map,
}
use backlogg.Db.Tables.{
  User, UserRating, RefreshToken, TokenPurpose, AccountToken, AdminAction, insert_row, Db,
}

unfoldable pub get_user_by_username : String → Db → Option User
get_user_by_username username d = find (λ u. str_eq u.username username) d.users.rows

unfoldable pub get_user_by_email : String → Db → Option User
get_user_by_email email d = find (λ u. str_eq u.email email) d.users.rows

unfoldable pub get_user_by_id : ℕ → Db → Option User
get_user_by_id user_id d = find (λ u. u.id == user_id) d.users.rows

-- The columns that are not given take their server defaults.
unfoldable pub create_user : String → String → String → Option String → Db → User × Db
create_user username email password_hash display_name d =
    let row : ℕ → User = λ id. record {
      id = id;
      username = username;
      email = email;
      password_hash = password_hash;
      display_name = display_name;
      bio = none;
      avatar_url = none;
      email_verified = false;
      is_banned = false;
      is_admin = false;
      is_superadmin = false;
    } in
    (row d.users.next_id, record d { users = insert_row row d.users })

unfoldable pub update_user_row : ℕ → (User → User) → Db → Db
update_user_row user_id f d = record d {
  users = record (d.users) { rows = update_where (λ u. u.id == user_id) f d.users.rows };
}

unfoldable pub set_user_banned : User → Bool → Db → Db
set_user_banned user banned d =
    if same_flag user.is_banned banned
    then d
    else update_user_row user.id (λ u. record u { is_banned = banned }) d

unfoldable pub set_user_admin : User → Bool → Db → Db
set_user_admin user is_admin d =
    if same_flag user.is_admin is_admin
    then d
    else update_user_row user.id (λ u. record u { is_admin = is_admin }) d

-- The reviews that go with their author.
unfoldable pub of_author : ℕ → List UserRating → ℕ → Bool
of_author user_id ratings rating_id = any (λ r. r.id == rating_id && r.user_id == user_id) ratings

abbrev pub of_authored : ℕ → List UserRating → Option ℕ → Bool
of_authored user_id ratings none = false
of_authored user_id ratings (some i) = of_author user_id ratings i

abbrev forget_actor : ℕ → AdminAction → AdminAction
forget_actor user_id a = elim (a.actor_id) [
  | none ↦ a
  | some i ↦ if i == user_id then record a { actor_id = none } else a
]

unfoldable pub delete_user : ℕ → Db → Db
delete_user user_id d =
    let ratings = d.user_ratings.rows in
    record d {
      users = record (d.users) { rows = delete_where (λ u. u.id == user_id) d.users.rows };
      user_ratings = record (d.user_ratings) {
        rows = delete_where (λ r. r.user_id == user_id) ratings;
      };
      review_likes = record (d.review_likes) {
        rows =
            delete_where (λ l. l.user_id == user_id || of_author user_id ratings l.rating_id)
              d.review_likes.rows;
      };
      review_reports = record (d.review_reports) {
        rows =
            delete_where (λ p. p.reporter_id == user_id || of_author user_id ratings p.rating_id)
              d.review_reports.rows;
      };
      activity_events = record (d.activity_events) {
        rows =
            delete_where (λ e. e.user_id == user_id || of_authored user_id ratings e.rating_id)
              d.activity_events.rows;
      };
      follows = record (d.follows) {
        rows =
            delete_where (λ f. f.follower_id == user_id || f.followed_id == user_id) d.follows.rows;
      };
      library_entries = record (d.library_entries) {
        rows = delete_where (λ e. e.user_id == user_id) d.library_entries.rows;
      };
      notifications = record (d.notifications) {
        rows =
            delete_where (λ n. n.recipient_id == user_id || n.actor_id == user_id)
              d.notifications.rows;
      };
      refresh_tokens = record (d.refresh_tokens) {
        rows = delete_where (λ t. t.user_id == user_id) d.refresh_tokens.rows;
      };
      account_tokens = record (d.account_tokens) {
        rows = delete_where (λ t. t.user_id == user_id) d.account_tokens.rows;
      };
      admin_actions = record (d.admin_actions) {
        rows = map (forget_actor user_id) d.admin_actions.rows;
      };
    }

unfoldable pub create_refresh_token : ℕ → String → ℕ → Db → Db
create_refresh_token user_id token_hash expires_at d = record d {
  refresh_tokens =
      insert_row
        (λ id. record {
          id = id;
          user_id = user_id;
          token_hash = token_hash;
          expires_at = expires_at;
          revoked_at = none;
        })
        d.refresh_tokens;
}

unfoldable pub get_refresh_token_by_hash : String → Db → Option RefreshToken
get_refresh_token_by_hash token_hash d =
    find (λ t. str_eq t.token_hash token_hash) d.refresh_tokens.rows

unfoldable pub revoke_refresh_token : RefreshToken → ℕ → Db → Db
revoke_refresh_token token now d = if is_some token.revoked_at then d else record d {
  refresh_tokens = record (d.refresh_tokens) {
    rows =
        update_where (λ t. t.id == token.id) (λ t. record t { revoked_at = some now })
          d.refresh_tokens.rows;
  };
}

unfoldable pub revoke_all_active_for_user : ℕ → ℕ → Db → Db
revoke_all_active_for_user user_id now d = record d {
  refresh_tokens = record (d.refresh_tokens) {
    rows =
        update_where (λ t. t.user_id == user_id && not (is_some t.revoked_at))
          (λ t. record t { revoked_at = some now }) d.refresh_tokens.rows;
  };
}

unfoldable pub create_account_token : ℕ → String → TokenPurpose → ℕ → Db → Db
create_account_token user_id token_hash purpose expires_at d = record d {
  account_tokens =
      insert_row
        (λ id. record {
          id = id;
          user_id = user_id;
          token_hash = token_hash;
          purpose = purpose;
          expires_at = expires_at;
          consumed_at = none;
        })
        d.account_tokens;
}

unfoldable pub get_account_token_by_hash : String → Db → Option AccountToken
get_account_token_by_hash token_hash d =
    find (λ t. str_eq t.token_hash token_hash) d.account_tokens.rows

unfoldable pub consume_account_token : AccountToken → ℕ → Db → Db
consume_account_token token now d = record d {
  account_tokens = record (d.account_tokens) {
    rows =
        update_where (λ t. t.id == token.id) (λ t. record t { consumed_at = some now })
          d.account_tokens.rows;
  };
}

unfoldable pub set_email_verified : ℕ → Db → Db
unfolding update_user_row
set_email_verified user_id = update_user_row user_id (λ u. record u { email_verified = true })

unfoldable pub set_password_hash : ℕ → String → Db → Db
unfolding update_user_row
set_password_hash user_id password_hash =
    update_user_row user_id (λ u. record u { password_hash = password_hash })
