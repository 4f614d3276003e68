-- ===== src/Follows.antt =====
-- Follows: backlogg/follows/repository.py and backlogg/follows/service.py. `fails` says that the
-- notification raises.
use backlogg.Prelude.{
  ℕ, Bool, true, false, ◌&&◌, String, none, some, ◌==◌, if◌then◌else◌, is_some, length, filter,
  find, delete_where,
}
use backlogg.Db.Tables.{User, Follow, insert_row, Db}
use backlogg.Db.Session.{
  Action, pure, gets, execute, modify, commit, or_error, raise_if, ◌>>=◌, ◌>>◌,
}
use backlogg.Notifications.{notify_new_follower}
use backlogg.Users.Repository.{get_user_by_username}

unfoldable pub is_follow : ℕ → ℕ → Follow → Bool
is_follow follower_id followed_id f = f.follower_id == follower_id && f.followed_id == followed_id

-- INSERT ... ON CONFLICT uq_follow_pair DO NOTHING: was a row inserted?
unfoldable pub create_follow_if_not_exists : ℕ → ℕ → Db → Bool × Db
create_follow_if_not_exists follower_id followed_id d =
    if is_some (find (is_follow follower_id followed_id) d.follows.rows) then (false, d) else (
      true,
      record d {
        follows =
            insert_row
              (λ id. record { id = id; follower_id = follower_id; followed_id = followed_id })
              d.follows;
      },
    )

unfoldable pub delete_follow_if_exists : ℕ → ℕ → Db → Db
delete_follow_if_exists follower_id followed_id d =
    elim (find (is_follow follower_id followed_id) d.follows.rows) [
      | none ↦ d
      | some follow ↦ record d {
        follows = record (d.follows) {
          rows = delete_where (λ f. f.id == follow.id) d.follows.rows;
        };
      }
    ]

unfoldable pub count_followers : ℕ → Db → ℕ
count_followers user_id d = length (filter (λ f. f.followed_id == user_id) d.follows.rows)

unfoldable pub count_following : ℕ → Db → ℕ
count_following user_id d = length (filter (λ f. f.follower_id == user_id) d.follows.rows)

abbrev pub get_target_or_404 : String → Action User
get_target_or_404 username = do
  found ← gets (get_user_by_username username)
  or_error 404 "User not found" found

unfoldable pub follow_user : Bool → String → User → Action (Unit {0})
follow_user fails username user = do
  target ← get_target_or_404 username
  raise_if (target.id == user.id) 422 "You cannot follow yourself"
  created ← execute (create_follow_if_not_exists user.id target.id)
  commit
  if created then notify_new_follower fails target.id user.id else pure tt

unfoldable pub unfollow_user : String → User → Action (Unit {0})
unfollow_user username user = do
  target ← get_target_or_404 username
  modify (delete_follow_if_exists user.id target.id)
  commit
