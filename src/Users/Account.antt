-- ===== src/Users/Account.antt =====
-- Registration, profile edits and account deletion: backlogg/users/service.py. The avatar object in
-- the bucket is outside the database and is left out.
use backlogg.Prelude.{String, Option, none, some, is_some}
use backlogg.Db.Tables.{User}
use backlogg.Db.Session.{Action, pure, gets, execute, modify, commit, raise_if, ◌>>=◌, ◌>>◌}
use backlogg.Ratings.Aggregates.{recalculate_item_aggregates_batch}
use backlogg.Ratings.Repository.{get_distinct_rated_items_for_user}
use backlogg.Users.Repository.{
  get_user_by_username, get_user_by_email, create_user, update_user_row, delete_user,
}

pub record UserCreate : Type 0 where
  pub username : String
  pub email : String
  pub password : String
  pub display_name : Option String

-- A field that was left out keeps its value; `some none` clears it.
pub record UserUpdate : Type 0 where
  pub display_name : Option (Option String)
  pub bio : Option (Option String)
  pub avatar_url : Option (Option String)

abbrev pub given : Option (Option String) → Option String → Option String
given none old = old
given (some new) old = new

unfoldable pub register_user : (String → String) → UserCreate → Action User
register_user hash_password payload = do
  same_name ← gets (get_user_by_username payload.username)
  raise_if (is_some same_name) 409 "Username already taken"
  same_email ← gets (get_user_by_email payload.email)
  raise_if (is_some same_email) 409 "Email already registered"
  user ← execute (
      create_user payload.username payload.email (hash_password payload.password)
        payload.display_name)
  commit
  pure user

abbrev pub with_update : UserUpdate → User → User
with_update payload u = record u {
  display_name = given payload.display_name u.display_name;
  bio = given payload.bio u.bio;
  avatar_url = given payload.avatar_url u.avatar_url;
}

unfoldable pub update_current_user : User → UserUpdate → Action User
update_current_user user payload = do
  modify (update_user_row user.id (with_update payload))
  commit
  pure (with_update payload user)

unfoldable pub delete_current_user : User → Action (Unit {0})
delete_current_user user = do
  rated_items ← gets (get_distinct_rated_items_for_user user.id)
  modify (delete_user user.id)
  modify (recalculate_item_aggregates_batch rated_items)
  commit
