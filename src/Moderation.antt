-- ===== src/Moderation.antt =====
-- Moderation and the admin audit log: backlogg/moderation/service.py, backlogg/admin/audit.py,
-- backlogg/admin/repository.py (insert_admin_action) and the role service of backlogg/admin/service.py.
pub mod Soundness
use backlogg.Prelude.{ℕ, Bool, true, false, not, String, List, Option, none, some, if◌then◌else◌}
use backlogg.Db.Tables.{
  ItemType, User, UserRating, ActionName, hide_review, unhide_review, ban_user, unban_user,
  grant_admin, revoke_admin, ActionTarget, target_review, target_user, AdminAction, insert_row, Db,
}
use backlogg.Db.Session.{Action, pure, gets, modify, commit, or_error, raise_if, ◌>>=◌, ◌>>◌}
use backlogg.Ratings.Aggregates.{recalculate_item_aggregates, recalculate_item_aggregates_batch}
use backlogg.Ratings.Repository.{set_rating_hidden, get_distinct_rated_items_for_user}
use backlogg.Ratings.Service.{get_review_or_404}
use backlogg.Users.Repository.{
  get_user_by_username, set_user_banned as set_banned_flag, set_user_admin,
}

unfoldable pub insert_admin_action : Option ℕ → ActionName → ActionTarget → ℕ → Db → Db
insert_admin_action actor_id action target_type target_id d = record d {
  admin_actions =
      insert_row
        (λ id. record {
          id = id;
          actor_id = actor_id;
          action = action;
          target_type = target_type;
          target_id = target_id;
        })
        d.admin_actions;
}

unfoldable pub record_admin_action : Option ℕ → ActionName → ActionTarget → ℕ → Action (Unit {0})
record_admin_action actor_id action target_type target_id =
    modify (insert_admin_action actor_id action target_type target_id)

pub record ReviewModerationOut : Type 0 where
  pub id : ℕ
  pub is_hidden : Bool

pub record UserModerationOut : Type 0 where
  pub username : String
  pub is_banned : Bool

pub record RoleGrantOut : Type 0 where
  pub username : String
  pub is_admin : Bool

abbrev pub get_user_or_404 : String → Action User
get_user_or_404 username = do
  found ← gets (get_user_by_username username)
  or_error 404 "User not found" found

unfoldable pub set_review_hidden : ℕ → Bool → Action ReviewModerationOut
unfolding record_admin_action
set_review_hidden rating_id hidden = do
  rating ← get_review_or_404 "Review not found" rating_id
  modify (set_rating_hidden rating hidden)
  modify (recalculate_item_aggregates rating.item_type rating.item_id)
  record_admin_action none (if hidden then hide_review else unhide_review) target_review rating.id
  commit
  pure (record { id = rating.id; is_hidden = hidden })

unfoldable pub set_user_banned : String → Bool → Action UserModerationOut
unfolding record_admin_action
set_user_banned username banned = do
  user ← get_user_or_404 username
  rated_items ← gets (get_distinct_rated_items_for_user user.id)
  modify (set_banned_flag user banned)
  modify (recalculate_item_aggregates_batch rated_items)
  record_admin_action none (if banned then ban_user else unban_user) target_user user.id
  commit
  pure (record { username = user.username; is_banned = banned })

unfoldable pub set_user_admin_role : User → String → Bool → Action RoleGrantOut
unfolding record_admin_action
set_user_admin_role caller username is_admin = do
  raise_if (not caller.is_superadmin) 403 "Superadmin privileges required"
  target ← get_user_or_404 username
  modify (set_user_admin target is_admin)
  record_admin_action (some caller.id) (if is_admin then grant_admin else revoke_admin) target_user
      target.id
  commit
  pure (record { username = target.username; is_admin = is_admin })
