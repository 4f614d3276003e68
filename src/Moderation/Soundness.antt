-- ===== src/Moderation/Soundness.antt =====
-- backlogg/moderation/service.py and the role service keep the invariant of Ratings/Sound.antt.
use backlogg.Prelude.{
  ℕ, Bool, String, Option, some, ◌≡◌, refl, same_flag, inl, inr, Bool-cases, Option-cases,
}
use backlogg.Db.Tables.{User, UserRating, Db, ActionName, ActionTarget}
use backlogg.Db.Session.{request}
use backlogg.Ratings.Aggregates.{recalculate_item_aggregates, recalculate_item_aggregates_batch}
use backlogg.Ratings.Repository.{get_rating_by_id, set_rating_hidden}
use backlogg.Ratings.Freshness.{recalculate-HasFreshAggregates}
use backlogg.Ratings.Sound.{IsSound, recalculate-HasSoundTables}
use backlogg.Ratings.Removal.{
  SameCore-IsSound, found-AllOfItem, rates_item_self, set_rating_hidden-AgreeOutside,
  set_rating_hidden-items, set_rating_hidden-HasSoundTables,
}
use backlogg.Users.Repository.{get_user_by_username, set_user_banned as set_flag}
use backlogg.Users.Soundness.{rated, updated-IsSound, unchanged-IsSound}
use backlogg.Moderation.{insert_admin_action, set_review_hidden, set_user_banned}

pub insert_admin_action-IsSound :
    (actor : Option ℕ) (a : ActionName) (t : ActionTarget) (i : ℕ) (d : Db)
    → IsSound d
    → IsSound (insert_admin_action actor a t i d)
unfolding insert_admin_action
insert_admin_action-IsSound actor a t i d s = SameCore-IsSound d _ (refl, refl, refl) s

hidden-IsSound :
    (rating_id : ℕ) (hidden : Bool) (d : Db) (r : UserRating)
    → get_rating_by_id rating_id d ≡ some r
    → IsSound d
    → IsSound (recalculate_item_aggregates r.item_type r.item_id (set_rating_hidden r hidden d))
unfolding get_rating_by_id
hidden-IsSound rating_id hidden d r e s =
    let own = found-AllOfItem d r r.item_type r.item_id _ e (rates_item_self r) s.tables in
    record {
      fresh =
          recalculate-HasFreshAggregates d (set_rating_hidden r hidden d) r.item_type r.item_id
            (set_rating_hidden-items d r r.item_type r.item_id hidden)
            (set_rating_hidden-AgreeOutside d r r.item_type r.item_id hidden own) s.fresh;
      tables =
          recalculate-HasSoundTables r.item_type r.item_id (set_rating_hidden r hidden d)
            (set_rating_hidden-HasSoundTables d r r.item_type r.item_id hidden s.tables);
    }

-- Hiding a review or showing it again keeps every item's rating and count those of its visible
-- scores.
pub set_review_hidden-IsSound :
    (rating_id : ℕ) (hidden : Bool) (d : Db)
    → IsSound d
    → IsSound (request (set_review_hidden rating_id hidden) d).1
unfolding set_review_hidden
set_review_hidden-IsSound rating_id hidden d s =
    elim (Option-cases (get_rating_by_id rating_id d)) [
      | inl e ↦ rw e s
      | inr (r, e) ↦
          rw e (insert_admin_action-IsSound _ _ _ _ _ (hidden-IsSound rating_id hidden d r e s))
    ]

banned-IsSound :
    (user : User) (banned : Bool) (d : Db)
    → IsSound d
    → IsSound (recalculate_item_aggregates_batch (rated d user.id) (set_flag user banned d))
unfolding set_flag
banned-IsSound user banned d s = elim (Bool-cases (same_flag user.is_banned banned)) [
  | inl e ↦ rw (e, set_flag) (unchanged-IsSound d user.id s)
  | inr e ↦
      rw (e, set_flag)
        (updated-IsSound d user.id (λ u. record u { is_banned = banned }) (λ x. refl) s)
]

-- So does banning a user or lifting the ban.
pub set_user_banned-IsSound :
    (username : String) (banned : Bool) (d : Db)
    → IsSound d
    → IsSound (request (set_user_banned username banned) d).1
unfolding set_user_banned
set_user_banned-IsSound username banned d s =
    elim (Option-cases (get_user_by_username username d)) [
      | inl e ↦ rw e s
      | inr (user, e) ↦
          rw e (insert_admin_action-IsSound _ _ _ _ _ (banned-IsSound user banned d s))
    ]
