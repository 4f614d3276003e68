-- ===== src/Ranking.antt =====
-- The ranker of backlogg/recommendations/ranking.py: its candidates, and the composition of its two steps.
-- Floating-point arithmetic and the regular expressions of the titles are given by records.
pub mod Titles
pub mod Diversity
pub mod Quota
pub mod Shuffle
pub mod Fairness
use backlogg.Prelude.{ℕ, Bool, List, [], ◌∷◌, Option, none, some, String}

-- Python's floats, as far as the ranker computes with them.
pub record FloatOps (F : Type 0) : Type 0 where
  pub gt : F → F → Bool
  pub eq : F → F → Bool
  pub mul : F → F → F
  pub pow : F → ℕ → F
  pub sub : F → F → F
  pub max : F → F → F
  pub zero : F
  pub one : F
  pub negative_infinity : F

-- A release date is a number of days.
pub record Candidate (F : Type 0) : Type 0 where
  pub item_type : String
  pub item_id : ℕ
  pub title : String
  pub slug : String
  pub poster_url : Option String
  pub release_date : Option ℕ
  pub rating_external : Option F
  pub rating_internal : Option F
  pub score : F
  pub creator_ids : List ℕ
