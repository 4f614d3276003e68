-- ===== src/Ratings.antt =====
-- Ratings and reviews: backlogg/ratings.
pub mod Rounding
pub mod Aggregates
pub mod Repository
pub mod Scores
pub mod Authors
pub mod Ties
pub mod Batch
pub mod Agreement
pub mod Divergence
pub mod Freshness
pub mod Sound
pub mod Removal
pub mod Service
pub mod Requests
