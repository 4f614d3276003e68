-- ===== src/Users.antt =====
-- Accounts: backlogg/users.
pub mod Repository
pub mod Sessions
pub mod Account
pub mod Soundness
pub mod Edits
pub mod Spent
pub mod SpentRequests
pub mod Bearer
pub mod Recovery
pub mod Rotation
pub mod Reset
