-- ===== src/Db.antt =====
-- The database as the services see it.
pub mod Tables
pub mod Session
