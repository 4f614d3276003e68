-- ===== src/Tests.antt =====
-- A small database, runs of the services on it, and the theorems at concrete inputs.
mod Sample
mod Catalog
mod Accounts
mod Limits
mod Similar
mod Social
mod Editing
mod Sync
mod Nights
mod Columns
mod Identities
