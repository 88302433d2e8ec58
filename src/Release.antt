-- ===== src/Release.antt =====
-- scripts/release: the journal of a migration.
pub mod Records
pub mod Journal
pub mod History
pub mod Migrations
