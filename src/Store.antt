-- ===== src/Store.antt =====
-- internal/store/store.go: the tables, and the statements and transactions that act on them.
mod Tests
pub mod Rows
pub mod Jobs
pub mod Songs
pub mod Users
pub mod Sessions
pub mod Links
