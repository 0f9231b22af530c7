-- ===== src/Server.antt =====
-- internal/server: the parts of the HTTP server that decide.
pub mod KeyPicker
pub mod CoverRequests
pub mod CoverJobs
pub mod Covers
pub mod Edits
pub mod Scores
pub mod Generate
pub mod RateLimit
pub mod Http
pub mod Access
pub mod Site
pub mod Auth
pub mod Admin
pub mod Library
mod Tests
mod FormTests
