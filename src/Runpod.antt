-- ===== src/Runpod.antt =====
-- internal/runpod/runpod.go: the client of the serverless endpoints and its error taxonomy.
mod Tests
pub mod Json
pub mod Errors
pub mod Client
pub mod Output
