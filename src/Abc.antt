-- ===== src/Abc.antt =====
-- internal/abc/transpose.go: the transposition of an ABC score.
pub mod OneLine
pub mod Scores
pub mod Pitch
pub mod Keys
pub mod Notes
mod Tests
pub mod Chords
