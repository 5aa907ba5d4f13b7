-- ===== src/CommitLog.antt =====
-- The package internal/log: the store and index files, segments of both, and the log of segments.
pub mod Store
pub mod Index
pub mod Message
pub mod Segment
pub mod Files
pub mod Log
pub mod Plain
mod Tests
pub mod LogTests
pub mod ReopenTests
