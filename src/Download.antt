-- ===== src/Download.antt =====
-- download: one download task, its worker threads, and the files that they leave.
pub mod Task
pub mod Run
pub mod Attempts
pub mod SegmentFile
pub mod Fetched
pub mod Names
pub mod Count
pub mod Store
pub mod Progress
pub mod ParsedUrl
pub mod SegmentUrl
mod Tests
