-- ===== src/Segments.antt =====
-- download/segments: which worker downloads which segment, and which segment is merged next.
pub mod Failed
pub mod Count
pub mod Pool
pub mod Worked
pub mod Batched
pub mod Sequential
pub mod Status
pub mod Tests
