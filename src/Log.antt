-- ===== src/Log.antt =====
-- log: the logger's fixed-width numbers, headers and levels.
pub mod Itoa
pub mod Format
pub mod Redraw
pub mod Logger
pub mod Methods
mod Tests
