-- ===== src/Merge.antt =====
-- merge: what the mergers do with the segments of a stream, and the call of FFmpeg.
pub mod Counters
pub mod Words
pub mod Nothing
pub mod Loop
pub mod Concat
pub mod Options
pub mod Ffmpeg
pub mod DownloadOnly
pub mod Tcp
mod Tests
