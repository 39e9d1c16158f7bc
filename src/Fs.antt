-- ===== src/Fs.antt =====
-- kernel/fs.c: path names.
pub mod Paths
pub mod Blocks
mod Tests
