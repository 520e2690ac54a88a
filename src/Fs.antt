-- ===== src/Fs.antt =====
-- kernel/src/fs: the overlay file system.
pub mod MemLayer
pub mod UpperLayer
pub mod Overlay
