-- ===== src/Fs/Vfs.antt =====
-- fs/vfs.c over any file system.
pub mod Close
pub mod Lookup
pub mod Namei
pub mod Files
pub mod Dirs
pub mod Mounts
mod Tests
