-- ===== src/Fs.antt =====
-- The file system: include/franklin/fs/vfs.h, fs/vfs.c and fs/ramfs. The part above a concrete
-- file system takes its operations as a record, `Ops`, as the source does by tables of function
-- pointers; `Ramfs` fills it.
pub mod Errors
pub mod State
pub mod Locks
pub mod Ops
pub mod Vfs
pub mod Ramfs
mod Tests
