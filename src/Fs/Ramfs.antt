-- ===== src/Fs/Ramfs.antt =====
-- fs/ramfs/ramfs.c: a file system in memory.
pub mod Store
pub mod Nodes
pub mod Entries
pub mod Vnodes
pub mod Data
pub mod Listing
pub mod Remove
pub mod Table
mod Tests
mod MapTests
pub mod Names
pub mod Order
pub mod Directory
pub mod Maps
