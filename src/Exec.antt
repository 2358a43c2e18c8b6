-- ===== src/Exec.antt =====
-- kernel/proc.c: a new program in place of the one that runs. Bytes of memory are a function of
-- the address; a word of eight bytes stands with the lowest byte first.
pub mod Words
pub mod Args
pub mod Stack
pub mod Layout
pub mod Passed
pub mod Load
pub mod Start
mod Tests
