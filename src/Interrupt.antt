-- ===== src/Interrupt.antt =====
-- kernel/idt.c, kernel/interrupt.c and kernel/pic.c: the table of interrupts and its set-up.
pub mod Idt
pub mod Pic
pub mod Setup
pub mod Gates
mod Tests
