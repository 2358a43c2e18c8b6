-- ===== src/Lib.antt =====
-- Franklin, a small x86-64 kernel: its strings, its page and slab allocators,
-- its scheduler, its keyboard handler and its file system.
--
-- Files of the repository and modules:
--   kernel/string.c                                   Text
--   include/franklin/bitmap.h                         Bitmap
--   kernel/pmm.c                                      Pmm
--   kernel/slab.c                                     Slab
--   kernel/vmm.c, kernel/vm/vm.c                      Vmm
--   kernel/proc.c, apic_timer of kernel/apic.c        Proc
--   kernel/proc.c, `exec`, `loadelf`, `copyargs`      Exec
--   kernel/spinlock.c                                 Spin
--   kernel/proc.c, several processors                 Smp
--   kernel/kbd.c                                      Kbd
--   include/asm/x86.h                                 Ports
--   kernel/idt.c, kernel/interrupt.c, kernel/pic.c    Interrupt
--   kernel/gdt.c, include/franklin/gdt.h              Gdt
--   kernel/time.c, `init_pit`                         Timer
--   kernel/apic.c, `init_apic`; kernel/time.c         Timer.Lapic
--   kernel/acpi.c, `walk_madt` of kernel/apic.c       Acpi
--   include/franklin/fs/vfs.h, fs/vfs.c               Fs.State, Fs.Locks, Fs.Ops, Fs.Vfs
--   fs/ramfs/ramfs.h, fs/ramfs/ramfs.c                Fs.Ramfs
--   fs/ramfs/initramfs.c                              Initramfs
--   include/franklin/fs/dirent.h                      Fs.Ops, Fs.Ramfs.Listing
-- A function keeps its name from the source. Parts of a long function that are definitions of
-- their own, such as a round of a loop, have a comment that says which part they are.
--
-- How the parts interact: the page allocator works on the bitmap; the path lookup and the calls
-- of fs/vfs.c reach a file system through its tables of operations (`Fs.Ops.Ops`), which
-- `Fs.Ramfs.Table.ram_ops` fills; both use the strings. `allocproc` takes a page for each stack.
--
-- State and results. A command takes the state and returns a `Run`: the value and the new state,
-- or how the code went wrong (`panicked`, `fault` for an access outside an object or to a freed
-- one, `stuck` for a wait that never ends). Memory is a store of objects by address; a pointer is
-- a number, 0 is NULL, and `kalloc` gives a fresh address. A C string is the list of the bytes
-- from its pointer to the end of its object. `int` and `size_t` are the numbers that their bits
-- read as, with the wrap-around written out; Pmm and Slab say which sums are taken not to wrap.
-- One processor runs at a time, but in Spin and Smp, where any number of them make steps in any
-- order. `exec` and `startproc` return with the lock of the process table taken, as in the source.
--
-- Bounds and fuel. `palloc` scans with one round for each page of the bitmap and one more, and is
-- never out of fuel. `lookup` has a round for each byte of the path and one more; the walks
-- across mount points inside a round have one for each address in use, since a walk that takes
-- more is in a cycle. `namei` takes the number of links that it follows as a parameter, because
-- the source has no bound on them. `grow` in `ramfs_write` has fuel for every size.
--
-- `initramfs` takes one round for each header; it works over a record of the three calls of
-- fs/vfs.c that it makes, `Initramfs.Walk.Calls`, which `Initramfs.Vfs.vfs_calls` fills.
--
-- `pick`, the loop of the scheduler, takes a number of rounds; two decide it.
--
-- A command on the ports keeps the trace of all accesses; what a device answers is a function of
-- the trace and the port, and a parameter. `trap` has its handlers as parameters.
--
-- `newslab` carves a page with one round for each byte of it. The file system has an abstract
-- `kalloc`, which never fails, instead of the one in Slab.
--
-- The walk through the four levels of page tables needs no fuel; `destroy_level` goes by the
-- level, and `Vmm.Destroy.Reached` says by rules of its own which pages tables reach. Page tables are words of a memory that only Vmm has. The loops of `init_vm` have a round
-- for each page of 2 ^ 64 bytes; `kalloc` of the record that keeps the table is left out.
--
-- `loadelf` works over a record of the two calls of fs/vfs.c that it makes, `Exec.Load.Files`,
-- which `Exec.Load.Vfs.vfs_files` fills; `Exec.Load.Vfs.FileIn-FileAt` is the law that its reads
-- rely on, for a file of ramfs. The layout of the headers is that of <elf.h>. Bytes of a segment
-- behind the pages that it was given are outside the object. `exec` puts all together: a new map
-- (Vmm.Fork), the segments (Exec.Load), the stack and the arguments (Exec.Start, Exec.Args), the
-- process table (Proc) and the descriptor of the task state segment (Gdt).
--
-- The memory of a program in Exec is a function from addresses to bytes; what `copyargs` copies
-- is in objects apart from it.
--
-- Each processor has a local APIC; its registers are a function from their offsets. `sleep` takes
-- the number of ticks that come in while it waits.
--
-- Not modelled: the boot, which calls the parts in order, and the start of the other processors;
-- printing; `syscall`, which calls `exec` by way of a table; the assembly of the handlers and of
-- `switc`; fs/ramfs/ramfs_subr.c, two copies that nobody calls.
-- The content of fresh memory is zeros, where the source does not set it.
pub mod Base
pub mod Text
pub mod Bitmap
pub mod Pmm
pub mod Slab
pub mod Vmm
pub mod Proc
pub mod Kbd
pub mod Fs
pub mod Acpi
pub mod Exec
pub mod Gdt
pub mod Initramfs
pub mod Interrupt
pub mod Ports
pub mod Smp
pub mod Spin
pub mod Timer
