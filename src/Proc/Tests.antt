-- ===== src/Proc/Tests.antt =====
-- kernel/proc.c: runs on a table of three processes.
use franklin.Base.{ℕ, ◌≡◌, refl, false, Option, some, List, [], ◌∷◌, Run, ok}
use franklin.Pmm.{Pmm, palloc, find_run, all_free, set_run}
use franklin.Bitmap.{bitmap_test, bitmap_set}
use franklin.Proc.{Procstate, Proc, Ptable, getproc, pick, scheduler, apic_timer, allocproc}
use franklin.Proc.Scan.{Picked, pick-Picked}
use franklin.Proc.Timer.{apic_timer-stays}
use franklin.Proc.Slots.{allocproc-getproc}

abbrev one : Procstate → ℕ → Proc
one st pid = record {
  state = st;
  pid = pid;
  regs = 0;
  stack = 0;
  entry = 0;
  cs = 0;
  eflags = 0;
  rsp = 0;
  ss = 0;
  resume = 0;
  vmap = 0;
}

abbrev procs : List Proc
procs = one Procstate.running 1 ∷ one Procstate.runnable 2 ∷ one Procstate.unused 0 ∷ []

-- The process in slot 0 runs, and the index is there.
abbrev busy : Ptable
busy = record { lock = false; proc = procs; i = 0; nextpid = 2; current = 0 }

abbrev pages : Pmm
pages = record { bitmap = 1 ∷ []; g = 10; spinlock = false }

pick-Picked_example : Picked procs 2 (pick 2 procs 2)
pick-Picked_example = pick-Picked 0 procs 2

-- The process in slot 1 could run, and does not.
apic_timer-stays_example : apic_timer 2 99 busy ≡ ok busy
apic_timer-stays_example = apic_timer-stays 1 99 busy (one Procstate.running 1) refl refl refl

abbrev moved : Ptable
moved = record {
  lock = false;
  proc =
      record (one Procstate.running 1) { stack = 99 }
      ∷ one Procstate.running 2
      ∷ one Procstate.unused 0
      ∷ [];
  i = 1;
  nextpid = 2;
  current = 1;
}

-- From slot 0, where the process is still marked as running, to slot 1.
to_next : scheduler 2 99 busy ≡ ok moved
unfolding scheduler
to_next = refl

filled : Run (Option ℕ × Ptable × Pmm) → Ptable
filled (ok r) = r.1
filled _ = busy

after_alloc : Run (Option ℕ × Ptable × Pmm)
unfolding allocproc palloc find_run all_free set_run bitmap_test bitmap_set
after_alloc = allocproc 0 5 7 busy pages

abbrev pages_left : Pmm
pages_left = record { bitmap = 3 ∷ []; g = 10; spinlock = false }

alloc_one : allocproc 0 5 7 busy pages ≡ ok (some 2, filled after_alloc, pages_left)
unfolding after_alloc filled
alloc_one = refl

allocproc-getproc_example :
    (some 2 ≡ (getproc Procstate.unused procs 0).0)
    × (getproc Procstate.unused (filled after_alloc).proc 0 ≡ getproc Procstate.unused procs 0)
allocproc-getproc_example =
    allocproc-getproc 0 5 7 busy (filled after_alloc) pages pages_left (some 2) alloc_one
