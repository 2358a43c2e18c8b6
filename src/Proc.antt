-- ===== src/Proc.antt =====
-- kernel/proc.c, and `apic_timer` of kernel/apic.c: the process table and the scheduler, as one
-- processor runs them. `switc` saves a stack pointer and goes on at another one: the pointer that
-- it saves is an argument, and the process that it goes on with is `current`.
pub mod Scan
pub mod Timer
pub mod Slots
mod Tests
use franklin.Base.{
  ℕ, zero, suc, ◌+◌, ◌-◌, ◌%◌, ◌^◌, Bool, true, false, ◌==◌, if◌then◌else◌, Option, none, some,
  List, [], ◌∷◌, get_elem?, set, drop, Run, ok, stuck, out_of_fuel, or_fault, and_then,
}
use franklin.Text.{◌>>=◌}
use franklin.Pmm.{Pmm, page_size, palloc}

-- `enum procstate`
pub data Procstate : Type 0 where
  unused runnable running : Procstate

abbrev pub is_state : Procstate → Procstate → Bool
is_state Procstate.unused Procstate.unused = true
is_state Procstate.runnable Procstate.runnable = true
is_state Procstate.running Procstate.running = true
is_state _ _ = false

-- `struct proc`, with the parts of the frame at `regs` and of the one at `stack` that
-- `allocproc` and `exec` set.
pub record Proc : Type 0 where
  pub state : Procstate
  pub pid : ℕ
  pub regs : ℕ
  pub stack : ℕ
  pub entry : ℕ  -- `regs->rip`
  pub cs : ℕ  -- `regs->cs`
  pub eflags : ℕ  -- `regs->eflags`
  pub rsp : ℕ  -- `regs->rsp`
  pub ss : ℕ  -- `regs->ss`
  pub resume : ℕ  -- `stack->rip`
  pub vmap : ℕ  -- `vmap->top_level`

-- `ptable`, the static variables of `scheduler` and `allocproc`, and the process that the
-- processor's register points at, by its slot.
pub record Ptable : Type 0 where
  pub lock : Bool
  pub proc : List Proc
  pub i : ℕ
  pub nextpid : ℕ
  pub current : ℕ

unfoldable pub scan_procs : Procstate → List Proc → ℕ → Option ℕ × ℕ
scan_procs st [] i = (none, i)
scan_procs st (p ∷ ps) i =
    let rest = scan_procs st ps (i + 1) in if is_state p.state st then (some i, i) else rest

-- The slot that is found and `*index`.
unfoldable pub getproc : Procstate → List Proc → ℕ → Option ℕ × ℕ
unfolding scan_procs
getproc st table index = scan_procs st (drop index table) index

-- What a round of the loop makes of a result of `getproc`.
abbrev pub next_round : Option ℕ → Run ℕ → Run ℕ
next_round none rest = rest
next_round (some p) rest = ok p

-- The first loop of `scheduler`; each time that it finds no process it begins at slot 0.
unfoldable pub pick : ℕ → List Proc → ℕ → Run ℕ
unfolding getproc
pick zero table i = out_of_fuel
pick (suc rounds) table i =
    next_round ((getproc Procstate.runnable table i).0) (pick rounds table 0)

-- A change of the process in a slot.
unfoldable pub change : ℕ → (Proc → Proc) → Ptable → Run Ptable
change p f s = do q ← or_fault (get_elem? s.proc p); ok (record s { proc = set s.proc p (f q) })

abbrev pub with_state : Procstate → Proc → Proc
with_state st p = record p { state = st }

-- `save` is the stack pointer at the switch, which happens between processes with different ids.
unfoldable pub scheduler : (rounds save : ℕ) → Ptable → Run Ptable
unfolding pick change
scheduler rounds save s = do
  p ← pick rounds s.proc s.i
  prev ← or_fault (get_elem? s.proc s.current)
  t ← change p (with_state Procstate.running) (record s { i = p })
  next ← or_fault (get_elem? t.proc p)
  u ← if prev.pid == next.pid then ok t else change s.current (λ q. record q { stack = save }) t
  ok (record u { current = p })

-- The lock is released when the process comes back from the switch, or by a new process at its
-- start.
unfoldable pub apic_timer : (rounds save : ℕ) → Ptable → Run Ptable
unfolding change scheduler
apic_timer rounds save s = if s.lock then stuck else (do
  t ← change s.current (with_state Procstate.runnable) (record s { lock = true })
  u ← scheduler rounds save t
  ok (record u { lock = false }))

-- The switch to the process leaves the stack of the caller for good. The lock stays taken: the
-- processes of the kernel release it themselves, by `r`.
unfoldable pub startproc : ℕ → Ptable → Run Ptable
unfolding change
startproc p s = if s.lock then stuck else (do
  t ← change p (with_state Procstate.running) (record s { lock = true })
  ok (record t { current = p }))

unfoldable init_plock : Ptable → Ptable
init_plock s = record s { lock = false }

-- A processor's first process; it becomes the current one before the lock is taken.
unfoldable pub init_proc : ℕ → Ptable → Run Ptable
unfolding startproc
init_proc p s = startproc p (record s { current = p })

-- `sizeof(struct regs)` and `sizeof(struct stack)`
abbrev regs_size : ℕ
regs_size = 128

abbrev stack_size : ℕ
stack_size = 56

-- What `allocproc` does with the slot that it has found. `hhdm` is where `P2V` maps physical
-- memory, and `ret` the address of the routine that a new process begins with.
unfoldable pub fill_slot : (hhdm ret entry p : ℕ) → Ptable → Pmm → Run (Option ℕ × Ptable × Pmm)
unfolding change
fill_slot hhdm ret entry p s pages = do
  let pid = (s.nextpid + 1) % 2 ^ 32
  r ← palloc 1 pages
  let regs = (r.0 + hhdm + page_size - regs_size) % 2 ^ 64
  let stack = (r.0 + hhdm + page_size - regs_size - stack_size) % 2 ^ 64
  t ←
      change p
        (λ q. record q {
          pid = pid;
          regs = regs;
          stack = stack;
          entry = entry;
          cs = 0x28;
          eflags = 0x202;
          rsp = (stack + (2 ^ 64 - 0x200)) % 2 ^ 64;
          resume = ret;
        })
        (record s { nextpid = pid })
  ok (some p, t, r.1)

-- The result is the slot, or nothing for a null pointer.
unfoldable pub use_slot :
    (hhdm ret entry : ℕ) → Option ℕ → Ptable → Pmm → Run (Option ℕ × Ptable × Pmm)
unfolding fill_slot
use_slot hhdm ret entry none s pages = ok (none, s, pages)
use_slot hhdm ret entry (some p) s pages = fill_slot hhdm ret entry p s pages

-- The lock is free again before the slot is filled.
unfoldable pub allocproc : (hhdm ret entry : ℕ) → Ptable → Pmm → Run (Option ℕ × Ptable × Pmm)
unfolding getproc use_slot
allocproc hhdm ret entry s pages =
    if s.lock
    then stuck
    else use_slot hhdm ret entry ((getproc Procstate.unused s.proc 0).0) s pages
