-- ===== src/Smp.antt =====
-- kernel/proc.c and `apic_timer` of kernel/apic.c, as several processors run them: a step is one
-- access of one processor to what they share, which is the lock of the process table, the states
-- in the table, and which process runs on whose stack. Each processor has its own current process.
pub mod Table
pub mod Refines
pub mod Safety
mod Tests
use franklin.Base.{ℕ, ◌<◌, ◌≡◌, ◌≢◌, Bool, true, false, ◌==◌, if◌then◌else◌}
use franklin.Proc.{Procstate}
use franklin.Spin.{update}

-- Where a processor stands, with what it has found there.
pub data Pc : Type 0 where
  -- before `init_proc`, on the boot stack
  booting : Pc
  -- in `startproc`: in `acq`, behind it, behind `set_current_proc`, behind the change of state
  start_spin start_locked start_current start_running : Pc
  -- runs its process, with interrupts on
  runs : Pc
  -- in `apic_timer`: in `acq`, behind it, behind the change of state
  timer_spin timer_locked yielded : Pc
  -- in `scheduler`: behind the loop, which found `p`, behind `set_current_proc`, behind the change
  -- of state
  found : (p : ℕ) → Pc
  switching running : Pc
  -- after the switch, before `r`
  leaving : Pc

-- `current` is the process that the processor's register points at, `on` the one whose stack the
-- processor is on.
pub record Cpu : Type 0 where
  pub pc : Pc
  pub current : ℕ
  pub on : ℕ

-- `ptable`: `states` by the slot.
pub record System : Type 0 where
  pub lock : ℕ
  pub states : ℕ → Procstate
  pub cpu : ℕ → Cpu

-- `NPROC`
abbrev pub nproc : ℕ
nproc = 255

-- The steps of processor `i`. `pid` gives the id of the process in a slot. Processor `i` starts
-- with slot `i`.
module _ (pid : ℕ → ℕ) (i : ℕ) where
  pub data Move (s : System) (c : Cpu) : ℕ → (ℕ → Procstate) → Cpu → Type 0 where
    -- `init_proc(i)` makes slot `i` the current process, and calls `startproc`
    boot :
        c.pc ≡ Pc.booting → Move s c s.lock s.states (record c { pc = Pc.start_spin; current = i })
    start_wait : c.pc ≡ Pc.start_spin → s.lock ≢ 0 → Move s c 1 s.states c
    start_take :
        c.pc ≡ Pc.start_spin → s.lock ≡ 0 → Move s c 1 s.states (record c { pc = Pc.start_locked })
    start_set :
        c.pc ≡ Pc.start_locked
        → Move s c s.lock s.states (record c { pc = Pc.start_current; current = i })
    start_run :
        c.pc ≡ Pc.start_current
        → Move s c s.lock
            (update s.states c.current Procstate.running)
            (record c { pc = Pc.start_running })
    start_switch :
        c.pc ≡ Pc.start_running
        → Move s c s.lock s.states (record c { pc = Pc.leaving; on = c.current })
    -- the interrupt of the timer
    tick : c.pc ≡ Pc.runs → Move s c s.lock s.states (record c { pc = Pc.timer_spin })
    timer_wait : c.pc ≡ Pc.timer_spin → s.lock ≢ 0 → Move s c 1 s.states c
    timer_take :
        c.pc ≡ Pc.timer_spin → s.lock ≡ 0 → Move s c 1 s.states (record c { pc = Pc.timer_locked })
    yield :
        c.pc ≡ Pc.timer_locked
        → Move s c s.lock
            (update s.states c.current Procstate.runnable)
            (record c { pc = Pc.yielded })
    -- `getproc` returns a slot whose state is the one asked for
    find :
        (p : ℕ)
        → p < nproc
        → c.pc ≡ Pc.yielded
        → s.states p ≡ Procstate.runnable
        → Move s c s.lock s.states (record c { pc = Pc.found p })
    set_current :
        (p : ℕ)
        → c.pc ≡ Pc.found p
        → Move s c s.lock s.states (record c { pc = Pc.switching; current = p })
    set_running :
        c.pc ≡ Pc.switching
        → Move s c s.lock
            (update s.states c.current Procstate.running)
            (record c { pc = Pc.running })
    -- `switc`, where the ids differ
    switch :
        c.pc ≡ Pc.running
        → pid c.on ≢ pid c.current
        → Move s c s.lock s.states (record c { pc = Pc.leaving; on = c.current })
    stay :
        c.pc ≡ Pc.running
        → pid c.on ≡ pid c.current
        → Move s c s.lock s.states (record c { pc = Pc.leaving })
    -- `r`
    free : c.pc ≡ Pc.leaving → Move s c 0 s.states (record c { pc = Pc.runs })

module _ (pid : ℕ → ℕ) (n : ℕ) where
  pub data Step (s : System) : System → Type 0 where
    move :
        (i : ℕ) {lock : ℕ} {states : ℕ → Procstate} {c : Cpu}
        → i < n
        → Move pid i s (s.cpu i) lock states c
        → Step s (record { lock = lock; states = states; cpu = update s.cpu i c })

  pub data Steps (s : System) : System → Type 0 where
    here : Steps s s
    next : {t u : System} → Steps s t → Step t u → Steps s u

-- Every processor before its `init_proc`, with the lock free.
abbrev pub init : (ℕ → Procstate) → System
init states = record {
  lock = 0;
  states = states;
  cpu = λ i. record { pc = Pc.booting; current = 0; on = 0 };
}
