-- ===== src/Smp/Refines.antt =====
-- The processors of kernel/proc.c use the lock of the process table as kernel/spinlock.c means it:
-- each of their steps is a step on a spinlock.
use franklin.Base.{ℕ, ◌≡◌, arith}
use franklin.Proc.{Procstate}
use franklin.Spin.{Stand, update}
use franklin.Spin
use franklin.Smp.{Cpu, System, Move, Step, Steps}
use franklin.Smp.Table.{stand}
use mathlib.Core.Path.{fun_ext, subst}

-- The lock and where the processors stand to it.
abbrev pub lock_of : System → Spin.System
lock_of s = record { word = s.lock; stand = λ i. stand (s.cpu i).pc }

Move-lock :
    {pid : ℕ → ℕ} {i : ℕ} {s : System} {c : Cpu} {lock : ℕ} {states : ℕ → Procstate} {c' : Cpu}
    → Move pid i s c lock states c'
    → Spin.Move s.lock (stand c.pc) lock (stand c'.pc)
Move-lock (Move.boot e) = rw e Spin.Move.call
Move-lock (Move.start_wait e l) = rw e (Spin.Move.wait l)
Move-lock (Move.start_take e l) = rw e (Spin.Move.take l)
Move-lock (Move.start_set e) = rw e Spin.Move.elsewhere
Move-lock (Move.start_run e) = rw e Spin.Move.elsewhere
Move-lock (Move.start_switch e) = rw e Spin.Move.elsewhere
Move-lock (Move.tick e) = rw e Spin.Move.call
Move-lock (Move.timer_wait e l) = rw e (Spin.Move.wait l)
Move-lock (Move.timer_take e l) = rw e (Spin.Move.take l)
Move-lock (Move.yield e) = rw e Spin.Move.elsewhere
Move-lock (Move.find p lt e r) = rw e Spin.Move.elsewhere
Move-lock (Move.set_current p e) = rw e Spin.Move.elsewhere
Move-lock (Move.set_running e) = rw e Spin.Move.elsewhere
Move-lock (Move.switch e ne) = rw e Spin.Move.elsewhere
Move-lock (Move.stay e same) = rw e Spin.Move.elsewhere
Move-lock (Move.free e) = rw e Spin.Move.free

Step-lock :
    {pid : ℕ → ℕ} {n : ℕ} {s t : System} → Step pid n s t → Spin.Step n (lock_of s) (lock_of t)
Step-lock {n} {s} (Step.move i {lock} {c} lt m) =
    let same : update (λ j. stand (s.cpu j).pc) i (stand c.pc)
        ≡ (λ j. stand (update s.cpu i c j).pc) =
      fun_ext (λ j. ground arith) in
    subst (λ (f : ℕ → Stand). Spin.Step n (lock_of s) (record { word = lock; stand = f })) same
      (Spin.Step.move i lt (Move-lock m))

-- Whatever the processors do to the lock of the process table, some run of a spinlock with as many
-- processors does.
pub Steps-lock :
    (pid : ℕ → ℕ) (n : ℕ) (s t : System) → Steps pid n s t → Spin.Steps n (lock_of s) (lock_of t)
Steps-lock pid n s t r = go r
  where
    go : {t : System} → Steps pid n s t → Spin.Steps n (lock_of s) (lock_of t)
    go Steps.here = Spin.Steps.here
    go (Steps.next r st) = Spin.Steps.next (go r) (Step-lock st)
