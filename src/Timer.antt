-- ===== src/Timer.antt =====
-- kernel/time.c and `timerh` of kernel/interrupt.c: the interval timer.
pub mod Rate
pub mod Lapic
mod Tests
use franklin.Base.{
  ℕ, ◌+◌, ◌/◌, ◌-◌, ◌%◌, ◌^◌, ◌==◌, if◌then◌else◌, Run, ok, fault, lift, and_then, ◌>>=◌, ◌>>◌, Cmd,
}
use franklin.Ports.{Trace, out}

-- `hz` is not negative. A division by 0 is a fault.
unfoldable pub init_pit : ℕ → Cmd Trace (Unit {0})
unfolding out
init_pit hz =
    let divisor = 1193180 / hz in
    if hz == 0
    then lift fault
    else do out 0x43 0x34; out 0x40 (divisor % 2 ^ 8); out 0x40 (divisor / 2 ^ 8)

-- `PIT_COUNTER` and the ports.
unfoldable pub timerh : Cmd (ℕ × Trace) (Unit {0})
unfolding out
timerh s = and_then (out 0x20 0x20 s.1) (λ r. ok (tt, ((s.0 + (2 ^ 32 - 1)) % 2 ^ 32, r.1)))
