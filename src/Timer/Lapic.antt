-- ===== src/Timer/Lapic.antt =====
-- kernel/apic.c, `init_apic` and `init_timer`, and kernel/time.c, `sleep` and `configure_timer`: the
-- registers of the local APIC, which each processor has for its own. The static variables are
-- shared. What `init_timer` prints is left out.
pub mod Programmed
use franklin.Base.{
  ℕ, zero, suc, ap, ◌+◌, ◌-◌, ◌*◌, ◌/◌, ◌%◌, ◌^◌, ◌≤◌, ◌<◌, ◌≡◌, refl, ◌∙◌, Bool, true, false,
  arith, ◌==◌, not, if◌then◌else◌, List, [], ◌∷◌, Run, ok, stuck, lift, and_then, Cmd, pure, ◌>>=◌,
  ◌>>◌, Bool-cases, inl, inr,
}
use franklin.Ports.{Trace, wrote, out}
use franklin.Timer.{timerh}

-- The registers, by their offset from `lapic`; the lock `spinlock`, `PIT_COUNTER`, the ports, and
-- the static variables of `init_timer`; `eoi` is the register that `EOI` points to.
pub record Apic : Type 0 where
  pub regs : ℕ → ℕ
  pub spinlock : Bool
  pub pit_counter : ℕ
  pub ports : Trace
  pub ticks : ℕ
  pub configured : Bool
  pub eoi : ℕ

unfoldable pub write32 : (reg val : ℕ) → Cmd Apic (Unit {0})
write32 reg val s = ok (tt, record s { regs = λ r. if reg == r then val else s.regs r })

-- The loop of `sleep`; `left` is the number of ticks that come in, and the loop looks at the
-- counter between any two of them. Without a tick it does not end.
unfoldable pub wait : (left : ℕ) → Cmd Apic (Unit {0})
unfolding timerh
wait zero s = if s.pit_counter == 0 then ok (tt, s) else stuck
wait (suc left) s =
    let tick = timerh (s.pit_counter, s.ports) in
    let rest = and_then tick (λ r. wait left (record s { pit_counter = r.1.0; ports = r.1.1 })) in
    if s.pit_counter == 0 then ok (tt, s) else rest

unfoldable pub sleep : (left us : ℕ) → Cmd Apic (Unit {0})
unfolding wait
sleep left us s =
    if s.spinlock
    then stuck
    else and_then (wait left (record s { spinlock = true; pit_counter = us % 2 ^ 32 }))
        (λ r. ok (tt, record (r.1) { spinlock = false }))

abbrev pub timer_reg : ℕ
timer_reg = 0x320

abbrev pub divide_reg : ℕ
divide_reg = 0x3E0

abbrev pub initcount : ℕ
initcount = 0x380

-- `current`, below 2 ^ 32, is what the register for the current count reads as.
unfoldable pub configure_timer : (left current : ℕ) → Cmd Apic ℕ
unfolding write32 sleep
configure_timer left current = do
  write32 divide_reg 0
  write32 initcount (2 ^ 32 - 1)
  sleep left 1
  write32 timer_reg (2 ^ 16)
  pure (2 ^ 32 - 1 - current)

-- The part before `startimer`. The product wraps around.
unfoldable pub measure : (left current : ℕ) → Cmd Apic (Unit {0})
unfolding configure_timer
measure left current s =
    if s.configured
    then ok (tt, s)
    else and_then (configure_timer left current s)
        (λ r. ok (tt, record (r.1) { ticks = 100 * r.0 % 2 ^ 32; configured = true }))

unfoldable pub init_timer : (left current : ℕ) → Cmd Apic (Unit {0})
unfolding measure write32
init_timer left current = do
  measure left current
  write32 timer_reg (34 + 2 ^ 17)
  write32 divide_reg 0
  λ s. write32 initcount s.ticks s

-- The register for the interrupts that cannot be masked.
abbrev pub nmi_reg : ℕ → ℕ
nmi_reg nmi_lint = if nmi_lint == 1 then 0x360 else 0x350

unfoldable pub init_apic : (nmi_lint left current : ℕ) → Cmd Apic (Unit {0})
unfolding write32 init_timer
init_apic nmi_lint left current = do
  write32 (nmi_reg nmi_lint) (2 ^ 10)
  λ s. ok (tt, record s { eoi = 0xB0 })
  write32 0x80 0
  write32 0xF0 0x1FF
  init_timer left current

-- The processors start one after the other, each with registers of its own.
unfoldable pub start_all :
    (nmi_lint left current : ℕ) → List (ℕ → ℕ) → Apic → Run (List (ℕ → ℕ) × Apic)
unfolding init_apic
start_all nmi_lint left current [] s = ok ([], s)
start_all nmi_lint left current (regs ∷ rest) s =
    and_then (init_apic nmi_lint left current (record s { regs = regs }))
      (λ r. and_then (start_all nmi_lint left current rest r.1) (λ q. ok (r.1.regs ∷ q.0, q.1)))
