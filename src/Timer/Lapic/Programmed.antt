-- ===== src/Timer/Lapic/Programmed.antt =====
-- kernel/apic.c, `init_apic`: what the registers of every processor hold when it is done.
use franklin.Base.{
  ℕ, zero, suc, ap, ◌+◌, ◌-◌, ◌*◌, ◌%◌, ◌^◌, ◌≡◌, refl, ◌∙◌, true, false, ◌==◌, if◌then◌else◌, List,
  [], ◌∷◌, ok, and_then, Bool-cases, inl, inr,
}
use franklin.Ports.{Trace, wrote, out}
use franklin.Timer.{timerh}
use franklin.Timer.Lapic.{
  Apic, write32, wait, sleep, timer_reg, divide_reg, initcount, configure_timer, measure,
  init_timer, nmi_reg, init_apic, start_all,
}

-- The timer runs with the vector of `apic_timer`, again and again, from the count `ticks`; the
-- other interrupts are open.
pub record Programmed (nmi_lint ticks : ℕ) (regs : ℕ → ℕ) : Type 0 where
  pub timer : regs timer_reg ≡ 34 + 2 ^ 17
  pub divide : regs divide_reg ≡ 0
  pub count : regs initcount ≡ ticks
  pub nmi : regs (nmi_reg nmi_lint) ≡ 2 ^ 10
  pub priority : regs 0x80 ≡ 0
  pub spurious : regs 0xF0 ≡ 0x1FF

-- The count, by whether it has been measured.
abbrev pub ticks_of : Apic → (current : ℕ) → ℕ
ticks_of s current = if s.configured then s.ticks else 100 * (2 ^ 32 - 1 - current) % 2 ^ 32

abbrev pub AllProgrammed : (nmi_lint ticks : ℕ) → List (ℕ → ℕ) → Type 0
AllProgrammed nmi_lint ticks [] = Unit {0}
AllProgrammed nmi_lint ticks (regs ∷ rest) =
    Programmed nmi_lint ticks regs × AllProgrammed nmi_lint ticks rest

wait-zero : (left : ℕ) (s : Apic) → s.pit_counter ≡ 0 → wait left s ≡ ok (tt, s)
unfolding wait
wait-zero zero s e = rw e refl
wait-zero (suc left) s e = rw e refl

sleep-tick :
    (left : ℕ) (s : Apic)
    → s.spinlock ≡ false
    → (ports : Trace) × (sleep (suc left) 1 s
        ≡ ok (tt, record s { pit_counter = 0; ports = ports }))
unfolding sleep wait timerh out
sleep-tick left s free =
    let woken = record s { spinlock = true; pit_counter = 0; ports = wrote 0x20 0x20 ∷ s.ports } in
    (wrote 0x20 0x20 ∷ s.ports, rw free (rw (wait-zero left woken refl) refl))

configure_timer-out :
    (left current : ℕ) (s : Apic)
    → s.spinlock ≡ false
    → (ports : Trace) × (configure_timer (suc left) current s
        ≡ ok (
          2 ^ 32 - 1 - current,
          record s {
            regs = λ r.
                if timer_reg == r
                then 2 ^ 16
                else if initcount == r
                then 2 ^ 32 - 1
                else if divide_reg == r
                then 0
                else s.regs r;
            pit_counter = 0;
            ports = ports;
          },
        ))
unfolding configure_timer write32
configure_timer-out left current s free =
    let set = record s {
      regs = λ r. if initcount == r then 2 ^ 32 - 1 else if divide_reg == r then 0 else s.regs r;
    } in
    let (ports, e) = sleep-tick left set free in
    (
      ports,
      ap
          (λ r. and_then r (λ q. ok (
            2 ^ 32 - 1 - current,
            record (q.1) { regs = λ r. if timer_reg == r then 2 ^ 16 else q.1.regs r },
          )))
          e,
    )

-- The measurement leaves the count in `ticks` and every register alone but its own three.
measure-ticks_of :
    (left current : ℕ) (s : Apic)
    → s.spinlock ≡ false
    → (t : Apic) × (measure (suc left) current s ≡ ok (tt, t))
      × ((r : ℕ)
          → (timer_reg == r) ≡ false
          → (divide_reg == r) ≡ false
          → (initcount == r) ≡ false
          → t.regs r ≡ s.regs r)
      × (t.spinlock ≡ false)
      × (t.configured ≡ true)
      × (t.ticks ≡ ticks_of s current)
unfolding measure
measure-ticks_of left current s free = elim (Bool-cases s.configured) [
  | inl known ↦ (s, rw known refl, λ r _ _ _. refl, free, known, rw known refl)
  | inr fresh ↦
      let (ports, e) = configure_timer-out left current s free in
      let t = record s {
        regs = λ r.
            if timer_reg == r
            then 2 ^ 16
            else if initcount == r
            then 2 ^ 32 - 1
            else if divide_reg == r
            then 0
            else s.regs r;
        pit_counter = 0;
        ports = ports;
        ticks = 100 * (2 ^ 32 - 1 - current) % 2 ^ 32;
        configured = true;
      } in
      let run =
        ap
          (λ r.
            if s.configured
            then ok (tt, s)
            else and_then r
                (λ q. ok (tt, record (q.1) { ticks = 100 * q.0 % 2 ^ 32; configured = true })))
          e in
      (t, run ∙ rw fresh refl, λ r a b c. rw a (rw c (rw b refl)), free, refl, rw fresh refl)
]

-- What is written last is what the registers hold.
programmed :
    (nmi_lint ticks count : ℕ) (regs old : ℕ → ℕ)
    → ((r : ℕ)
        → (timer_reg == r) ≡ false
        → (divide_reg == r) ≡ false
        → (initcount == r) ≡ false
        → regs r ≡ (
            if 0xF0 == r
            then 0x1FF
            else if 0x80 == r
            then 0
            else if nmi_reg nmi_lint == r
            then 2 ^ 10
            else old r))
    → count ≡ ticks
    → Programmed nmi_lint ticks (λ r.
      if initcount == r
      then count
      else if divide_reg == r
      then 0
      else if timer_reg == r
      then 34 + 2 ^ 17
      else regs r)
programmed nmi_lint ticks count regs old off known = record {
  timer = refl;
  divide = refl;
  count = known;
  nmi = elim (Bool-cases (nmi_lint == 1)) [
    | inl one ↦ rw one (off 0x360 refl refl refl ∙ rw one refl)
    | inr other ↦ rw other (off 0x350 refl refl refl ∙ rw other refl)
  ];
  priority = off 0x80 refl refl refl;
  spurious = off 0xF0 refl refl refl;
}

init_apic-Programmed :
    (nmi_lint left current : ℕ) (s : Apic)
    → s.spinlock ≡ false
    → (t : Apic) × (init_apic nmi_lint (suc left) current s ≡ ok (tt, t))
      × Programmed nmi_lint (ticks_of s current) t.regs
      × (t.spinlock ≡ false)
      × (ticks_of t current ≡ ticks_of s current)
unfolding init_apic init_timer write32
init_apic-Programmed nmi_lint left current s free =
    let set = record s {
      regs = λ r.
          if 0xF0 == r
          then 0x1FF
          else if 0x80 == r
          then 0
          else if nmi_reg nmi_lint == r
          then 2 ^ 10
          else s.regs r;
      eoi = 0xB0;
    } in
    let (u, e, off, free', known, count) = measure-ticks_of left current set free in
    let t = record u {
      regs = λ r.
          if initcount == r
          then u.ticks
          else if divide_reg == r
          then 0
          else if timer_reg == r
          then 34 + 2 ^ 17
          else u.regs r;
    } in
    (
      t,
      ap
          (λ r. and_then r (λ q. ok (
            tt,
            record (q.1) {
              regs = λ r.
                  if initcount == r
                  then q.1.ticks
                  else if divide_reg == r
                  then 0
                  else if timer_reg == r
                  then 34 + 2 ^ 17
                  else q.1.regs r;
            },
          )))
          e,
      programmed nmi_lint (ticks_of s current) u.ticks u.regs s.regs off count,
      free',
      rw known count,
    )

-- Where the lock of `sleep` is free and a tick of the interval timer comes in while `sleep` waits,
-- `init_apic` returns on every processor, one after the other. Each of them has its own timer
-- running over and over with the vector 34, all from the same count, the line `NMI_LINT` set for
-- the interrupt that cannot be masked, and the other interrupts open; the lock is free again.
pub start_all-AllProgrammed :
    (nmi_lint left current : ℕ) (cpus : List (ℕ → ℕ)) (s : Apic)
    → s.spinlock ≡ false
    → (t : List (ℕ → ℕ) × Apic) × (start_all nmi_lint (suc left) current cpus s ≡ ok t)
      × AllProgrammed nmi_lint (ticks_of s current) t.0
      × (t.1.spinlock ≡ false)
unfolding start_all
start_all-AllProgrammed nmi_lint left current [] s free = (([], s), refl, tt, free)
start_all-AllProgrammed nmi_lint left current (regs ∷ rest) s free =
    let (u, e, p, free', same) =
      init_apic-Programmed nmi_lint left current (record s { regs = regs }) free in
    let (t, e', ps, free'') = start_all-AllProgrammed nmi_lint left current rest u free' in
    ((u.regs ∷ t.0, t.1), rw e (rw e' refl), (p, rw same at ps), free'')
