-- ===== src/Interrupt/Gates.antt =====
-- kernel/interrupt.c, `init_interrupt`: the gates that the processor finds in the table.
use franklin.Base.{
  ℕ, zero, suc, ◌+◌, ◌*◌, ◌/◌, ◌%◌, ◌^◌, ◌<◌, ◌≡◌, refl, ap, ◌∙◌, arith, ◌&&◌, ◌==◌, ltb, leb,
  if◌then◌else◌, Option, none, some, ok, Bool-cases, inl, inr,
}
use franklin.Ports.{Trace, Devices}
use franklin.Kbd.Controller.{init_kbd, check_ps2, set_up}
use franklin.Interrupt.Idt.{
  IdtEntry, Table, entry_for, set_idt_entry, new_irq, fill_idt, init_idt, kernel_gate, user_gate,
}
use franklin.Interrupt.Pic.{pic_remap, unmask_irq}
use franklin.Interrupt.Setup.{Handlers, init_interrupt}

-- An entry as the processor reads it: `ring` is the outermost one that may use the gate.
pub record Gate : Type 0 where
  pub address : ℕ
  pub selector : ℕ
  pub is_present : ℕ
  pub ring : ℕ
  pub type_code : ℕ

unfoldable pub gate_of : IdtEntry → Gate
gate_of e = record {
  address = e.isr_low + 2 ^ 16 * e.isr_mid + 2 ^ 32 * e.isr_high;
  selector = e.selector;
  is_present = e.attributes / 2 ^ 7;
  ring = e.attributes / 2 ^ 5 % 4;
  type_code = e.attributes % 2 ^ 4;
}

-- A gate into the code segment of the kernel, of the type 14, an interrupt gate.
abbrev pub open_gate : (address ring : ℕ) → Gate
open_gate address ring = record {
  address = address;
  selector = 40;
  is_present = 1;
  ring = ring;
  type_code = 14;
}

-- The handler of a vector and the ring of its gate.
abbrev pub handler_of : Handlers → ℕ → Option (ℕ × ℕ)
handler_of h v =
    if ltb v 32
    then some (h.isr_table v, 0)
    else if v == 32
    then some (h.isr_timer, 0)
    else if v == 33
    then some (h.isr_kbd, 0)
    else if v == 34
    then some (h.isr_apic_timer, 0)
    else if v == 69
    then some (h.isr_syscall, 3)
    else if v == 255
    then some (h.spurious, 0)
    else none

abbrev pub gate_after : Option (ℕ × ℕ) → Gate → Gate
gate_after none before = before
gate_after (some p) before = open_gate p.0 p.1

pub record AreAddresses (h : Handlers) : Type 0 where
  pub table : (v : ℕ) → h.isr_table v < 2 ^ 64
  pub timer : h.isr_timer < 2 ^ 64
  pub kbd : h.isr_kbd < 2 ^ 64
  pub apic_timer : h.isr_apic_timer < 2 ^ 64
  pub syscall : h.isr_syscall < 2 ^ 64
  pub spurious : h.spurious < 2 ^ 64

kernel_gate-open_gate :
    (isr : ℕ) → isr < 2 ^ 64 → gate_of (entry_for isr kernel_gate) ≡ open_gate isr 0
unfolding gate_of entry_for
kernel_gate-open_gate isr h =
    let e : isr % 2 ^ 16 + 2 ^ 16 * (isr / 2 ^ 16 % 2 ^ 16) + 2 ^ 32 * (isr / 2 ^ 32 % 2 ^ 32)
        ≡ isr =
      omega arith in
    ap (λ a. open_gate a 0) e

user_gate-open_gate : (isr : ℕ) → isr < 2 ^ 64 → gate_of (entry_for isr user_gate) ≡ open_gate isr 3
unfolding gate_of entry_for
user_gate-open_gate isr h =
    let e : isr % 2 ^ 16 + 2 ^ 16 * (isr / 2 ^ 16 % 2 ^ 16) + 2 ^ 32 * (isr / 2 ^ 32 % 2 ^ 32)
        ≡ isr =
      omega arith in
    ap (λ a. open_gate a 3) e

fill_idt_lem :
    (isr_table : ℕ → ℕ) (left vector : ℕ) (t : Table) (v : ℕ)
    → (fill_idt isr_table left vector t).idt v ≡ (
        if leb vector v && ltb v (vector + left)
        then entry_for (isr_table v) kernel_gate
        else t.idt v)
unfolding fill_idt set_idt_entry
fill_idt_lem isr_table zero vector t v = ground arith
fill_idt_lem isr_table (suc left) vector t v =
    fill_idt_lem isr_table left (vector + 1) (set_idt_entry vector (isr_table vector) kernel_gate t)
      v
    ∙ ground arith

-- What the calls of `init_interrupt` on the table come to.
abbrev pub install : Handlers → (idt_address : ℕ) → Table → Table
install h idt_address t = set_idt_entry 69 h.isr_syscall user_gate (
    new_irq 69 h.isr_syscall (
      new_irq 255 h.spurious (
        new_irq 32 h.isr_timer (
          new_irq 34 h.isr_apic_timer
            (new_irq 33 h.isr_kbd (init_idt h.isr_table idt_address t))))))

new_irq-gate_of :
    (vector isr : ℕ) (t : Table) (v : ℕ)
    → isr < 2 ^ 64
    → gate_of ((new_irq vector isr t).idt v)
      ≡ (if v == vector then open_gate isr 0 else gate_of (t.idt v))
unfolding new_irq set_idt_entry
new_irq-gate_of vector isr t v h = elim (Bool-cases (v == vector)) [
  | inl e ↦ rw e (kernel_gate-open_gate isr h)
  | inr e ↦ rw e refl
]

set_idt_entry-gate_of :
    (vector isr : ℕ) (t : Table) (v : ℕ)
    → isr < 2 ^ 64
    → gate_of ((set_idt_entry vector isr user_gate t).idt v)
      ≡ (if v == vector then open_gate isr 3 else gate_of (t.idt v))
unfolding set_idt_entry
set_idt_entry-gate_of vector isr t v h = elim (Bool-cases (v == vector)) [
  | inl e ↦ rw e (user_gate-open_gate isr h)
  | inr e ↦ rw e refl
]

init_idt-gate_of :
    (isr_table : ℕ → ℕ) (idt_address : ℕ) (t : Table) (v : ℕ)
    → isr_table v < 2 ^ 64
    → gate_of ((init_idt isr_table idt_address t).idt v)
      ≡ (if ltb v 32 then open_gate (isr_table v) 0 else gate_of (t.idt v))
unfolding init_idt
init_idt-gate_of isr_table idt_address t v h =
    let e : (fill_idt isr_table 32 0 t).idt v
        ≡ (if ltb v 32 then entry_for (isr_table v) kernel_gate else t.idt v) =
      fill_idt_lem isr_table 32 0 t v ∙ ground arith in
    rw e (elim (Bool-cases (ltb v 32)) [
      | inl e ↦ rw e (kernel_gate-open_gate (isr_table v) h)
      | inr e ↦ rw e refl
    ])

-- The order of the calls does not matter, but for the last one.
in_order :
    (h : Handlers) (v : ℕ) (before : Gate)
    → (if v == 69
        then open_gate h.isr_syscall 3
        else if v == 69
        then open_gate h.isr_syscall 0
        else if v == 255
        then open_gate h.spurious 0
        else if v == 32
        then open_gate h.isr_timer 0
        else if v == 34
        then open_gate h.isr_apic_timer 0
        else if v == 33
        then open_gate h.isr_kbd 0
        else if ltb v 32
        then open_gate (h.isr_table v) 0
        else before)
      ≡ gate_after (handler_of h v) before
in_order h v before = ground arith

install-gate_of :
    (h : Handlers) (idt_address : ℕ) (t : Table) (v : ℕ)
    → AreAddresses h
    → gate_of ((install h idt_address t).idt v) ≡ gate_after (handler_of h v) (gate_of (t.idt v))
install-gate_of h idt_address t v a =
    let t0 = init_idt h.isr_table idt_address t in
    let t1 = new_irq 33 h.isr_kbd t0 in
    let t2 = new_irq 34 h.isr_apic_timer t1 in
    let t3 = new_irq 32 h.isr_timer t2 in
    let t4 = new_irq 255 h.spurious t3 in
    let t5 = new_irq 69 h.isr_syscall t4 in
    set_idt_entry-gate_of 69 h.isr_syscall t5 v a.syscall
    ∙ (rw (new_irq-gate_of 69 h.isr_syscall t4 v a.syscall) (
        rw (new_irq-gate_of 255 h.spurious t3 v a.spurious) (
          rw (new_irq-gate_of 32 h.isr_timer t2 v a.timer) (
            rw (new_irq-gate_of 34 h.isr_apic_timer t1 v a.apic_timer) (
              rw (new_irq-gate_of 33 h.isr_kbd t0 v a.kbd) (
                rw (init_idt-gate_of h.isr_table idt_address t v (a.table v))
                  (in_order h v (gate_of (t.idt v)))))))))

set_up_returns : (devices : Devices) (t : Trace) → (t' : Trace) × (set_up devices t ≡ ok (tt, t'))
unfolding set_up
set_up_returns devices t = (_, refl)

init_kbd_returns :
    (devices : Devices) (boot_arch : ℕ) (t : Trace)
    → (t' : Trace) × (init_kbd devices boot_arch t ≡ ok (tt, t'))
unfolding init_kbd
init_kbd_returns devices boot_arch t = elim (Bool-cases (check_ps2 boot_arch == 0)) [
  | inl e ↦ (t, rw e refl)
  | inr e ↦ let (t', r) = set_up_returns devices t in (t', rw e r)
]

pic_remap_returns :
    (devices : Devices) (offset : ℕ) (t : Trace)
    → (t' : Trace) × (pic_remap devices offset t ≡ ok (tt, t'))
unfolding pic_remap
pic_remap_returns devices offset t = (_, refl)

unmask_irq_returns :
    (devices : Devices) (irq : ℕ) (t : Trace)
    → (t' : Trace) × (unmask_irq devices irq t ≡ ok (tt, t'))
unfolding unmask_irq
unmask_irq_returns devices irq t = (_, refl)

init_interrupt-install :
    (devices : Devices) (h : Handlers) (idt_address boot_arch : ℕ) (t : Table) (trace : Trace)
    → (trace' : Trace) × (init_interrupt devices h idt_address boot_arch (t, trace)
        ≡ ok (tt, (install h idt_address t, trace')))
unfolding init_interrupt
init_interrupt-install devices h idt_address boot_arch t trace =
    let (t1, e1) = pic_remap_returns devices 0x20 trace in
    let (t2, e2) = unmask_irq_returns devices 1 t1 in
    let (t3, e3) = unmask_irq_returns devices 0 t2 in
    let (t4, e4) = init_kbd_returns devices boot_arch t3 in (t4, rw e1 (rw e2 (rw e3 (rw e4 refl))))

-- `init_interrupt` returns. Then the register of the processor has the table, with its limit, and
-- the processor finds at the vectors below 32 the gates to the handlers of the exceptions, at
-- 32, 33, 34 and 255 those to the timer, the keyboard, the timer of the local APIC and the empty
-- handler, which only the kernel may use, at 69 that to the system calls, which programs may use,
-- and at every other vector what it had, where the handlers have addresses of 64 bits.
pub init_interrupt-gate_of :
    (devices : Devices) (h : Handlers) (idt_address boot_arch : ℕ) (t : Table) (trace : Trace)
    → AreAddresses h
    → (t' : Table) × (trace' : Trace) × (init_interrupt devices h idt_address boot_arch (t, trace)
        ≡ ok (tt, (t', trace')))
      × (t'.idtr ≡ some (idt_address, 4095))
      × ((v : ℕ) → gate_of (t'.idt v) ≡ gate_after (handler_of h v) (gate_of (t.idt v)))
unfolding init_idt new_irq set_idt_entry
init_interrupt-gate_of devices h idt_address boot_arch t trace a =
    let (trace', e) = init_interrupt-install devices h idt_address boot_arch t trace in
    (install h idt_address t, trace', e, refl, λ v. install-gate_of h idt_address t v a)
