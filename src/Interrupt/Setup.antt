-- ===== src/Interrupt/Setup.antt =====
-- kernel/interrupt.c and `trap` of kernel/idt.c. The addresses of the handlers in kernel/isr.asm
-- are parameters.
use franklin.Base.{ℕ, ltb, ◌==◌, if◌then◌else◌, ok, panicked, pure, lift, and_then, ◌>>◌, Cmd}
use franklin.Ports.{Trace, Devices}
use franklin.Kbd.Controller.{init_kbd}
use franklin.Interrupt.Idt.{Table, init_idt, new_irq, set_idt_entry, user_gate}
use franklin.Interrupt.Pic.{unmask_irq, pic_remap}

-- The handlers of kernel/isr.asm, by their addresses.
pub record Handlers : Type 0 where
  pub isr_table : ℕ → ℕ
  pub isr_timer : ℕ
  pub isr_kbd : ℕ
  pub isr_apic_timer : ℕ
  pub isr_syscall : ℕ
  pub spurious : ℕ

abbrev pub on_table : (Table → Table) → Cmd (Table × Trace) (Unit {0})
on_table f s = ok (tt, (f s.0, s.1))

abbrev pub on_ports : {A : Type 0} → Cmd Trace A → Cmd (Table × Trace) A
on_ports c s = and_then (c s.1) (λ r. ok (r.0, (s.0, r.1)))

unfoldable pub init_interrupt :
    Devices → Handlers → (idt_address boot_arch : ℕ) → Cmd (Table × Trace) (Unit {0})
unfolding init_idt new_irq set_idt_entry
init_interrupt devices h idt_address boot_arch = do
  on_table (init_idt h.isr_table idt_address)
  on_ports (pic_remap devices 0x20)
  on_table (new_irq 33 h.isr_kbd)
  on_table (new_irq 34 h.isr_apic_timer)
  on_table (new_irq 32 h.isr_timer)
  on_table (new_irq 255 h.spurious)
  on_table (new_irq 69 h.isr_syscall)
  on_table (set_idt_entry 69 h.isr_syscall user_gate)
  on_ports (unmask_irq devices 1)
  on_ports (unmask_irq devices 0)
  on_ports (init_kbd devices boot_arch)

-- `trap`, over what its handlers do. Below 32 it prints and halts.
unfoldable pub trap :
    {S : Type 0} (call_syscall call_timerh call_kbd_press call_apic_timer : Cmd S (Unit {0}))
    → (code : ℕ) → Cmd S (Unit {0})
trap call_syscall call_timerh call_kbd_press call_apic_timer code =
    if ltb code 32
    then lift panicked
    else if code == 69
    then call_syscall
    else if code == 32
    then call_timerh
    else if code == 33
    then call_kbd_press
    else if code == 34
    then call_apic_timer
    else pure tt
