-- ===== src/Interrupt/Tests.antt =====
-- kernel/interrupt.c and kernel/pic.c on devices that give what was written last.
use franklin.Base.{ℕ, ◌≡◌, arith, ◌==◌, if◌then◌else◌, none, some, [], ◌∷◌, ok}
use franklin.Ports.{wrote, asked, Trace, Devices}
use franklin.Interrupt.Idt.{IdtEntry, Table}
use franklin.Interrupt.Setup.{Handlers, init_interrupt}
use franklin.Interrupt.Gates.{AreAddresses, gate_of, gate_after, handler_of, init_interrupt-gate_of}

abbrev latch : Devices
latch [] p = 251
latch (wrote q v ∷ t) p = if p == q then v else latch t p
latch (asked q ∷ t) p = latch t p

abbrev stubs : Handlers
stubs = record {
  isr_table = λ v. 0xffffffff80001000;
  isr_timer = 0xffffffff80002000;
  isr_kbd = 0xffffffff80002010;
  isr_apic_timer = 0xffffffff80002020;
  isr_syscall = 0xffffffff80002030;
  spurious = 0xffffffff80002040;
}

stubs-AreAddresses : AreAddresses stubs
stubs-AreAddresses = record {
  table = λ v. omega arith;
  timer = omega arith;
  kbd = omega arith;
  apic_timer = omega arith;
  syscall = omega arith;
  spurious = omega arith;
}

abbrev no_entry : IdtEntry
no_entry = record {
  isr_low = 0;
  selector = 0;
  ist = 0;
  attributes = 0;
  isr_mid = 0;
  isr_high = 0;
  zero_word = 0;
}

abbrev no_table : Table
no_table = record { idt = λ v. no_entry; idtr = none }

init_interrupt-gate_of_example :
    (t' : Table) × (trace' : Trace) × (init_interrupt latch stubs 0xffffffff80100000 2
        (no_table, [])
      ≡ ok (tt, (t', trace')))
    × (t'.idtr ≡ some (0xffffffff80100000, 4095))
    × ((v : ℕ) → gate_of (t'.idt v) ≡ gate_after (handler_of stubs v) (gate_of no_entry))
init_interrupt-gate_of_example =
    init_interrupt-gate_of latch stubs 0xffffffff80100000 2 no_table [] stubs-AreAddresses
