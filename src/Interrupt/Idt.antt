-- ===== src/Interrupt/Idt.antt =====
-- kernel/idt.c: the entries of the interrupt descriptor table.
use franklin.Base.{ℕ, zero, suc, ◌+◌, ◌-◌, ◌*◌, ◌/◌, ◌%◌, ◌^◌, ◌==◌, if◌then◌else◌, Option, some}

-- `idt_entry`
pub record IdtEntry : Type 0 where
  pub isr_low : ℕ
  pub selector : ℕ
  pub ist : ℕ
  pub attributes : ℕ
  pub isr_mid : ℕ
  pub isr_high : ℕ
  pub zero_word : ℕ

-- `idt`, and the register of the processor: the address and the limit that `lidt` has loaded.
pub record Table : Type 0 where
  pub idt : ℕ → IdtEntry
  pub idtr : Option (ℕ × ℕ)

abbrev pub idt_max_desc : ℕ
idt_max_desc = 256

-- The flags of a gate that the kernel may use, and of one that a program may use.
abbrev pub kernel_gate : ℕ
kernel_gate = 0x8e

abbrev pub user_gate : ℕ
user_gate = 0xee

-- What `set_idt_entry` writes; `isr` is the address of the handler.
unfoldable pub entry_for : (isr flags : ℕ) → IdtEntry
entry_for isr flags = record {
  isr_low = isr % 2 ^ 16;
  selector = 5 * 8;
  ist = 0;
  attributes = flags;
  isr_mid = (isr / 2 ^ 16) % 2 ^ 16;
  isr_high = (isr / 2 ^ 32) % 2 ^ 32;
  zero_word = 0;
}

unfoldable pub set_idt_entry : (vector isr flags : ℕ) → Table → Table
unfolding entry_for
set_idt_entry vector isr flags t = record t {
  idt = λ v. if v == vector then entry_for isr flags else t.idt v;
}

unfoldable pub new_irq : (vector isr : ℕ) → Table → Table
unfolding set_idt_entry
new_irq vector isr t = set_idt_entry vector isr kernel_gate t

-- The loop of `init_idt`, with `left` rounds to go.
unfoldable pub fill_idt : (isr_table : ℕ → ℕ) → (left vector : ℕ) → Table → Table
unfolding set_idt_entry
fill_idt isr_table zero vector t = t
fill_idt isr_table (suc left) vector t =
    fill_idt isr_table left (vector + 1) (set_idt_entry vector (isr_table vector) kernel_gate t)

-- `idt_address` is where the table lies.
unfoldable pub init_idt : (isr_table : ℕ → ℕ) → (idt_address : ℕ) → Table → Table
unfolding fill_idt
init_idt isr_table idt_address t = record (fill_idt isr_table 32 0 t) {
  idtr = some (idt_address, 16 * idt_max_desc - 1);
}
