-- ===== src/Acpi.antt =====
-- kernel/acpi.c, `init_acpi` and `get_acpi_sdt`, and kernel/apic.c, `walk_madt`: the tables of the
-- firmware. Memory is a function from addresses; both walks read behind their tables, whatever stands there.
pub mod Walks
mod Tests
use franklin.Base.{
  ℕ, zero, suc, ◌+◌, ◌%◌, ◌^◌, ◌==◌, ltb, if◌then◌else◌, Run, ok, fault, out_of_fuel, and_then,
}
use franklin.Text.{Buffer, ◌>>=◌, write}
use franklin.Vmm.{hhdm_offset}

-- The address of the table, from that in the structure of the boot loader. The loop over its
-- entries reads their headers and drops them.
unfoldable init_acpi : (rsdtaddr : ℕ) → ℕ
init_acpi rsdtaddr = (rsdtaddr + hhdm_offset) % 2 ^ 64

-- The header that the entry `i` of the table `rsdt` points to, by its virtual address.
unfoldable pub header_at : (entry : ℕ → ℕ) → ℕ → ℕ
header_at entry i = (entry i + hhdm_offset) % 2 ^ 64

-- The loop of `get_acpi_sdt`; `signature_at` reads the first word of a header.
unfoldable pub find_sdt : (entry signature_at : ℕ → ℕ) → (signature rounds i : ℕ) → Run ℕ
find_sdt entry signature_at signature zero i = out_of_fuel
find_sdt entry signature_at signature (suc rounds) i =
    let hdr = header_at entry i in
    let rest = find_sdt entry signature_at signature rounds (i + 1) in
    if signature_at hdr == signature then ok hdr else rest

unfoldable pub get_acpi_sdt : (entry signature_at : ℕ → ℕ) → (signature rounds : ℕ) → Run ℕ
unfolding find_sdt
get_acpi_sdt entry signature_at signature rounds = find_sdt entry signature_at signature rounds 0

-- The local array `lapicId`, its index `x`, and `NMI_LINT`.
pub record Madt : Type 0 where
  pub lapic_id : Buffer
  pub x : ℕ
  pub nmi_lint : ℕ

-- One round on the entry at `i`.
unfoldable pub visit : (entry : ℕ → ℕ) → ℕ → Madt → Run Madt
unfolding write
visit entry i s = do
  s' ←
      (if entry i == 0
        then (write s.lapic_id s.x (entry (i + 3)) >>= λ ids.
            ok (record s { lapic_id = ids; x = (s.x + 1) % 2 ^ 8 }))
        else ok s)
  if entry i == 4 then ok (record s' { nmi_lint = entry (i + 5) }) else ok s'

unfoldable pub madt_loop : (entry : ℕ → ℕ) → (length rounds i : ℕ) → Madt → Run Madt
unfolding visit
madt_loop entry length zero i s = out_of_fuel
madt_loop entry length (suc rounds) i s =
    if ltb i length
    then (visit entry i s >>= λ s'. madt_loop entry length rounds ((i + entry (i + 1)) % 2 ^ 32) s')
    else ok s

-- `entry` is the memory from the first entry on, `length` the length of the whole table, and
-- `array` what the stack holds.
unfoldable pub walk_madt : (entry : ℕ → ℕ) → (length nmi_lint : ℕ) → (array : Buffer) → ℕ → Run ℕ
unfolding madt_loop
walk_madt entry length nmi_lint array rounds = do
  s ← madt_loop entry length rounds 0 (record { lapic_id = array; x = 1; nmi_lint = nmi_lint })
  ok s.nmi_lint
