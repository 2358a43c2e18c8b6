-- ===== src/Acpi/Tests.antt =====
-- kernel/apic.c, `walk_madt`: a table of one local APIC, with zeros behind it.
use franklin.Base.{ℕ, ◌≢◌, arith, refl, ◌==◌, if◌then◌else◌, replicate, ok}
use franklin.Acpi.{walk_madt}
use franklin.Acpi.Walks.{walk_madt-ReachesZero}

-- The entry has the type 0 and the length 8.
abbrev one_lapic : ℕ → ℕ
one_lapic b = if b == 1 then 8 else 0

walk_madt-ReachesZero_example : walk_madt one_lapic 52 0 (replicate 100 0) 1000 ≢ ok 1
walk_madt-ReachesZero_example =
    walk_madt-ReachesZero one_lapic 52 1 0 (replicate 100 0) 1000 1
      (omega arith, (omega arith, refl))
