-- ===== src/Gdt/Tests.antt =====
-- kernel/gdt.c: the table that the boot loader leaves has seven descriptors.
use franklin.Bitmap.{bitmap_test, bitmap_set}
use franklin.Pmm.{Pmm, palloc, find_run, all_free, set_run}
use franklin.Base.{refl, false, [], ◌∷◌, ok, ℕ, ◌+◌, ◌*◌, ◌/◌, ◌%◌, ◌^◌, ◌≡◌, ◌↔◌, arith}
use franklin.Exec.Words.{Memory}
use franklin.Gdt.{Gdt, init_gdt, load_tss}
use franklin.Gdt.Segments.{segment_at, high_at}
use franklin.Gdt.Tss.{load_tss-segment_at}
use franklin.Gdt.Init.{Installed, init_gdt-Installed}

abbrev boot_table : Memory
boot_table = λ b. 1

abbrev old_page : Memory
old_page = λ b. 204

-- Pages 5 to 7 are free, then 6 and 7, then 7.
abbrev three_free : Pmm
three_free = record { bitmap = 0x1f ∷ []; g = 10; spinlock = false }

abbrev two_free : Pmm
two_free = record { bitmap = 0x3f ∷ []; g = 10; spinlock = false }

abbrev one_free : Pmm
one_free = record { bitmap = 0x7f ∷ []; g = 10; spinlock = false }

first_page : palloc 1 three_free ≡ ok (0x5000, two_free)
unfolding palloc find_run all_free bitmap_test set_run bitmap_set
first_page = refl

second_page : palloc 1 two_free ≡ ok (0x6000, one_free)
unfolding palloc find_run all_free bitmap_test set_run bitmap_set
second_page = refl

init_gdt-Installed_example :
    (r : (Gdt × ℕ) × ℕ) × (init_gdt boot_table (8 * 6 + 7) old_page 0xffff800000104000 three_free
      ≡ ok (r, one_free))
    × Installed boot_table 6 0xffff800000104000 r
init_gdt-Installed_example =
    init_gdt-Installed boot_table 6 old_page 0xffff800000104000 three_free two_free one_free 0x5000
      0x6000 (omega arith) (omega arith) first_page second_page

load_tss-segment_at_example :
    (segment_at (load_tss 0xffff800012345678 boot_table) 9 ≡ record {
      base = 0xffff800012345678 % 2 ^ 24 + 2 ^ 24 * 1;
      limit = 0x67;
      access = 0x8b;
      flags = 0;
    })
    × (high_at (load_tss 0xffff800012345678 boot_table) 9 ≡ 0xffff800012345678 / 2 ^ 32)
    × ((0xffff800012345678 % 2 ^ 24 + 2 ^ 24 * 1 + 2 ^ 32 * (0xffff800012345678 / 2 ^ 32)
          ≡ 0xffff800012345678)
        ↔ (◌≡◌ {A = ℕ} 1 (0xffff800012345678 / 2 ^ 24 % 2 ^ 8)))
load_tss-segment_at_example =
    load_tss-segment_at 0xffff800012345678 boot_table (omega arith) (omega arith)
