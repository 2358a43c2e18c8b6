-- ===== src/Vmm/Tests.antt =====
-- kernel/vmm.c: the laws at a concrete page table.
use franklin.Base.{
  zero, suc, ◌<◌, ◌==◌, if◌then◌else◌, bit_and, [], ◌∷◌, bit_or, ◌+◌, ◌^◌, ℕ, ◌≡◌, refl, arith,
  false, ok, some, Run, and_then, true,
}
use franklin.Base.Bits.{bit}
use franklin.Bitmap.{bitmap_test, bitmap_set}
use franklin.Pmm.{palloc, find_run, all_free, set_run}
use franklin.Vmm.Boot.{Kernel, init_vm}
use franklin.Vmm.Boot.Booted.{kernel_map, KernelPlaced, Booted, init_vm-Booted}
use franklin.Vmm.Range.{Ranged, mappages-Ranged}
use franklin.Vmm.{va2pte, mappage2, mappages, p2v, slot, load, store, get_next_level}
use franklin.Vmm.{Vm, destroyvm, is_present, index, pte_addr_mask}
use franklin.Vmm.View.{view}
use franklin.Pmm.{Pmm}
use franklin.Bitmap.Laws.{used}
use franklin.Vmm.Tree.{page_at}
use franklin.Vmm.Destroy.{Reached, itself, below, Freed, IsPage}
use franklin.Vmm.Destroy.Whole.{destroyvm-Freed}
use franklin.Vmm.Sample.{top, empty, alone, empty-IsTree}
use franklin.Vmm.Mapped.{Mapped, mappage2-Mapped}

-- The address of the entry for a new page, by a walk that makes the tables and one that does not.
abbrev walk_twice : Run (ℕ × ℕ)
walk_twice =
    and_then (va2pte top 0x400000 true empty)
      (λ r. and_then (va2pte top 0x400000 false r.1) (λ r'. ok (r.0, r'.0)))

walk_twice_run : walk_twice ≡ ok (0xffff800000004000, 0xffff800000004000)
unfolding va2pte get_next_level slot load store p2v bitmap_test bitmap_set palloc find_run all_free
    set_run
walk_twice_run = refl

mappage2-Mapped_example : Mapped empty top 0x400000 0x9000 3 (mappage2 top 0x400000 0x9000 3 empty)
unfolding bit
mappage2-Mapped_example = mappage2-Mapped empty top 0x400000 0x9000 3 refl alone empty-IsTree refl

mappages-Ranged_example :
    Ranged empty top 2 0x400000 0x9000 3 (mappages top 0x400000 0x9000 0x2000 3 empty)
unfolding bit
mappages-Ranged_example =
    mappages-Ranged empty top 0x400000 0x9000 0x2000 3 alone refl (omega arith) empty-IsTree refl

abbrev kernel_at : Kernel
kernel_at = record {
  text_start = 0xffffffff80000000;
  text_end = 0xffffffff80006123;
  rodata_start = 0xffffffff80007000;
  rodata_end = 0xffffffff80008456;
  data_start = 0xffffffff80009000;
  data_end = 0xffffffff80010789;
  virtual_base = 0xffffffff80000000;
  physical_base = 0x7e00000;
}

placed : KernelPlaced kernel_at
placed = record {
  text = record { upper = omega arith; order = omega arith; below = omega arith };
  rodata = record { upper = omega arith; order = omega arith; below = omega arith };
  data_pages = record { upper = omega arith; order = omega arith; below = omega arith };
}

-- The second page of the data segment.
kernel_map_run : kernel_map kernel_at 0xffffffff8000a008 ≡ some (bit_or 0x7e0a000 (2 ^ 63 + 7))
kernel_map_run = refl

init_vm-Booted_example : Booted empty kernel_at (init_vm kernel_at empty)
init_vm-Booted_example = init_vm-Booted kernel_at empty placed (omega arith)

-- One entry of the top-level table leads to an empty table in page 2; page 3 is not reached.
abbrev grown : Vm
grown = record {
  mem = λ a. if top == a then 0x2007 else 0;
  pages = record { bitmap = 15 ∷ 0 ∷ []; g = 0; spinlock = false };
}

below_grown : (a : ℕ) → Reached grown.mem a 3 (page_at 2) 0 512 → IsPage 16 a
unfolding slot p2v
below_grown a (itself e) = (2, e, omega arith)
below_grown a (below i ge lt there r) =
    let off : (top == slot (page_at 2) i) ≡ false = ground arith in
    let absent : is_present (grown.mem (slot (page_at 2) i)) ≡ false = rw off refl in cc

reached_grown : (a : ℕ) → Reached grown.mem a 4 top 0 256 → IsPage 16 a
unfolding slot p2v
reached_grown a (itself e) = (1, e, omega arith)
reached_grown a (below zero ge lt there r) = below_grown a r
reached_grown a (below (suc i) ge lt there r) =
    let off : (top == slot top (suc i)) ≡ false = ground arith in
    let absent : is_present (grown.mem (slot top (suc i))) ≡ false = rw off refl in cc

destroyvm-Freed_example :
    (g : Pmm) × (destroyvm top grown ≡ ok (tt, record grown { pages = g }))
    × Freed grown.pages g (λ a. Reached grown.mem a 4 top 0 256)
    × ((v w q : ℕ)
        → index 3 v < 256
        → view grown.mem 3 top v ≡ some w
        → q < 2 ^ 35
        → p2v (bit_and w pte_addr_mask) ≡ page_at q
        → used g.bitmap q ≡ false)
destroyvm-Freed_example = destroyvm-Freed grown top (omega arith) reached_grown
