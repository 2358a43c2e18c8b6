-- ===== src/Vmm/Boot.antt =====
-- kernel/vmm.c, `init_vm`: the page tables that the kernel gives itself at the start. What the
-- linker and the boot loader say of the kernel's place is an argument.
pub mod Sections
pub mod Halves
pub mod Blank
pub mod Laws
pub mod Booted
use franklin.Base.{
  ℕ, zero, suc, ◌+◌, ◌-◌, ◌*◌, ◌/◌, ◌%◌, ◌^◌, ltb, if◌then◌else◌, true, out_of_fuel, Cmd, pure,
  ◌>>=◌, ◌>>◌,
}
use franklin.Pmm.{page_size}
use franklin.Vmm.{Vm, hhdm_offset, p2v, clear, new_page, get_next_level, mappage2}

-- The symbols of the linker, and `struct limine_kernel_address_response`.
pub record Kernel : Type 0 where
  pub text_start : ℕ
  pub text_end : ℕ
  pub rodata_start : ℕ
  pub rodata_end : ℕ
  pub data_start : ℕ
  pub data_end : ℕ
  pub virtual_base : ℕ
  pub physical_base : ℕ

-- `ALIGN_DOWN(n, PGSIZE)` and `ALIGN_UP(n, PGSIZE)`
abbrev pub align_down_page : ℕ → ℕ
align_down_page n = n / page_size * page_size

abbrev pub align_up_page : ℕ → ℕ
align_up_page n = (n + page_size - 1) % 2 ^ 64 / page_size * page_size

abbrev pub pte_nx : ℕ
pte_nx = 2 ^ 63

-- The loop over the upper half of the top-level table.
unfoldable pub make_levels : (left i top_level : ℕ) → Cmd Vm (Unit {0})
unfolding get_next_level
make_levels zero i top_level = pure tt
make_levels (suc left) i top_level = do
  get_next_level top_level i true
  make_levels left (i + 1) top_level

abbrev pub physical : Kernel → ℕ → ℕ
physical k vaddr = (vaddr + (2 ^ 64 - k.virtual_base) + k.physical_base) % 2 ^ 64

-- The loop over the pages of a segment of the kernel.
unfoldable pub map_segment :
    (rounds vaddr end_addr : ℕ) → Kernel → (flags top_level : ℕ) → Cmd Vm (Unit {0})
unfolding mappage2
map_segment zero vaddr end_addr k flags top_level =
    if ltb vaddr end_addr then (λ s. out_of_fuel) else pure tt
map_segment (suc rounds) vaddr end_addr k flags top_level =
    if ltb vaddr end_addr
    then (do
      mappage2 top_level vaddr (physical k vaddr) flags
      map_segment rounds ((vaddr + page_size) % 2 ^ 64) end_addr k flags top_level)
    else pure tt

-- `PTE_PRESENT | PTE_RW | PTE_USER`, and `PTE_NX` too.
abbrev pub pte_low : ℕ
pte_low = 7

abbrev pub pte_high : ℕ
pte_high = pte_nx + 7

-- The loop over the lower half of the physical memory below 4 GB.
unfoldable pub map_lower : (rounds vaddr top_level : ℕ) → Cmd Vm (Unit {0})
unfolding mappage2
map_lower zero vaddr top_level = if ltb vaddr (0x100000000 / 2) then (λ s. out_of_fuel) else pure tt
map_lower (suc rounds) vaddr top_level =
    if ltb vaddr (0x100000000 / 2)
    then (do
      mappage2 top_level vaddr vaddr pte_low
      mappage2 top_level ((vaddr + hhdm_offset) % 2 ^ 64) vaddr pte_high
      map_lower rounds ((vaddr + page_size) % 2 ^ 64) top_level)
    else pure tt

-- The rounds that a loop over the pages of 2 ^ 64 bytes can have.
abbrev pub all_rounds : ℕ
all_rounds = 2 ^ 52

-- What `init_vm` does with an empty top-level table.
unfoldable pub map_kernel : Kernel → ℕ → Cmd Vm (Unit {0})
unfolding make_levels map_segment map_lower
map_kernel k top_level = do
  make_levels 256 256 top_level
  map_segment all_rounds (align_down_page k.text_start) (align_up_page k.text_end) k 5 top_level
  map_segment all_rounds (align_down_page k.rodata_start) (align_up_page k.rodata_end) k
      (pte_nx + 5) top_level
  map_segment all_rounds (align_down_page k.data_start) (align_up_page k.data_end) k (pte_nx + 7)
      top_level
  map_lower all_rounds page_size top_level

-- The result is the top-level table, which `kernel_vm_map` keeps.
unfoldable pub init_vm : Kernel → Cmd Vm ℕ
unfolding p2v clear new_page map_kernel
init_vm k = do page ← new_page; clear (p2v page); map_kernel k (p2v page); pure (p2v page)
