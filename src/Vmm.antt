-- ===== src/Vmm.antt =====
-- kernel/vmm.c: the page tables, over the page allocator. Memory is a function from the virtual
-- address of an aligned 64-bit word to the word; the first page is not mapped, so a `NULL` table
-- is a fault.
pub mod Remap
pub mod Tree
pub mod View
pub mod Refines
pub mod Mapped
pub mod Series
pub mod Range
pub mod Boot
pub mod Fork
pub mod Destroy
pub mod Sample
mod Tests
use franklin.Base.{
  ℕ, zero, suc, ◌+◌, ◌-◌, ◌*◌, ◌/◌, ◌%◌, ◌^◌, Bool, true, false, not, ◌&&◌, ◌==◌, ltb, leb,
  if◌then◌else◌, bit_and, bit_or, ℤ, pos, neg, ok, fault, and_then, Cmd, pure, List, ◌∷◌, ◌>>=◌,
  ◌>>◌,
}
use franklin.Pmm.{Pmm, page_size, palloc, freepg}

pub record Vm : Type 0 where
  pub mem : ℕ → ℕ
  pub pages : Pmm

-- `HHDM_OFFSET`
abbrev pub hhdm_offset : ℕ
hhdm_offset = 0xffff800000000000

abbrev pub pte_present : ℕ
pte_present = 2 ^ 0

-- `PTE_PRESENT | PTE_RW | PTE_USER`
abbrev pub pte_table : ℕ
pte_table = 7

abbrev pub pte_addr_mask : ℕ
pte_addr_mask = 0x000ffffffffff000

unfoldable pub p2v : ℕ → ℕ
p2v p = (p + hhdm_offset) % 2 ^ 64

unfoldable pub v2p : ℕ → ℕ
v2p v = (v + (2 ^ 64 - hhdm_offset)) % 2 ^ 64

unfoldable pub load : ℕ → Cmd Vm ℕ
load a s = if ltb a page_size then fault else ok (s.mem a, s)

unfoldable pub store : ℕ → ℕ → Cmd Vm (Unit {0})
store a w s =
    if ltb a page_size
    then fault
    else ok (tt, record s { mem = λ b. if a == b then w else s.mem b })

-- `memset(page, 0, PGSIZE)`
unfoldable pub clear : ℕ → Cmd Vm (Unit {0})
clear a s =
    if ltb a page_size
    then fault
    else ok (tt, record s { mem = λ b. if leb a b && ltb b (a + page_size) then 0 else s.mem b })

unfoldable pub new_page : Cmd Vm ℕ
new_page s = and_then (palloc 1 s.pages) (λ r. ok (r.0, record s { pages = r.1 }))

-- `&table[idx]`
unfoldable pub slot : ℕ → ℕ → ℕ
slot table idx = (table + idx * 8) % 2 ^ 64

abbrev pub is_present : ℕ → Bool
is_present w = not (bit_and w pte_present == 0)

unfoldable pub get_next_level : ℕ → ℕ → Bool → Cmd Vm ℕ
unfolding p2v load store clear new_page slot
get_next_level top_level idx alloc = do
  w ← load (slot top_level idx)
  if is_present w then pure (p2v (bit_and w pte_addr_mask)) else if not alloc then pure 0 else do
    entry ← new_page
    clear (p2v entry)
    store (slot top_level idx) (bit_or entry pte_table)
    pure (p2v entry)

-- Bits of the address that index the table of a level, the lowest level 0.
abbrev pub index : ℕ → ℕ → ℕ
index level vaddr = vaddr / 2 ^ (12 + 9 * level) % 512

-- The address of the entry for a page.
unfoldable pub va2pte : ℕ → ℕ → Bool → Cmd Vm ℕ
unfolding get_next_level slot
va2pte top_level vaddr alloc = do
  pml3 ← get_next_level top_level (index 3 vaddr) alloc
  pml2 ← get_next_level pml3 (index 2 vaddr) alloc
  pml1 ← get_next_level pml2 (index 1 vaddr) alloc
  pure (slot pml1 (index 0 vaddr))

unfoldable pub mappage2 : ℕ → ℕ → ℕ → ℕ → Cmd Vm ℤ
unfolding va2pte load store
mappage2 top_level vaddr paddr flags = do
  pte ← va2pte top_level vaddr true
  w ← load pte
  if is_present w then pure (neg 22) else do store pte (bit_or paddr flags); pure (pos 0)

map_from : ℕ → ℕ → ℕ → ℕ → ℕ → ℕ → Cmd Vm (Unit {0})
unfolding mappage2
map_from zero i top_level vaddr paddr flags = pure tt
map_from (suc left) i top_level vaddr paddr flags = do
  mappage2 top_level ((vaddr + i * page_size) % 2 ^ 64) ((paddr + i * page_size) % 2 ^ 64) flags
  map_from left (i + 1) top_level vaddr paddr flags

-- What `mappage2` returns is dropped.
unfoldable pub mappages : ℕ → ℕ → ℕ → ℕ → ℕ → Cmd Vm ℤ
unfolding map_from
mappages top_level vaddr paddr size flags = do
  map_from (size / page_size) 0 top_level vaddr paddr flags
  pure (pos 0)

pub free_page : ℕ → Cmd Vm (Unit {0})
unfolding v2p
free_page pml s = and_then (freepg (v2p pml) 1 s.pages) (λ g. ok (tt, record s { pages = g }))

-- The loop of `destroy_level`: the tables below the entries from `i` on.
destroy_entries : (ℕ → Cmd Vm (Unit {0})) → ℕ → ℕ → ℕ → Cmd Vm (Unit {0})
unfolding get_next_level
destroy_entries below zero i pml = pure tt
destroy_entries below (suc left) i pml = do
  nextlevel ← get_next_level pml i false
  if nextlevel == 0 then pure tt else below nextlevel
  destroy_entries below left (i + 1) pml

unfoldable pub destroy_level : ℕ → ℕ → ℕ → ℕ → Cmd Vm (Unit {0})
unfolding destroy_entries free_page
destroy_level zero pml start end = free_page pml
destroy_level (suc level) pml start end = do
  destroy_entries (λ table. destroy_level level table 0 512) (end - start) start pml
  free_page pml

unfoldable pub destroyvm : ℕ → Cmd Vm (Unit {0})
unfolding destroy_level
destroyvm top_level = destroy_level 4 top_level 0 256

unfoldable pub copy_entries : ℕ → ℕ → ℕ → ℕ → Cmd Vm (Unit {0})
unfolding load store slot
copy_entries zero i from to = pure tt
copy_entries (suc left) i from to = do
  w ← load (slot from i)
  store (slot to i) w
  copy_entries left (i + 1) from to

-- The top-level table of the new map, for a map of the kernel with the table `kernel_top`.
unfoldable pub newvm_map : ℕ → Cmd Vm ℕ
unfolding p2v copy_entries new_page
newvm_map kernel_top = do
  page ← new_page
  copy_entries 256 256 kernel_top (p2v page)
  pure (p2v page)

-- A range of a map; its offset and its object are not set. `kalloc` does not fail here.
pub record VmMapEntry : Type 0 where
  pub start : ℕ
  pub stop : ℕ

-- kernel/vm/vm.c: the entries of a map are a list, the new one first.
unfoldable vm_alloc : ℕ → ℕ → Cmd (List VmMapEntry) (Unit {0})
vm_alloc vaddr size entries =
    ok (tt, record { start = vaddr; stop = (vaddr + size) % 2 ^ 64 } ∷ entries)
