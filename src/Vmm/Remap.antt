-- ===== src/Vmm/Remap.antt =====
-- kernel/vmm.c: the tables on the way to a page, where they exist.
use franklin.Base.{
  ℕ, ◌/◌, ◌%◌, ◌^◌, ◌≡◌, ◌≢◌, ◌≤◌, ◌<◌, refl, sym, Bool, true, false, arith, ◌==◌, ltb,
  if◌then◌else◌, bit_and, bit_or, ok,
}
use franklin.Base.Bits.{bit, bit-bit_or, bit_and-pow}
use franklin.Pmm.{page_size}
use franklin.Vmm.{Vm, p2v, slot, index, is_present, pte_addr_mask, load, get_next_level}

-- A page in the range of the addresses, and not the first one.
pub record IsTable (table : ℕ) : Type 0 where
  pub aligned : table % page_size ≡ 0
  pub bounded : table < 2 ^ 64
  pub mapped : page_size ≤ table

-- The entry is present and leads to the table at `next`.
pub record Leads (mem : ℕ → ℕ) (table idx next : ℕ) : Type 0 where
  pub table_ok : IsTable table
  pub present : is_present (mem (slot table idx)) ≡ true
  pub points : p2v (bit_and (mem (slot table idx)) pte_addr_mask) ≡ next

-- The tables on the way to a page, the last of which is none of the others.
pub record Tables (mem : ℕ → ℕ) (top vaddr pml3 pml2 pml1 : ℕ) : Type 0 where
  pub third : Leads mem top (index 3 vaddr) pml3
  pub second : Leads mem pml3 (index 2 vaddr) pml2
  pub first : Leads mem pml2 (index 1 vaddr) pml1
  pub last_ok : IsTable pml1
  pub not_top : pml1 ≢ top
  pub not_third : pml1 ≢ pml3
  pub not_second : pml1 ≢ pml2

pub slot-IsTable :
    {table idx : ℕ} → IsTable table → idx < 512 → slot table idx / page_size ≡ table / page_size
unfolding slot
slot-IsTable t h = omega (arith, t.aligned, t.bounded)

pub slot-mapped :
    {table idx : ℕ} → IsTable table → idx < 512 → ltb (slot table idx) page_size ≡ false
unfolding slot
slot-mapped t h = ground (arith, t.aligned, t.bounded, t.mapped)

pub slot-apart :
    {table table' idx idx' : ℕ}
    → IsTable table
    → IsTable table'
    → idx < 512
    → idx' < 512
    → table ≢ table'
    → (slot table' idx' == slot table idx) ≡ false
unfolding slot
slot-apart t t' h h' ne =
    ground (arith, t.aligned, t'.aligned, slot-IsTable t h, slot-IsTable t' h')

pub get_next_level-Leads :
    (s : Vm) (table idx next : ℕ) (alloc : Bool)
    → idx < 512
    → Leads s.mem table idx next
    → get_next_level table idx alloc s ≡ ok (next, s)
unfolding get_next_level load
get_next_level-Leads s table idx next alloc i h =
    simp (slot-mapped h.table_ok i, h.present, h.points) refl

-- A word written to another table leaves an entry as it is.
Leads-update :
    (mem : ℕ → ℕ) (table idx next a w : ℕ)
    → (a == slot table idx) ≡ false
    → Leads mem table idx next
    → Leads (λ b. if a == b then w else mem b) table idx next
Leads-update mem table idx next a w apart h = record {
  table_ok = h.table_ok;
  present = rw apart h.present;
  points = rw apart h.points;
}

pub is_present-or : (paddr flags : ℕ) → bit flags 0 ≡ 1 → is_present (bit_or paddr flags) ≡ true
is_present-or paddr flags h =
    ground (arith, bit_and-pow (bit_or paddr flags) 0, bit-bit_or paddr flags 0, h)

-- A word written to the last table leaves the way to it as it is.
pub Tables-update :
    (mem : ℕ → ℕ) (top vaddr pml3 pml2 pml1 i w : ℕ)
    → i < 512
    → Tables mem top vaddr pml3 pml2 pml1
    → Tables (λ b. if slot pml1 i == b then w else mem b) top vaddr pml3 pml2 pml1
Tables-update mem top vaddr pml3 pml2 pml1 i w small h =
    let keep : (table idx next : ℕ)
        → idx < 512
        → pml1 ≢ table
        → Leads mem table idx next
        → Leads (λ b. if slot pml1 i == b then w else mem b) table idx next =
      λ table idx next fits ne l.
        Leads-update mem table idx next (slot pml1 i) w
          (slot-apart l.table_ok h.last_ok fits small (λ e. ne (sym e))) l in
    record {
      third = keep top (index 3 vaddr) pml3 (omega arith) h.not_top h.third;
      second = keep pml3 (index 2 vaddr) pml2 (omega arith) h.not_third h.second;
      first = keep pml2 (index 1 vaddr) pml1 (omega arith) h.not_second h.first;
      last_ok = h.last_ok;
      not_top = h.not_top;
      not_third = h.not_third;
      not_second = h.not_second;
    }
