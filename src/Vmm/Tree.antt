-- ===== src/Vmm/Tree.antt =====
-- kernel/vmm.c: the tree of page tables, and how a call may leave it.
pub mod Grow
use franklin.Base.{
  ℕ, zero, suc, ◌+◌, ◌-◌, ◌*◌, ◌/◌, ◌%◌, ◌^◌, ◌≤◌, ◌<◌, ◌≡◌, ◌≢◌, ◌⊎◌, inl, inr, refl, sym, ap, ◌∙◌,
  Bool, true, false, not, ◌&&◌, arith, ◌==◌, ltb, leb, if◌then◌else◌, bit_and, bit_or, Option, none,
  some, Run, ok, fault, and_then, ℕ_discrete, Bool-cases, length,
}
use mathlib.Core.Path.{subst}
use franklin.Base.Bits.{bit, bit-bit_or, bit_and-pow}
use franklin.Base.Bits.Masks.{bit_or-low, bit_and-high, bit_and-low}
use franklin.Bitmap.Laws.{used, pages_of}
use franklin.Pmm.{Pmm, page_size, palloc}
use franklin.Pmm.Scan.{Fits}
use franklin.Pmm.Alloc.{MarksRun, Alloc, got, none_free, palloc-Alloc}
use franklin.Vmm.{
  Vm, hhdm_offset, p2v, slot, load, store, clear, new_page, is_present, pte_addr_mask, pte_table,
  get_next_level,
}
use franklin.Vmm.Remap.{
  IsTable, Leads, slot-IsTable, slot-mapped, slot-apart, is_present-or, get_next_level-Leads,
}

-- The entry for a table at page `p`.
pub entry-table :
    (p : ℕ) → p < 2 ^ 40 → bit_and (bit_or (p * page_size) pte_table) pte_addr_mask ≡ p * page_size
entry-table p h =
    rw
      (
        bit_or-low 12 p 7 (omega arith),
        bit_and-high 12 p 7 (2 ^ 40 - 1) (omega arith),
        bit_and-low 40 p h,
      )
      refl

bit-seven : bit 7 0 ≡ 1
unfolding bit
bit-seven = refl

pub entry-present : (p : ℕ) → is_present (bit_or (p * page_size) pte_table) ≡ true
entry-present p = is_present-or (p * page_size) 7 bit-seven

-- Where in the tree a table stands: its level, and the bits of the addresses that lead to it.
abbrev pub Label : Type 0
Label = Option (ℕ × ℕ)

-- The page where physical page `q` is mapped.
abbrev pub page_at : ℕ → ℕ
page_at q = p2v (q * page_size)

-- The tables of a tree: they stand in pages that are in use, one table to a page, and an entry
-- that is present, above the lowest level, leads to the table for its place.
pub record IsTree (s : Vm) (at : ℕ → Label) : Type 0 where
  pub small : pages_of s.pages.bitmap ≤ 2 ^ 35
  pub backed :
      (a : ℕ) (x : ℕ × ℕ)
      → at a ≡ some x
      → (q : ℕ) × (a ≡ page_at q) × (q < pages_of s.pages.bitmap) × (used s.pages.bitmap q ≡ true)
  pub child :
      (a level place i : ℕ)
      → at a ≡ some (suc level, place)
      → i < 512
      → is_present (s.mem (slot a i)) ≡ true
      → at (p2v (bit_and (s.mem (slot a i)) pte_addr_mask)) ≡ some (level, place * 512 + i)

-- An entry was absent, and now leads to an empty table.
pub record Fresh (s t : Vm) (a i : ℕ) : Type 0 where
  pub absent : is_present (s.mem (slot a i)) ≡ false
  pub leads : is_present (t.mem (slot a i)) ≡ true
  pub empty :
      (j : ℕ) → j < 512 → t.mem (slot (p2v (bit_and (t.mem (slot a i)) pte_addr_mask)) j) ≡ 0

-- The tree has grown by tables that are empty, in at most one page.
pub record Grown (s : Vm) (at : ℕ → Label) (t : Vm) (at' : ℕ → Label) : Type 0 where
  pub size : length t.pages.bitmap ≡ length s.pages.bitmap
  pub keeps : (q : ℕ) → used s.pages.bitmap q ≡ true → used t.pages.bitmap q ≡ true
  pub extends : (a : ℕ) (x : ℕ × ℕ) → at a ≡ some x → at' a ≡ some x
  pub page :
      (x : ℕ) × ((q : ℕ) → used t.pages.bitmap q ≡ true → (used s.pages.bitmap q ≡ true) ⊎ (q ≡ x))
  pub entries :
      (a level place i : ℕ)
      → at a ≡ some (level, place)
      → i < 512
      → (t.mem (slot a i) ≡ s.mem (slot a i)) ⊎ ((0 < level) × Fresh s t a i)

pub Grown-refl : (s : Vm) (at : ℕ → Label) → Grown s at s at
Grown-refl s at = record {
  size = refl;
  keeps = λ q u. u;
  extends = λ a x h. h;
  page = (0, λ q u. inl u);
  entries = λ a level place i h lt. inl refl;
}

pub page_at-IsTable : (q : ℕ) → q < 2 ^ 35 → IsTable (page_at q)
unfolding p2v
page_at-IsTable q h = record { aligned = omega arith; bounded = omega arith; mapped = omega arith }

pub page_at-ne : (p q : ℕ) → p < 2 ^ 35 → q < 2 ^ 35 → p ≢ q → page_at p ≢ page_at q
unfolding p2v
page_at-ne p q hp hq ne e = ne (omega arith)

pub IsTree-IsTable :
    {s : Vm} {at : ℕ → Label} → IsTree s at → (a : ℕ) (x : ℕ × ℕ) → at a ≡ some x → IsTable a
IsTree-IsTable tree a x h =
    let (q, e, lt, u) = tree.backed a x h in rw e (page_at-IsTable q (omega (arith, tree.small)))

pub slot-ne :
    (table i j : ℕ)
    → IsTable table
    → i < 512
    → j < 512
    → i ≢ j
    → (slot table i == slot table j) ≡ false
unfolding slot
slot-ne table i j t li lj ne = ground (arith, t.aligned, t.bounded)

-- How a call of `get_next_level` that may make a table ends.
pub data NextLevel (s : Vm) (at : ℕ → Label) (table idx level place : ℕ)
    : Run (ℕ × Vm) → Type 0 where
  next :
      {n : ℕ} {t : Vm} (at' : ℕ → Label)
      → IsTree t at'
      → Grown s at t at'
      → at' n ≡ some (level, place * 512 + idx)
      → Leads t.mem table idx n
      → NextLevel s at table idx level place (ok (n, t))
  full : ((q : ℕ) → ¬ Fits s.pages.bitmap 1 q) → NextLevel s at table idx level place fault
