-- ===== src/Vmm/Destroy.antt =====
-- kernel/vmm.c, `destroyvm`: the pages that tables reach, and how freeing pages may leave the bitmap.
pub mod Frees
pub mod Levels
pub mod Whole
use franklin.Base.{
  ℕ, zero, suc, ◌+◌, ◌-◌, ◌*◌, ◌/◌, ◌%◌, ◌^◌, ◌≤◌, ◌<◌, ◌≡◌, ◌≢◌, refl, ap, sym, ◌∙◌, true, false,
  arith, ◌==◌, ltb, if◌then◌else◌, ◌⊎◌, inl, inr, Option, none, some, Run, ok, and_then, Bool-cases,
  length, Cmd, pure, ℕ_discrete, ◌>>=◌, ◌>>◌, bit_and,
}
use mathlib.Core.Path.{subst}
use franklin.Base.Commands.{and_then_assoc}
use franklin.Bitmap.Laws.{used, pages_of}
use franklin.Pmm.{Pmm, page_size, freepg}
use franklin.Pmm.Free.{freepg-MarksRun}
use franklin.Vmm.{
  Vm, p2v, v2p, slot, load, index, is_present, pte_addr_mask, get_next_level, free_page,
  destroy_entries, destroy_level, destroyvm,
}
use franklin.Vmm.Remap.{IsTable, Leads, slot-mapped, get_next_level-Leads}
use franklin.Vmm.Tree.{page_at, page_at-IsTable, page_at-ne}
use franklin.Vmm.View.{view}

-- Where an entry leads to.
abbrev pub target : (mem : ℕ → ℕ) → (table i : ℕ) → ℕ
target mem table i = p2v (bit_and (mem (slot table i)) pte_addr_mask)

-- The address of a table, or of a page below it: through the entries from `lo` to `hi` of the
-- table itself, and all entries of the tables below. At level 0 stand the mapped pages.
pub data Reached (mem : ℕ → ℕ) (a : ℕ) : (level table lo hi : ℕ) → Type 0 where
  itself : {level table lo hi : ℕ} → a ≡ table → Reached mem a level table lo hi
  below :
      {level table lo hi : ℕ} (i : ℕ)
      → lo ≤ i
      → i < hi
      → is_present (mem (slot table i)) ≡ true
      → Reached mem a level (target mem table i) 0 512
      → Reached mem a (suc level) table lo hi

-- The pages at some addresses are free, the others are as they were.
pub record Freed (g g' : Pmm) (P : ℕ → Type 0) : Type 0 where
  pub size : length g'.bitmap ≡ length g.bitmap
  pub shrinks : (q : ℕ) → used g'.bitmap q ≡ true → used g.bitmap q ≡ true
  pub gone : (q : ℕ) → q < 2 ^ 35 → P (page_at q) → used g'.bitmap q ≡ false
  pub kept : (q : ℕ) → q < 2 ^ 35 → ¬ P (page_at q) → used g'.bitmap q ≡ used g.bitmap q

-- The address is that of one of `n` physical pages.
abbrev pub IsPage : (n a : ℕ) → Type 0
IsPage n a = (q : ℕ) × (a ≡ page_at q) × (q < n)
