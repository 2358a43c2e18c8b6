-- ===== src/Vmm/Destroy/Whole.antt =====
-- kernel/vmm.c, `destroyvm`: what it frees, as the processor finds it.
use franklin.Base.{
  ℕ, zero, suc, ◌^◌, ◌≤◌, ◌<◌, ◌≡◌, refl, ap, false, arith, none, some, ok, bit_and, Bool-cases,
  inl, inr,
}
use mathlib.Core.Path.{subst}
use franklin.Bitmap.Laws.{used, pages_of}
use franklin.Pmm.{Pmm}
use franklin.Vmm.{Vm, p2v, slot, index, is_present, pte_addr_mask, destroyvm}
use franklin.Vmm.Tree.{page_at}
use franklin.Vmm.View.{view}
use franklin.Vmm.Destroy.{Reached, itself, below, Freed, IsPage}
use franklin.Vmm.Destroy.Levels.{level-Frees}

-- The page that the processor finds for an address is one that the tables reach.
view-Reached :
    (mem : ℕ → ℕ) (level table v w lo hi : ℕ)
    → lo ≤ index level v
    → index level v < hi
    → view mem level table v ≡ some w
    → Reached mem (p2v (bit_and w pte_addr_mask)) (suc level) table lo hi
unfolding view
view-Reached mem zero table v w lo hi ge lt e =
    elim (Bool-cases (is_present (mem (slot table (index 0 v))))) [
      | inl there ↦
          (let found : some (mem (slot table (index 0 v))) ≡ some w = rw there at e in
            let same : w ≡ mem (slot table (index 0 v)) = cc in
            below (index 0 v) ge lt there (itself (ap (λ x. p2v (bit_and x pte_addr_mask)) same)))
      | inr absent ↦ (let none_there : none ≡ some w = rw absent at e in cc)
    ]
view-Reached mem (suc level) table v w lo hi ge lt e =
    elim (Bool-cases (is_present (mem (slot table (index (suc level) v))))) [
      | inl there ↦
          below (index (suc level) v) ge lt there
            (view-Reached mem level _ v w 0 512 (omega arith) (omega arith) (rw there at e))
      | inr absent ↦ (let none_there : none ≡ some w = rw absent at e in cc)
    ]

-- On tables over at most 2 ^ 35 physical pages, where every table and page that the lower half
-- reaches is one of these pages, `destroyvm` returns. The tables of the lower half, the top-level
-- table and the pages that the processor finds mapped in the lower half are free afterwards, every
-- other page is as it was, and no entry has changed.
pub destroyvm-Freed :
    (s : Vm) (top : ℕ)
    → pages_of s.pages.bitmap ≤ 2 ^ 35
    → ((a : ℕ) → Reached s.mem a 4 top 0 256 → IsPage (pages_of s.pages.bitmap) a)
    → (g : Pmm) × (destroyvm top s ≡ ok (tt, record s { pages = g }))
      × Freed s.pages g (λ a. Reached s.mem a 4 top 0 256)
      × ((v w q : ℕ)
          → index 3 v < 256
          → view s.mem 3 top v ≡ some w
          → q < 2 ^ 35
          → p2v (bit_and w pte_addr_mask) ≡ page_at q
          → used g.bitmap q ≡ false)
unfolding destroyvm
destroyvm-Freed s top small pages =
    let (g, e, f) =
      (level-Frees s.mem (pages_of s.pages.bitmap) small 4 top 0 256 (omega arith) (omega arith)
          pages).frees
        s.pages refl in
    (
      g,
      e,
      f,
      λ v w q lower found lt frame. f.gone q lt (
          subst (λ a. Reached s.mem a 4 top 0 256) frame
            (view-Reached s.mem 3 top v w 0 256 (omega arith) lower found)),
    )
