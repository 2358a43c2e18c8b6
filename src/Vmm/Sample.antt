-- ===== src/Vmm/Sample.antt =====
-- kernel/vmm.c: a page table with no entry, and few pages.
use franklin.Base.{replicate, ℕ, refl, arith, false, ◌==◌, if◌then◌else◌, [], some, none, ◌∷◌}
use franklin.Base.Bits.{bit}
use franklin.Bitmap.Laws.{used}
use franklin.Vmm.{Vm, p2v}
use franklin.Vmm.Tree.{Label, IsTree}

abbrev pub top : ℕ
top = 0xffff800000001000

-- An empty top-level table in page 1, and pages 2 to 15 free.
abbrev pub empty : Vm
empty = record { mem = λ a. 0; pages = record { bitmap = 3 ∷ 0 ∷ []; g = 0; spinlock = false } }

abbrev pub alone : ℕ → Label
alone a = if top == a then some (3, 0) else none

pub empty-IsTree : IsTree empty alone
unfolding used bit p2v
empty-IsTree = record {
  small = omega arith;
  backed = λ a x h. (1, ground arith, omega arith, refl);
  child = λ a level place i h lt p. cc;
}

-- The same table with 166 pages that are free.
abbrev pub roomy : Vm
roomy = record {
  mem = λ a. 0;
  pages = record { bitmap = 3 ∷ replicate 20 0; g = 0; spinlock = false };
}

pub roomy-IsTree : IsTree roomy alone
unfolding used bit p2v
roomy-IsTree = record {
  small = omega arith;
  backed = λ a x h. (1, ground arith, omega arith, refl);
  child = λ a level place i h lt p. cc;
}
