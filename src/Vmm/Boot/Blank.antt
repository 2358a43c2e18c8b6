-- ===== src/Vmm/Boot/Blank.antt =====
-- kernel/vmm.c, `init_vm`: an empty top-level table.
use franklin.Base.{
  ℕ, ◌+◌, ◌*◌, ◌^◌, ◌≤◌, ◌<◌, ◌≡◌, refl, sym, false, true, ◌&&◌, arith, ltb, leb, ◌==◌,
  if◌then◌else◌, [], ◌∷◌, none, some, Cmd, pure, ◌>>=◌, ◌>>◌, ok, fault, and_then, ℕ_discrete,
}
use mathlib.Core.Path.{subst}
use franklin.Bitmap.Laws.{pages_of}
use franklin.Pmm.{Pmm, page_size, palloc}
use franklin.Pmm.Scan.{Fits}
use franklin.Pmm.Alloc.{MarksRun}
use franklin.Vmm.{Vm, is_present, slot, p2v, clear, new_page}
use franklin.Vmm.Tree.{Label, IsTree, page_at, page_at-IsTable}
use franklin.Vmm.Remap.{IsTable, slot-IsTable}
use franklin.Vmm.View.{view, view-empty}
use franklin.Vmm.Refines.{Takes}

-- An empty table in page `p`, which was free.
module _ (s : Vm) (small : pages_of s.pages.bitmap ≤ 2 ^ 35) (p : ℕ) (pages : Pmm)
    (fits : Fits s.pages.bitmap 1 p) (marks : MarksRun s.pages.bitmap p 1 true pages.bitmap) where
  abbrev pub blank : Vm
  blank = record {
    mem = λ b. if leb (page_at p) b && ltb b (page_at p + page_size) then 0 else s.mem b;
    pages = pages;
  }

  abbrev pub alone : ℕ → Label
  alone a = if page_at p == a then some (3, 0) else none

  pub p-IsTable : IsTable (page_at p)
  p-IsTable = page_at-IsTable p (omega (arith, fits.inside, small))

  blank-empty : (j : ℕ) → j < 512 → blank.mem (slot (page_at p) j) ≡ 0
  blank-empty j lj =
      let page = slot-IsTable p-IsTable lj in let t = p-IsTable in ground (arith, t.aligned, page)

  pub blank-IsTree : IsTree blank alone
  blank-IsTree = record {
    small = omega (arith, small, marks.size);
    backed = λ a x h. elim (ℕ_discrete (page_at p) a) [
      | yes e ↦ (p, sym e, omega (arith, fits.inside, marks.size), ground (arith, marks.bits p))
      | no ne ↦ ground (arith, h)
    ];
    child = λ a level place i h li there. elim (ℕ_discrete (page_at p) a) [
      | yes e ↦ absurd (
          let zero_word : blank.mem (slot a i) ≡ 0 =
            subst (λ b. blank.mem (slot b i) ≡ 0) e (blank-empty i li) in
          let none_there : is_present (blank.mem (slot a i)) ≡ false = rw zero_word refl in cc)
      | no ne ↦ ground (arith, h)
    ];
  }

  pub blank-view : (v : ℕ) → view blank.mem 3 (page_at p) v ≡ none
  blank-view v = view-empty blank.mem 3 (page_at p) v blank-empty

  pub blank-Takes : Takes s blank 1
  blank-Takes = record {
    size = marks.size;
    keeps = λ q u. ground (arith, marks.bits q, u);
    pages = (p ∷ [], omega arith, λ q u. ground (arith, marks.bits q, u));
  }

  pub alone-top : alone (page_at p) ≡ some (3, 0)
  alone-top = ground arith

  -- What follows gets the empty table.
  pub blank-start :
      (m : ℕ → Cmd Vm (Unit {0}))
      → palloc 1 s.pages ≡ ok (p * page_size, pages)
      → (do page ← new_page; clear (p2v page); m (p2v page); pure (p2v page)) s
        ≡ and_then (m (page_at p) blank) (λ q. ok (page_at p, q.1))
  unfolding new_page clear
  blank-start m e =
      let t = p-IsTable in
      let high : ltb (page_at p) page_size ≡ false = ground (arith, t.mapped) in simp (e, high) refl

pub blank-fault :
    (s : Vm) (m : ℕ → Cmd Vm (Unit {0}))
    → palloc 1 s.pages ≡ fault
    → (do page ← new_page; clear (p2v page); m (p2v page); pure (p2v page)) s ≡ fault
unfolding new_page
blank-fault s m e = simp e refl
