-- ===== src/Vmm/Mapped.antt =====
-- kernel/vmm.c, `mappage2`: it adds one entry to the map that the page tables stand for.
use franklin.Base.{
  ℕ, zero, suc, ◌≤◌, ◌<◌, ◌≡◌, ◌≢◌, inl, inr, refl, sym, ap, ◌∙◌, true, false, arith, ◌==◌, ltb,
  if◌then◌else◌, bit_or, none, some, ℤ, pos, neg, Run, ok, fault, ℕ_discrete, Bool-cases, and_then,
  List, pure, ◌>>=◌, ==_iff, length,
}
use mathlib.Core.Path.{subst}
use franklin.Base.Bits.{bit}
use franklin.Bitmap.Laws.{used, pages_of}
use franklin.Pmm.{page_size}
use franklin.Vmm.{Vm, slot, index, is_present, load, store, mappage2}
use franklin.Vmm.Remap.{Tables, slot-mapped, slot-apart, is_present-or, Tables-update}
use franklin.Vmm.Tree.{Label, IsTree, IsTree-IsTable, slot-ne}
use franklin.Vmm.View.{view}
use franklin.Vmm.Refines.{
  place_of, place_of-step, page_of, view-Leads, IsIn, Takes, Walk, walked, no_memory, level-ne,
  va2pte-Walk,
}

-- The view of a page goes through its tables.
view-Tables :
    (mem : ℕ → ℕ) (top v pml3 pml2 pml1 : ℕ)
    → Tables mem top v pml3 pml2 pml1
    → view mem 3 top v ≡ view mem 0 pml1 v
view-Tables mem top v pml3 pml2 pml1 h =
    view-Leads mem 2 top v pml3 h.third
    ∙ view-Leads mem 1 pml3 v pml2 h.second
    ∙ view-Leads mem 0 pml2 v pml1 h.first

module _ (mem : ℕ → ℕ) (table vaddr : ℕ) where
  view-present :
      is_present (mem (slot table (index 0 vaddr))) ≡ true
      → view mem 0 table vaddr ≡ some (mem (slot table (index 0 vaddr)))
  unfolding view
  view-present p = rw p refl

  view-absent :
      is_present (mem (slot table (index 0 vaddr))) ≡ false → view mem 0 table vaddr ≡ none
  unfolding view
  view-absent p = rw p refl

-- Addresses of one page have one view.
pub view-page :
    (mem : ℕ → ℕ) (top v v' : ℕ) → page_of v ≡ page_of v' → view mem 3 top v ≡ view mem 3 top v'
unfolding view
view-page mem top v v' e =
    let i0 : index 0 v ≡ index 0 v' = omega arith in
    let i1 : index 1 v ≡ index 1 v' = omega arith in
    let i2 : index 2 v ≡ index 2 v' = omega arith in
    let i3 : index 3 v ≡ index 3 v' = omega arith in rw (i0, i1, i2, i3) refl

-- A store to an entry of a lowest table.
module _ (s : Vm) (at : ℕ → Label) (tree : IsTree s at) (pml1 vaddr w : ℕ)
    (here : at pml1 ≡ some (0, place_of 0 vaddr)) where
  abbrev stored : Vm
  stored = record s { mem = λ b. if slot pml1 (index 0 vaddr) == b then w else s.mem b }

  other-table :
      (a level place i : ℕ)
      → at a ≡ some (suc level, place)
      → i < 512
      → stored.mem (slot a i) ≡ s.mem (slot a i)
  other-table a level place i h li =
      let apart =
        slot-apart (IsTree-IsTable tree a _ h) (IsTree-IsTable tree pml1 _ here) li
          (let lt : index 0 vaddr < 512 = omega arith in lt) (level-ne at h here (omega arith)) in
      ground (arith, apart)

  stored-IsTree : IsTree stored at
  stored-IsTree = record {
    small = tree.small;
    backed = tree.backed;
    child = λ a level place i h li p.
        let same = other-table a level place i h li in
        rw same (tree.child a level place i h li (rw same at p));
  }

  view-stored :
      (level table v : ℕ)
      → level ≤ 3
      → at table ≡ some (level, place_of level v)
      → page_of v ≢ page_of vaddr
      → view stored.mem level table v ≡ view s.mem level table v
  unfolding view
  view-stored zero table v le h ne = elim (ℕ_discrete table pml1) [
    | yes e ↦
        (let there : at pml1 ≡ some (0, place_of 0 v) =
            subst (λ a. at a ≡ some (0, place_of 0 v)) e h in
          let place : place_of 0 vaddr ≡ place_of 0 v = ground (arith, here, there) in
          let apart : (slot pml1 (index 0 vaddr) == slot table (index 0 v)) ≡ false = rw e (
            slot-ne pml1 (index 0 vaddr) (index 0 v) (IsTree-IsTable tree pml1 _ here) (omega arith)
              (omega arith) (λ i. ne (omega (arith, place, i)))) in
          rw apart refl)
    | no other ↦
        (let apart : (slot pml1 (index 0 vaddr) == slot table (index 0 v)) ≡ false =
            slot-apart (IsTree-IsTable tree table _ h) (IsTree-IsTable tree pml1 _ here)
              (omega arith) (omega arith) other in
          rw apart refl)
  ]
  view-stored (suc level) table v le h ne =
      let same =
        other-table table level (place_of (suc level) v) (index (suc level) v) h (omega arith) in
      rw same (elim (Bool-cases (is_present (s.mem (slot table (index (suc level) v))))) [
        | inr p ↦ rw p refl
        | inl p ↦ rw p (
            view-stored level _ v (omega arith)
              (tree.child table level (place_of (suc level) v) (index (suc level) v) h (omega arith)
                  p
                ∙ ap (λ x. some (level, x)) (sym (place_of-step level v (omega arith))))
              ne)
      ])

-- How `mappage2` ends, in terms of the map from pages to entries. At most three pages come into
-- use.
pub data Mapped (s : Vm) (top vaddr paddr flags : ℕ) : Run (ℤ × Vm) → Type 0 where
  added :
      {t : Vm} (at : ℕ → Label)
      → IsTree t at
      → at top ≡ some (3, 0)
      → view s.mem 3 top vaddr ≡ none
      → ((v : ℕ)
          → view t.mem 3 top v ≡ (
              if page_of v == page_of vaddr then some (bit_or paddr flags) else view s.mem 3 top v))
      → Takes s t 3
      → Mapped s top vaddr paddr flags (ok (pos 0, t))
  exists :
      {t : Vm} (at : ℕ → Label) (w : ℕ)
      → IsTree t at
      → at top ≡ some (3, 0)
      → view s.mem 3 top vaddr ≡ some w
      → ((v : ℕ) → view t.mem 3 top v ≡ view s.mem 3 top v)
      → Takes s t 3
      → Mapped s top vaddr paddr flags (ok (neg 22, t))
  few_pages :
      (xs : List ℕ)
      → length xs ≤ 2
      → ((q : ℕ) → q < pages_of s.pages.bitmap → used s.pages.bitmap q ≡ false → IsIn q xs)
      → Mapped s top vaddr paddr flags fault

module _ (s : Vm) (top vaddr paddr flags : ℕ) (flag : bit flags 0 ≡ 1) where
  new_view :
      (t : Vm) (pml3 pml2 pml1 : ℕ)
      → Tables t.mem top vaddr pml3 pml2 pml1
      → (v : ℕ) → page_of v ≡ page_of vaddr
      → view (λ b. if slot pml1 (index 0 vaddr) == b then bit_or paddr flags else t.mem b) 3 top v
        ≡ some (bit_or paddr flags)
  new_view t pml3 pml2 pml1 tables v e =
      let pte : ℕ = slot pml1 (index 0 vaddr) in
      let mem : ℕ → ℕ = λ b. if pte == b then bit_or paddr flags else t.mem b in
      let word : mem pte ≡ bit_or paddr flags = ground arith in
      view-page mem top v vaddr e
      ∙ view-Tables mem top vaddr pml3 pml2 pml1 (
          Tables-update t.mem top vaddr pml3 pml2 pml1 (index 0 vaddr) (bit_or paddr flags)
            (omega arith) tables)
      ∙ view-present mem pml1 vaddr (rw word (is_present-or paddr flags flag))
      ∙ ap some word

  after-Walk :
      {r : Run (ℕ × Vm)}
      → Walk s top vaddr r
      → Mapped s top vaddr paddr flags (
          and_then r (λ p. and_then (load p.0 p.1) (λ q.
            (if is_present q.0
                then pure (neg 22)
                else (store p.0 (bit_or paddr flags) >>= λ _. pure (pos 0)))
              q.1)))
  unfolding load store
  after-Walk (no_memory xs few all) = few_pages xs few all
  after-Walk (walked {t} {pml3} {pml2} {pml1} at tree root here tables same takes) =
      let pte : ℕ = slot pml1 (index 0 vaddr) in
      let low : ltb pte page_size ≡ false = slot-mapped tables.last_ok (omega arith) in
      let through = sym (same vaddr) ∙ view-Tables t.mem top vaddr pml3 pml2 pml1 tables in
      elim (Bool-cases (is_present (t.mem pte))) [
        | inl p ↦
            simp (low, p)
              (exists at (t.mem pte) tree root (through ∙ view-present t.mem pml1 vaddr p) same
                takes)
        | inr p ↦
            simp (low, p)
              (added at (stored-IsTree t at tree pml1 vaddr (bit_or paddr flags) here) root
                (through ∙ view-absent t.mem pml1 vaddr p)
                (λ v. elim (ℕ_discrete (page_of v) (page_of vaddr)) [
                  | yes e ↦ rw ((==_iff _ _).1 e) (new_view t pml3 pml2 pml1 tables v e)
                  | no ne ↦
                      (let apart : (page_of v == page_of vaddr) ≡ false = ground arith in
                        rw apart (
                          view-stored t at tree pml1 vaddr (bit_or paddr flags) here 3 top v
                            (omega arith) root ne
                          ∙ same v))
                ])
                (record { size = takes.size; keeps = takes.keeps; pages = takes.pages }))
      ]

  -- `mappage2` with the flag `PTE_PRESENT`
  pub mappage2-Mapped :
      (at : ℕ → Label)
      → IsTree s at
      → at top ≡ some (3, 0)
      → Mapped s top vaddr paddr flags (mappage2 top vaddr paddr flags s)
  unfolding mappage2
  mappage2-Mapped at tree root = after-Walk (va2pte-Walk s top vaddr at tree root)
