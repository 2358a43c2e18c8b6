-- ===== src/Vmm/View.antt =====
-- kernel/vmm.c: the page tables as a finite map from pages to entries.
use franklin.Base.{
  ℕ, zero, suc, ◌+◌, ◌*◌, ◌<◌, ◌≡◌, inl, inr, refl, arith, if◌then◌else◌, bit_and, Option, none,
  some, Bool-cases,
}
use franklin.Vmm.{Vm, p2v, slot, index, is_present, pte_addr_mask}
use franklin.Vmm.Tree.{Label, IsTree, Grown}

-- The entry for the page of an address below a table of a level, if it is present: what the
-- processor finds.
unfoldable pub view : (ℕ → ℕ) → ℕ → ℕ → ℕ → Option ℕ
view mem zero table vaddr =
    let w = mem (slot table (index 0 vaddr)) in if is_present w then some w else none
view mem (suc level) table vaddr =
    let w = mem (slot table (index (suc level) vaddr)) in
    let below = view mem level (p2v (bit_and w pte_addr_mask)) vaddr in
    if is_present w then below else none

-- A table with no entry.
pub view-empty :
    (mem : ℕ → ℕ) (level table vaddr : ℕ)
    → ((j : ℕ) → j < 512 → mem (slot table j) ≡ 0)
    → view mem level table vaddr ≡ none
unfolding view
view-empty mem zero table vaddr h = rw (h (index 0 vaddr) (omega arith)) refl
view-empty mem (suc level) table vaddr h = rw (h (index (suc level) vaddr) (omega arith)) refl

index-lt : (level vaddr : ℕ) → index level vaddr < 512
index-lt level vaddr = omega arith

-- Empty tables change nothing that an address leads to.
pub view-Grown :
    (s : Vm) (at : ℕ → Label) (t : Vm) (at' : ℕ → Label)
    → IsTree s at
    → Grown s at t at'
    → (level place table vaddr : ℕ) → at table ≡ some (level, place)
    → view t.mem level table vaddr ≡ view s.mem level table vaddr
unfolding view
view-Grown s at t at' tree g zero place table vaddr h =
    elim (g.entries table zero place (index 0 vaddr) h (omega arith)) [
      | inl same ↦ rw same refl
      | inr new ↦ absurd (omega (arith, new.0))
    ]
view-Grown s at t at' tree g (suc level) place table vaddr h =
    elim (g.entries table (suc level) place (index (suc level) vaddr) h (omega arith)) [
      | inl same ↦
          rw same (elim (Bool-cases (is_present (s.mem (slot table (index (suc level) vaddr))))) [
            | inl p ↦ rw p (
                view-Grown s at t at' tree g level (place * 512 + index (suc level) vaddr) _ vaddr
                  (tree.child table level place (index (suc level) vaddr) h (omega arith) p))
            | inr p ↦ rw p refl
          ])
      | inr new ↦ rw (new.1.leads, new.1.absent) (view-empty t.mem level _ vaddr new.1.empty)
    ]
