-- ===== src/Vmm/Boot/Laws.antt =====
-- kernel/vmm.c, `init_vm`: the map of the kernel.
use franklin.Base.{
  ℕ, zero, suc, ◌+◌, ◌-◌, ◌*◌, ◌/◌, ◌^◌, ◌≤◌, ◌≡◌, refl, sym, ◌∙◌, inl, inr, arith, [], ◌∷◌, ap,
  ap₂, Option, none, some, Run,
}
use mathlib.Core.Path.{subst}
use franklin.Base.Bits.{bit}
use franklin.Pmm.{page_size}
use franklin.Pmm.Scan.{Fits}
use franklin.Vmm.{Vm, hhdm_offset}
use franklin.Vmm.Tree.{Label, IsTree, NextLevel, next, full}
use franklin.Vmm.Tree.Grow.{get_next_level-NextLevel}
use franklin.Vmm.View.{view, view-Grown}
use franklin.Vmm.Refines.{full-used}
use franklin.Vmm.Series.{
  or_else, Adds, done, short, or_else-none, Scarce, Adds-then, Adds-none, Adds-weaken,
  map_each-Adds,
}
use franklin.Vmm.Range.{range_entry, range-Adds, range-entry}
use franklin.Vmm.Boot.{
  Kernel, pte_low, pte_high, physical, align_up_page, align_down_page, map_segment, map_lower,
  make_levels,
}
use franklin.Vmm.Boot.Sections.{map_segment-map_each}
use franklin.Vmm.Boot.Halves.{both, length-both, first-both, both-AllPresent, map_lower-map_each}

pub full-Scarce : (s : Vm) (n : ℕ) → ((q : ℕ) → ¬ Fits s.pages.bitmap 1 q) → Scarce s n
full-Scarce s n taken = record {
  pages =
      ([], omega arith, λ q lt free. let u = full-used s.pages.bitmap taken q lt in absurd (cc));
}

module _ (s : Vm) (at : ℕ → Label) (top i : ℕ) (tree : IsTree s at)
    (root : at top ≡ some (3, 0)) where
  NextLevel-Adds : {r : Run (ℕ × Vm)} → NextLevel s at top i 2 0 r → Adds s top 1 (λ v. none) r
  NextLevel-Adds (full taken) = short (full-Scarce s 1 taken)
  NextLevel-Adds (next {n} {t} at' tree' g label leads) =
      done at' tree' (g.extends top _ root)
        (λ v. view-Grown s at t at' tree g 3 0 top v root ∙ sym (or_else-none (view s.mem 3 top v)))
        (record {
          size = g.size;
          keeps = g.keeps;
          pages = (
            g.page.0 ∷ [],
            omega arith,
            λ q u. elim (g.page.1 q u) [ inl o ↦ inl o | inr e ↦ inr (inl e) ],
          );
        })

-- The tables of the upper half add no page.
pub make_levels-Adds :
    (left i top : ℕ) (s : Vm) (at : ℕ → Label)
    → i + left ≤ 512
    → IsTree s at
    → at top ≡ some (3, 0)
    → Adds s top left (λ v. none) (make_levels left i top s)
unfolding make_levels
make_levels-Adds zero i top s at le tree root = Adds-none s top tt at tree root
make_levels-Adds (suc left) i top s at le tree root =
    Adds-weaken (1 + left) (suc left) _ (λ v. none) (omega arith) (λ v. refl)
      (Adds-then 1 left (λ v. none) (λ v. none) (λ a. make_levels left (i + 1) top)
        (NextLevel-Adds s at top i tree root
          (get_next_level-NextLevel s at top i 2 0 tree root (omega arith)))
        (λ a t at' tree' root'. make_levels-Adds left (i + 1) top t at' (omega arith) tree' root'))

abbrev pub segment_pages : (start end_addr : ℕ) → ℕ
segment_pages start end_addr = (align_up_page end_addr - align_down_page start) / page_size

-- The entries for a segment of the kernel.
abbrev pub segment_map : Kernel → (start end_addr flags : ℕ) → ℕ → Option ℕ
segment_map k start end_addr flags =
    range_entry (segment_pages start end_addr) (align_down_page start)
      (physical k (align_down_page start)) flags

-- A segment in the upper half, below the last page.
pub record Placed (start end_addr : ℕ) : Type 0 where
  pub upper : hhdm_offset ≤ start
  pub order : start ≤ end_addr
  pub below : end_addr + page_size ≤ 2 ^ 64

pub segment-Adds :
    (rounds start end_addr flags top : ℕ) (k : Kernel) (s : Vm) (at : ℕ → Label)
    → Placed start end_addr
    → 2 ^ 52 ≤ rounds
    → bit flags 0 ≡ 1
    → IsTree s at
    → at top ≡ some (3, 0)
    → Adds s top
        (3 * segment_pages start end_addr)
        (segment_map k start end_addr flags)
        (map_segment rounds (align_down_page start) (align_up_page end_addr) k flags top s)
segment-Adds rounds start end_addr flags top k s at place enough flag tree root =
    let n : ℕ = segment_pages start end_addr in
    let first_page : align_down_page start + 0 * page_size ≡ align_down_page start = omega arith in
    let last : align_down_page start + (0 + n) * page_size ≡ align_up_page end_addr =
      omega (arith, place.order, place.below) in
    let each =
      map_segment-map_each n rounds 0 (align_down_page start) (align_up_page end_addr) flags top k s
        (omega (arith, place.below)) last (omega (arith, place.below)) in
    subst (λ (r : Run (Unit {0} × Vm)). Adds s top (3 * n) (segment_map k start end_addr flags) r)
      (sym each ∙ ap (λ a. map_segment rounds a (align_up_page end_addr) k flags top s) first_page)
      (range-Adds s top n (align_down_page start) (physical k (align_down_page start)) flags at flag
        (omega (arith, place.upper, place.order, place.below)) tree root)

-- The entries for `n` pages from the second on, in the lower half and where `P2V` leads.
abbrev pub lower_map : (n : ℕ) → ℕ → Option ℕ
lower_map n v =
    or_else (range_entry n page_size page_size pte_low v)
      (range_entry n (page_size + hhdm_offset) page_size pte_high v)

pub lower-Adds :
    (n rounds top : ℕ) (s : Vm) (at : ℕ → Label)
    → page_size + n * page_size ≡ 0x80000000
    → n ≤ rounds
    → IsTree s at
    → at top ≡ some (3, 0)
    → Adds s top (6 * n) (lower_map n) (map_lower rounds page_size top s)
lower-Adds n rounds top s at e enough tree root =
    let first_page : page_size + 0 * page_size ≡ page_size = omega arith in
    let each = map_lower-map_each n rounds 0 top s enough (omega arith) in
    subst (λ (r : Run (Unit {0} × Vm)). Adds s top (6 * n) (lower_map n) r)
      (sym each ∙ ap (λ a. map_lower rounds a top s) first_page)
      (Adds-weaken _ (6 * n) _ (lower_map n) (omega (arith, length-both n 0))
        (λ v.
          first-both n 0 v (omega arith)
          ∙ ap₂ or_else (range-entry n page_size page_size pte_low v (omega arith))
              (range-entry n (page_size + hhdm_offset) page_size pte_high v (omega arith)))
        (map_each-Adds s top (both n 0) at (both-AllPresent n 0) tree root))
