-- ===== src/Vmm/Range.antt =====
-- kernel/vmm.c, `mappages`: the map from pages to entries gets a range of pages.
use franklin.Base.{
  ℕ, zero, suc, ◌+◌, ◌-◌, ◌*◌, ◌/◌, ◌%◌, ◌^◌, ◌≤◌, ◌<◌, ◌≡◌, refl, ap, ◌∙◌, true, false, ◌&&◌,
  arith, ◌==◌, ltb, leb, if◌then◌else◌, ◌⊎◌, bit_or, Option, none, some, ℤ, pos, Run, ok, fault,
  Bool-cases, ℕ_discrete, and_then, inl, inr, List, [], ◌∷◌, length,
}
use franklin.Base.Bits.{bit}
use franklin.Base.Commands.{and_then_same}
use franklin.Pmm.{page_size}
use franklin.Vmm.{Vm, mappage2, map_from, mappages}
use franklin.Vmm.Tree.{Label, IsTree}
use franklin.Vmm.View.{view}
use franklin.Vmm.Refines.{page_of, Takes}
use franklin.Vmm.Series.{
  Entry, map_each, first, or_else, AllPresent, Scarce, Adds, done, short, Adds-weaken,
  map_each-Adds,
}

-- The pages that `map_from` maps.
abbrev pub range : (left i vaddr paddr flags : ℕ) → List Entry
range zero i vaddr paddr flags = []
range (suc left) i vaddr paddr flags =
    record {
      vaddr = (vaddr + i * page_size) % 2 ^ 64;
      paddr = (paddr + i * page_size) % 2 ^ 64;
      flags = flags;
    }
    ∷ range left (i + 1) vaddr paddr flags

-- What a range of `n` pages has for an address.
abbrev pub range_entry : (n vaddr paddr flags : ℕ) → ℕ → Option ℕ
range_entry n vaddr paddr flags v =
    if leb (page_of vaddr) (page_of v) && ltb (page_of v) (page_of vaddr + n)
    then some (bit_or ((paddr + (page_of v - page_of vaddr) * page_size) % 2 ^ 64) flags)
    else none

-- The entry of page `k` of a range.
pub range_entry-get :
    (n vaddr paddr flags v k : ℕ)
    → page_of v ≡ page_of vaddr + k
    → k < n
    → range_entry n vaddr paddr flags v ≡ some (bit_or ((paddr + k * page_size) % 2 ^ 64) flags)
range_entry-get n vaddr paddr flags v k e lt =
    let low : leb (page_of vaddr) (page_of vaddr + k) ≡ true = ground arith in
    let high : ltb (page_of vaddr + k) (page_of vaddr + n) ≡ true = ground arith in
    let less : page_of vaddr + k - page_of vaddr ≡ k = omega arith in rw (e, low, high, less) refl

pub range_entry-outside :
    (n vaddr paddr flags v : ℕ)
    → ¬ ((page_of vaddr ≤ page_of v) × (page_of v < page_of vaddr + n))
    → range_entry n vaddr paddr flags v ≡ none
range_entry-outside n vaddr paddr flags v h = elim (where_is (page_of vaddr) (page_of v) n) [
  | inl lt ↦ (let low : leb (page_of vaddr) (page_of v) ≡ false = ground (arith, lt) in rw low refl)
  | inr (inl le) ↦
      (let high : ltb (page_of v) (page_of vaddr + n) ≡ false = ground (arith, le) in
        elim (Bool-cases (leb (page_of vaddr) (page_of v))) [
          | inl p ↦ rw (p, high) refl
          | inr p ↦ rw p refl
        ])
  | inr (inr both) ↦ absurd (h both)
]
  where
    where_is : (b p n : ℕ) → (p < b) ⊎ ((b + n ≤ p) ⊎ ((b ≤ p) × (p < b + n)))
    where_is b p n = omega arith

map_from-map_each :
    (left i top vaddr paddr flags : ℕ) (s : Vm)
    → map_from left i top vaddr paddr flags s ≡ map_each top (range left i vaddr paddr flags) s
unfolding map_from map_each
map_from-map_each zero i top vaddr paddr flags s = refl
map_from-map_each (suc left) i top vaddr paddr flags s =
    and_then_same
      (mappage2 top ((vaddr + i * page_size) % 2 ^ 64) ((paddr + i * page_size) % 2 ^ 64) flags s) _
      _ (λ p. map_from-map_each left (i + 1) top vaddr paddr flags p.1)

pub length-range : (left i vaddr paddr flags : ℕ) → length (range left i vaddr paddr flags) ≡ left
length-range zero i vaddr paddr flags = refl
length-range (suc left) i vaddr paddr flags = ap suc (length-range left (i + 1) vaddr paddr flags)

pub range-AllPresent :
    (left i vaddr paddr flags : ℕ) → bit flags 0 ≡ 1 → AllPresent (range left i vaddr paddr flags)
range-AllPresent zero i vaddr paddr flags h = tt
range-AllPresent (suc left) i vaddr paddr flags h =
    (h, range-AllPresent left (i + 1) vaddr paddr flags h)

page_of-step :
    (vaddr i : ℕ)
    → page_of vaddr + i < 2 ^ 36
    → page_of ((vaddr + i * page_size) % 2 ^ 64) ≡ page_of vaddr + i
page_of-step vaddr i h = omega arith

within-step :
    (p b i left : ℕ) (x y : Option ℕ)
    → (p ≡ b + i → x ≡ y)
    → (if p == b + i
        then x
        else if leb (b + (i + 1)) p && ltb p (b + (i + 1) + left)
        then y
        else none)
      ≡ (if leb (b + i) p && ltb p (b + i + suc left) then y else none)
within-step p b i left x y h = elim (ℕ_discrete p (b + i)) [
  | yes e ↦ (let same = h e in ground (arith, e, same))
  | no ne ↦ ground (arith, ne)
]

pub first-range :
    (left i vaddr paddr flags v : ℕ)
    → page_of vaddr + i + left ≤ 2 ^ 36
    → first (range left i vaddr paddr flags) v ≡ (
        if leb (page_of vaddr + i) (page_of v) && ltb (page_of v) (page_of vaddr + i + left)
        then some (bit_or ((paddr + (page_of v - page_of vaddr) * page_size) % 2 ^ 64) flags)
        else none)
first-range zero i vaddr paddr flags v h = ground arith
first-range (suc left) i vaddr paddr flags v h =
    let here = page_of-step vaddr i (omega arith) in
    let rest = first-range left (i + 1) vaddr paddr flags v (omega arith) in
    rw (here, rest)
      (within-step (page_of v) (page_of vaddr) i left
        (some (bit_or ((paddr + i * page_size) % 2 ^ 64) flags))
        (some (bit_or ((paddr + (page_of v - page_of vaddr) * page_size) % 2 ^ 64) flags))
        (λ e. let same : page_of v - page_of vaddr ≡ i = omega (arith, e) in rw same refl))

pub range-entry :
    (n vaddr paddr flags v : ℕ)
    → page_of vaddr + n ≤ 2 ^ 36
    → first (range n 0 vaddr paddr flags) v ≡ range_entry n vaddr paddr flags v
range-entry n vaddr paddr flags v h =
    let start : page_of vaddr + 0 ≡ page_of vaddr = omega arith in
    first-range n 0 vaddr paddr flags v (omega arith) ∙ rw start refl

-- How `mappages` ends for `n` pages: a page that was not mapped gets its entry of the range.
pub data Ranged (s : Vm) (top n vaddr paddr flags : ℕ) : Run (ℤ × Vm) → Type 0 where
  all_mapped :
      {t : Vm} (at : ℕ → Label)
      → IsTree t at
      → at top ≡ some (3, 0)
      → ((v : ℕ)
          → view t.mem 3 top v ≡ or_else (view s.mem 3 top v) (range_entry n vaddr paddr flags v))
      → Takes s t (3 * n)
      → Ranged s top n vaddr paddr flags (ok (pos 0, t))
  too_few : Scarce s (3 * n) → Ranged s top n vaddr paddr flags fault

-- Calls for a range of `n` pages.
pub range-Adds :
    (s : Vm) (top n vaddr paddr flags : ℕ) (at : ℕ → Label)
    → bit flags 0 ≡ 1
    → page_of vaddr + n ≤ 2 ^ 36
    → IsTree s at
    → at top ≡ some (3, 0)
    → Adds s top
        (3 * n)
        (range_entry n vaddr paddr flags)
        (map_each top (range n 0 vaddr paddr flags) s)
range-Adds s top n vaddr paddr flags at flag small tree root =
    Adds-weaken _ (3 * n) _ (range_entry n vaddr paddr flags)
      (omega (arith, length-range n 0 vaddr paddr flags))
      (λ v. range-entry n vaddr paddr flags v small)
      (map_each-Adds s top (range n 0 vaddr paddr flags) at
        (range-AllPresent n 0 vaddr paddr flags flag) tree root)

Adds-Ranged :
    (s : Vm) (top n vaddr paddr flags : ℕ) {r : Run (Unit {0} × Vm)}
    → Adds s top (3 * n) (range_entry n vaddr paddr flags) r
    → Ranged s top n vaddr paddr flags (and_then r (λ p. ok (pos 0, p.1)))
Adds-Ranged s top n vaddr paddr flags (short few) = too_few few
Adds-Ranged s top n vaddr paddr flags (done at tree root same takes) =
    all_mapped at tree root same takes

-- `mappages` with the flag `PTE_PRESENT`.
pub mappages-Ranged :
    (s : Vm) (top vaddr paddr size flags : ℕ) (at : ℕ → Label)
    → bit flags 0 ≡ 1
    → page_of vaddr + size / page_size ≤ 2 ^ 36
    → IsTree s at
    → at top ≡ some (3, 0)
    → Ranged s top (size / page_size) vaddr paddr flags (mappages top vaddr paddr size flags s)
unfolding mappages
mappages-Ranged s top vaddr paddr size flags at flag small tree root =
    rw (map_from-map_each (size / page_size) 0 top vaddr paddr flags s) (
      Adds-Ranged s top (size / page_size) vaddr paddr flags
        (range-Adds s top (size / page_size) vaddr paddr flags at flag small tree root))
