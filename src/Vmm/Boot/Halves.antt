-- ===== src/Vmm/Boot/Halves.antt =====
-- kernel/vmm.c, `init_vm`: the lower half of the memory below 4 GB is mapped twice.
use franklin.Base.{
  ℕ, zero, suc, ◌+◌, ◌*◌, ◌%◌, ◌^◌, ◌≤◌, ◌≡◌, refl, ◌∙◌, inl, inr, false, true, arith, ltb, ◌==◌,
  if◌then◌else◌, List, [], ◌∷◌, length, Option, none, some, Bool-cases, ==_iff,
}
use franklin.Base.Commands.{and_then_same}
use franklin.Base.Bits.{bit}
use franklin.Pmm.{page_size}
use franklin.Vmm.{Vm, hhdm_offset, mappage2}
use franklin.Vmm.Refines.{page_of}
use franklin.Vmm.Series.{Entry, map_each, AllPresent, first, or_else}
use franklin.Vmm.Range.{range, first-range}
use franklin.Vmm.Boot.{pte_low, pte_high, map_lower}

abbrev pub both : (n i : ℕ) → List Entry
both zero i = []
both (suc n) i =
    record {
      vaddr = (page_size + i * page_size) % 2 ^ 64;
      paddr = (page_size + i * page_size) % 2 ^ 64;
      flags = pte_low;
    }
    ∷ record {
      vaddr = (page_size + hhdm_offset + i * page_size) % 2 ^ 64;
      paddr = (page_size + i * page_size) % 2 ^ 64;
      flags = pte_high;
    }
    ∷ both n (i + 1)

pub map_lower-map_each :
    (n rounds i top : ℕ) (s : Vm)
    → n ≤ rounds
    → page_size + (i + n) * page_size ≡ 0x80000000
    → map_lower rounds (page_size + i * page_size) top s ≡ map_each top (both n i) s
unfolding map_lower map_each
map_lower-map_each zero zero i top s le e =
    let stop : ltb (page_size + i * page_size) 0x80000000 ≡ false = ground arith in rw stop refl
map_lower-map_each zero (suc rounds) i top s le e =
    let stop : ltb (page_size + i * page_size) 0x80000000 ≡ false = ground arith in rw stop refl
map_lower-map_each (suc n) zero i top s le e = absurd (omega arith)
map_lower-map_each (suc n) (suc rounds) i top s le e =
    let more : ltb (page_size + i * page_size) 0x80000000 ≡ true = ground arith in
    let v : (page_size + i * page_size) % 2 ^ 64 ≡ page_size + i * page_size = omega arith in
    let high : (page_size + hhdm_offset + i * page_size) % 2 ^ 64
        ≡ (page_size + i * page_size + hhdm_offset) % 2 ^ 64 =
      omega arith in
    let next : (page_size + i * page_size + page_size) % 2 ^ 64 ≡ page_size + (i + 1) * page_size =
      omega arith in
    rw (more, v, high, next)
      (and_then_same
        (mappage2 top (page_size + i * page_size) (page_size + i * page_size) pte_low s) _ _
        (λ q.
          and_then_same
            (mappage2 top ((page_size + i * page_size + hhdm_offset) % 2 ^ 64)
              (page_size + i * page_size) pte_high q.1)
            _ _ (λ q'. map_lower-map_each n rounds (i + 1) top q'.1 (omega arith) (omega arith))))

pub length-both : (n i : ℕ) → length (both n i) ≡ 2 * n
length-both zero i = refl
length-both (suc n) i = omega (arith, length-both n (i + 1))

-- A page is in one half at most.
module _ (p a b : ℕ) (rest low high : Option ℕ) where
  interleave :
      rest ≡ or_else low high
      → (p ≡ b → low ≡ none)
      → (w u : ℕ)
      → (if p == a then some w else if p == b then some u else rest)
        ≡ or_else (if p == a then some w else low) (if p == b then some u else high)
  interleave e apart w u = elim (Bool-cases (p == a)) [
    | inl h ↦ rw h refl
    | inr h ↦ elim (Bool-cases (p == b)) [
      | inl h' ↦ (let free = apart ((==_iff _ _).0 h') in rw (h, h', free) refl)
      | inr h' ↦ rw (h, h') e
    ]
  ]

pub first-both :
    (n i v : ℕ)
    → 1 + i + n ≤ 2 ^ 19
    → first (both n i) v
      ≡ or_else
          (first (range n i page_size page_size pte_low) v)
          (first (range n i (page_size + hhdm_offset) page_size pte_high) v)
first-both zero i v h = refl
first-both (suc n) i v h =
    interleave (page_of v) (page_of ((page_size + i * page_size) % 2 ^ 64))
      (page_of ((page_size + hhdm_offset + i * page_size) % 2 ^ 64)) _ _ _
      (first-both n (i + 1) v (omega arith))
      (λ e.
        let far : 2 ^ 35 ≤ page_of v = omega (arith, e) in
        first-range n (i + 1) page_size page_size pte_low v (omega arith) ∙ ground (arith, far))
      _ _

pub both-AllPresent : (n i : ℕ) → AllPresent (both n i)
unfolding bit
both-AllPresent zero i = tt
both-AllPresent (suc n) i = (refl, (refl, both-AllPresent n (i + 1)))
