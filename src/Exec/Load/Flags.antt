-- ===== src/Exec/Load/Flags.antt =====
-- kernel/proc.c, `loadelf`: the flags of a segment, and the entry for one of its pages.
use franklin.Base.{
  ℕ, ◌+◌, ◌-◌, ◌*◌, ◌^◌, ◌<◌, ◌≡◌, refl, ◌⊎◌, inl, inr, ◌∙◌, arith, ◌==◌, Bool-cases, bit_and,
  bit_or,
}
use franklin.Base.Bits.{bit}
use franklin.Base.Bits.Masks.{bit_and-bit_or, bit_or_zero, bit_and-high, bit_and-low}
use franklin.Pmm.{page_size}
use franklin.Vmm.{pte_addr_mask}
use franklin.Exec.Load.{segment_flags}

flags_cases :
    (p_flags : ℕ)
    → ((segment_flags p_flags ≡ 5) ⊎ (segment_flags p_flags ≡ 7))
      ⊎ ((segment_flags p_flags ≡ 2 ^ 63 + 5) ⊎ (segment_flags p_flags ≡ 2 ^ 63 + 7))
unfolding segment_flags
flags_cases p_flags = elim (Bool-cases (bit_and p_flags 2 == 0)) [
  | inl w ↦ elim (Bool-cases (bit_and p_flags 1 == 0)) [
    | inl x ↦ inr (inl (rw (w, x) refl))
    | inr x ↦ inl (inl (rw (w, x) refl))
  ]
  | inr w ↦ elim (Bool-cases (bit_and p_flags 1 == 0)) [
    | inl x ↦ inr (inr (rw (w, x) refl))
    | inr x ↦ inl (inr (rw (w, x) refl))
  ]
]

pub segment_flags-present : (p_flags : ℕ) → bit (segment_flags p_flags) 0 ≡ 1
unfolding bit
segment_flags-present p_flags = elim (flags_cases p_flags) [
  | inl h ↦ elim h [ inl e ↦ rw e refl | inr e ↦ rw e refl ]
  | inr h ↦ elim h [ inl e ↦ rw e refl | inr e ↦ rw e refl ]
]

flags_masked : (p_flags : ℕ) → bit_and (segment_flags p_flags) pte_addr_mask ≡ 0
flags_masked p_flags = elim (flags_cases p_flags) [
  | inl h ↦ elim h [ inl e ↦ rw e refl | inr e ↦ rw e refl ]
  | inr h ↦ elim h [ inl e ↦ rw e refl | inr e ↦ rw e refl ]
]

-- The address in the entry for page `p`.
pub entry_address :
    (p p_flags : ℕ)
    → p < 2 ^ 40
    → bit_and (bit_or (p * page_size) (segment_flags p_flags)) pte_addr_mask ≡ p * page_size
entry_address p p_flags h =
    let plain : p * page_size + 0 ≡ p * page_size = omega arith in
    let page : bit_and (p * page_size) pte_addr_mask ≡ p * page_size =
      rw plain at (bit_and-high 12 p 0 (2 ^ 40 - 1) (omega arith)) ∙ rw (bit_and-low 40 p h) refl in
    rw
      (
        bit_and-bit_or (p * page_size) (segment_flags p_flags) pte_addr_mask,
        flags_masked p_flags,
        page,
      )
      (bit_or_zero (p * page_size))
