-- ===== src/Vmm/Fork/Copy.antt =====
-- kernel/vmm.c, `newvm_map`: the loop that copies entries.
use franklin.Base.{
  ℕ, zero, suc, ◌+◌, ◌≤◌, ◌<◌, ◌≡◌, ◌≢◌, refl, ◌∙◌, false, true, arith, ◌==◌, if◌then◌else◌, ok,
  ℕ_discrete, ==_iff,
}
use franklin.Vmm.{Vm, slot, load, store, copy_entries}
use franklin.Vmm.Tree.{slot-ne}
use franklin.Vmm.Remap.{IsTable, slot-mapped, slot-apart}

-- What the copy of `left` entries from entry `i` on makes of the memory.
pub record Copied (left i from to : ℕ) (mem mem' : ℕ → ℕ) : Type 0 where
  pub copied : (j : ℕ) → i ≤ j → j < i + left → mem' (slot to j) ≡ mem (slot from j)
  pub others :
      (b : ℕ) → ((j : ℕ) → i ≤ j → j < i + left → (slot to j == b) ≡ false) → mem' b ≡ mem b

module _ (from to : ℕ) (from_ok : IsTable from) (to_ok : IsTable to) (ne : from ≢ to) where
  apart : (i j : ℕ) → i < 512 → j < 512 → (slot to j == slot from i) ≡ false
  apart i j li lj = slot-apart from_ok to_ok li lj ne

  pub copy_entries-Copied :
      (left i : ℕ) (s : Vm)
      → i + left ≤ 512
      → (mem' : ℕ → ℕ) × (copy_entries left i from to s ≡ ok (tt, record s { mem = mem' }))
        × Copied left i from to s.mem mem'
  unfolding copy_entries load store
  copy_entries-Copied zero i s le =
      (s.mem, refl, record { copied = λ j lo hi. absurd (omega arith); others = λ b h. refl })
  copy_entries-Copied (suc left) i s le =
      let mid : ℕ → ℕ = λ b. if slot to i == b then s.mem (slot from i) else s.mem b in
      let (mem', e, c) = copy_entries-Copied left (i + 1) (record s { mem = mid }) (omega arith) in
      let low = slot-mapped from_ok (let lt : i < 512 = omega arith in lt) in
      let low' = slot-mapped to_ok (let lt : i < 512 = omega arith in lt) in
      (
        mem',
        rw (low, low') e,
        record {
          copied = λ j lo hi. elim (ℕ_discrete j i) [
            | yes same ↦
                (let here : (slot to i == slot to i) ≡ true = (==_iff _ _).1 refl in
                  rw same (
                    c.others (slot to i) (λ j' lo' hi'.
                      slot-ne to j' i to_ok (omega arith) (omega arith) (omega arith))
                    ∙ rw here refl))
            | no other ↦
                (let out = apart j i (omega arith) (omega arith) in
                  c.copied j (omega arith) (omega arith) ∙ rw out refl)
          ];
          others = λ b h.
              c.others b (λ j lo hi. h j (omega arith) (omega arith))
              ∙ (let out = h i (omega arith) (omega arith) in rw out refl);
        },
      )
