-- ===== src/Vmm/Destroy/Levels.antt =====
-- kernel/vmm.c, `destroy_level` and its loop.
use franklin.Base.{
  ℕ, zero, suc, ◌+◌, ◌-◌, ◌^◌, ◌≤◌, ◌<◌, ◌≡◌, refl, sym, true, false, arith, ◌==◌, if◌then◌else◌,
  ◌⊎◌, inl, inr, ok, Bool-cases, Cmd, pure, ℕ_discrete, ◌>>=◌,
}
use mathlib.Core.Path.{subst}
use franklin.Base.Commands.{and_then_assoc}
use franklin.Pmm.{Pmm}
use franklin.Vmm.{Vm, p2v, slot, load, is_present, get_next_level, destroy_entries, destroy_level}
use franklin.Vmm.Remap.{IsTable, Leads, slot-mapped, get_next_level-Leads}
use franklin.Vmm.Tree.{page_at, page_at-IsTable}
use franklin.Vmm.Destroy.{target, Reached, itself, below, IsPage}
use franklin.Vmm.Destroy.Frees.{
  Frees, Frees-none, Frees-then, Frees-same, Frees-run, free_page-Frees,
}

page_at-null : (q : ℕ) → q < 2 ^ 35 → (page_at q == 0) ≡ false
unfolding p2v
page_at-null q h = ground arith

get_next_level-absent :
    (s : Vm) (table i : ℕ)
    → i < 512
    → IsTable table
    → is_present (s.mem (slot table i)) ≡ false
    → get_next_level table i false s ≡ ok (0, s)
unfolding get_next_level load
get_next_level-absent s table i li ok_table absent = simp (slot-mapped ok_table li, absent) refl

module _ (mem : ℕ → ℕ) (n : ℕ) (small : n ≤ 2 ^ 35) where
  -- One round of the loop.
  abbrev round : (ℕ → Cmd Vm (Unit {0})) → ℕ → ℕ → Cmd Vm (Unit {0})
  round c table i =
      get_next_level table i false >>= λ nextlevel. if nextlevel == 0 then pure tt else c nextlevel

  -- What a round frees, where `B` is what the call for the table below frees.
  abbrev Through : (ℕ → ℕ → Type 0) → (table i a : ℕ) → Type 0
  Through B table i a = (is_present (mem (slot table i)) ≡ true) × B (target mem table i) a

  round-Frees :
      (B : ℕ → ℕ → Type 0) (c : ℕ → Cmd Vm (Unit {0})) (table i : ℕ)
      → IsPage n table
      → i < 512
      → (is_present (mem (slot table i)) ≡ true
          → IsPage n (target mem table i)
            × Frees mem n (B (target mem table i)) (c (target mem table i)))
      → Frees mem n (Through B table i) (round c table i)
  round-Frees B c table i (p, e, lt) li there =
      elim (Bool-cases (is_present (mem (slot table i)))) [
        | inl there' ↦
            let ((q, place, ltq), frees) = there there' in
            let leads : Leads mem table i (target mem table i) = record {
              table_ok = rw e (page_at-IsTable p (omega arith));
              present = there';
              points = refl;
            } in
            let not_null : (target mem table i == 0) ≡ false =
              rw place (page_at-null q (omega arith)) in
            let run : (g : Pmm)
                → round c table i (record { mem = mem; pages = g })
                  ≡ c (target mem table i) (record { mem = mem; pages = g }) =
              λ g.
                rw (get_next_level-Leads (record { mem = mem; pages = g }) table i _ false li leads)
                  (rw not_null refl) in
            Frees-run _ _ _ run (Frees-same _ _ _ (λ a b. (there', b)) (λ a b. b.1) frees)
        | inr absent ↦
            let run : (g : Pmm)
                → round c table i (record { mem = mem; pages = g })
                  ≡ ok (tt, record { mem = mem; pages = g }) =
              λ g.
                rw
                  (get_next_level-absent (record { mem = mem; pages = g }) table i li
                    (rw e (page_at-IsTable p (omega arith))) absent)
                  refl in
            Frees-run _ _ (pure tt) run
              (Frees-same _ _ _ (λ a b. absurd b) (λ a b. (let on = b.0 in cc)) Frees-none)
      ]

  -- What is behind the entries from `lo` to `hi`.
  abbrev Among : (ℕ → ℕ → Type 0) → (table lo hi a : ℕ) → Type 0
  Among B table lo hi a = (i : ℕ) × (lo ≤ i) × (i < hi) × Through B table i a

  entries-Frees :
      (B : ℕ → ℕ → Type 0) (c : ℕ → Cmd Vm (Unit {0})) (table : ℕ)
      → IsPage n table
      → (left lo : ℕ) → lo + left ≤ 512
      → ((i : ℕ)
          → lo ≤ i
          → i < lo + left
          → is_present (mem (slot table i)) ≡ true
          → IsPage n (target mem table i)
            × Frees mem n (B (target mem table i)) (c (target mem table i)))
      → Frees mem n (Among B table lo (lo + left)) (destroy_entries c left lo table)
  unfolding destroy_entries
  entries-Frees B c table page zero lo h there =
      Frees-same (λ _. ⊥) (Among B table lo (lo + 0)) (pure tt) (λ a b. absurd b)
        (λ a (i, le, lt, b). omega arith) Frees-none
  entries-Frees B c table page (suc left) lo h there =
      let one =
        round-Frees B c table lo page (omega arith) (λ p. there lo (omega arith) (omega arith) p) in
      let rest =
        entries-Frees B c table page left (lo + 1) (omega arith)
          (λ i le lt p. there i (omega arith) (omega arith) p) in
      let both =
        Frees-same _ (Among B table lo (lo + suc left)) _
          (λ a p. elim p [
            | inl b ↦ (lo, omega arith, omega arith, b)
            | inr (i, le, lt, b) ↦ (i, omega arith, omega arith, b)
          ])
          (λ a (i, le, lt, b). elim (ℕ_discrete i lo) [
            | yes e ↦ inl (subst (λ j. Through B table j a) e b)
            | no ne ↦ inr (i, omega arith, omega arith, b)
          ])
          (Frees-then _ _ _ _ one rest) in
      Frees-run _ _ _
        (λ g.
          sym
            (and_then_assoc (get_next_level table lo false (record { mem = mem; pages = g })) _ _))
        both

  pub level-Frees :
      (level table lo hi : ℕ)
      → lo ≤ hi
      → hi ≤ 512
      → ((a : ℕ) → Reached mem a level table lo hi → IsPage n a)
      → Frees mem n (λ a. Reached mem a level table lo hi) (destroy_level level table lo hi)
  unfolding destroy_level
  level-Frees zero table lo hi le lt pages =
      Frees-same _ _ _ (λ a e. itself e) (λ a r. here r)
        (free_page-Frees table small (pages table (itself refl)))
    where
      here : {a : ℕ} → Reached mem a 0 table lo hi → a ≡ table
      here (itself e) = e
  level-Frees (suc level) table lo hi le lt pages =
      let B : ℕ → ℕ → Type 0 = λ next a. Reached mem a level next 0 512 in
      let page = pages table (itself refl) in
      let all =
        entries-Frees B (λ next. destroy_level level next 0 512) table page (hi - lo) lo
          (omega arith)
          (λ i ge under there. (
            pages _ (below i ge (omega arith) there (itself refl)),
            level-Frees level (target mem table i) 0 512 (omega arith) (omega arith)
                (λ a r. pages a (below i ge (omega arith) there r)),
          )) in
      Frees-same _ _ _
        (λ a p. elim p [
          | inl (i, ge, under, (there, r)) ↦ below i ge (omega arith) there r
          | inr e ↦ itself e
        ])
        (λ a r. apart r) (Frees-then _ _ _ _ all (free_page-Frees table small page))
    where
      apart :
          {a : ℕ}
          → Reached mem a (suc level) table lo hi
          → Among (λ next a. Reached mem a level next 0 512) table lo (lo + (hi - lo)) a
            ⊎ (a ≡ table)
      apart (itself e) = inr e
      apart (below i ge under there r) = inl (i, ge, omega arith, (there, r))
