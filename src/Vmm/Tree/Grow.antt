-- ===== src/Vmm/Tree/Grow.antt =====
-- kernel/vmm.c: the table that `get_next_level` makes.
use franklin.Base.{
  ℕ, suc, ◌+◌, ◌*◌, ◌^◌, ◌≤◌, ◌<◌, ◌≡◌, ◌≢◌, ◌⊎◌, inl, inr, refl, sym, ◌∙◌, true, false, ◌&&◌,
  arith, ◌==◌, ltb, leb, if◌then◌else◌, bit_and, bit_or, some, Run, ok, fault, ℕ_discrete,
  Bool-cases,
}
use mathlib.Core.Path.{subst}
use franklin.Bitmap.Laws.{used}
use franklin.Pmm.{Pmm, page_size, palloc}
use franklin.Pmm.Scan.{Fits}
use franklin.Pmm.Alloc.{MarksRun, Alloc, got, none_free, palloc-Alloc}
use franklin.Vmm.{
  Vm, p2v, slot, load, store, clear, new_page, is_present, pte_addr_mask, pte_table, get_next_level,
}
use franklin.Vmm.Tree.{
  Label, page_at, IsTree, Grown, Grown-refl, page_at-IsTable, page_at-ne, IsTree-IsTable, slot-ne,
  NextLevel, next, full, entry-table, entry-present,
}
use franklin.Vmm.Remap.{Leads, slot-IsTable, slot-mapped, slot-apart, get_next_level-Leads}

module _ (s : Vm) (at : ℕ → Label) (table idx level place : ℕ) (tree : IsTree s at)
    (here : at table ≡ some (suc level, place)) (lt : idx < 512) where
  present-NextLevel :
      is_present (s.mem (slot table idx)) ≡ true
      → NextLevel s at table idx level place (get_next_level table idx true s)
  present-NextLevel p =
      let n : ℕ = p2v (bit_and (s.mem (slot table idx)) pte_addr_mask) in
      let l : Leads s.mem table idx n = record {
        table_ok = IsTree-IsTable tree table _ here;
        present = p;
        points = refl;
      } in
      rw (get_next_level-Leads s table idx n true lt l)
        (next at tree (Grown-refl s at) (tree.child table level place idx here lt p) l)

  -- A new table in page `p`, which was free.
  module _ (p : ℕ) (pages : Pmm) (fits : Fits s.pages.bitmap 1 p)
      (marks : MarksRun s.pages.bitmap p 1 true pages.bitmap)
      (absent : is_present (s.mem (slot table idx)) ≡ false) where
    abbrev cleared : ℕ → ℕ
    cleared b = if leb (page_at p) b && ltb b (page_at p + page_size) then 0 else s.mem b

    abbrev grown : Vm
    grown = record {
      mem = λ b. if slot table idx == b then bit_or (p * page_size) pte_table else cleared b;
      pages = pages;
    }

    abbrev labels : ℕ → Label
    labels a = if page_at p == a then some (level, place * 512 + idx) else at a

    p-small : p < 2 ^ 35
    p-small = omega (arith, fits.inside, tree.small)

    -- The new page is none of the tables.
    fresh : (a : ℕ) (x : ℕ × ℕ) → at a ≡ some x → page_at p ≢ a
    fresh a x h e =
        let (q, place', q-small, u) = tree.backed a x h in
        let free : used s.pages.bitmap p ≡ false = fits.free p (omega arith) (omega arith) in
        page_at-ne p q p-small (omega (arith, tree.small)) (λ same. ground (arith, same))
          (e ∙ place')

    -- Entries of the tables are outside the new page.
    outside :
        (a i : ℕ) (x : ℕ × ℕ) → at a ≡ some x → i < 512 → cleared (slot a i) ≡ s.mem (slot a i)
    outside a i x h li =
        let old = IsTree-IsTable tree a x h in
        let new = page_at-IsTable p p-small in
        let ne : page_at p ≢ a = fresh a x h in
        let page = slot-IsTable old li in ground (arith, old.aligned, new.aligned, page, ne)

    empty : (j : ℕ) → j < 512 → grown.mem (slot (page_at p) j) ≡ 0
    empty j lj =
        let new = page_at-IsTable p p-small in
        let apart = slot-apart new (IsTree-IsTable tree table _ here) lj lt (fresh table _ here) in
        let page = slot-IsTable new lj in ground (arith, new.aligned, page, apart)

    written : grown.mem (slot table idx) ≡ bit_or (p * page_size) pte_table
    written = ground arith

    points : p2v (bit_and (grown.mem (slot table idx)) pte_addr_mask) ≡ page_at p
    points = rw written (rw (entry-table p (omega (arith, p-small))) refl)

    -- An entry of a table is the one that was written, or it is as before.
    entry :
        (a i : ℕ) (x : ℕ × ℕ)
        → at a ≡ some x
        → i < 512
        → ((a ≡ table) × (i ≡ idx)) ⊎ (grown.mem (slot a i) ≡ s.mem (slot a i))
    entry a i x h li = elim (ℕ_discrete a table) [
      | no ne ↦ inr (
          let apart =
            slot-apart (IsTree-IsTable tree a x h) (IsTree-IsTable tree table _ here) li lt ne in
          ground (arith, apart, outside a i x h li))
      | yes e ↦ elim (ℕ_discrete i idx) [
        | yes e' ↦ inl (e, e')
        | no ne ↦ inr (
            let apart : (slot table idx == slot a i) ≡ false =
              rw e
                (slot-ne table idx i (IsTree-IsTable tree table _ here) lt li (λ k. ne (sym k))) in
            ground (arith, apart, outside a i x h li))
      ]
    ]

    grown-IsTree : IsTree grown labels
    grown-IsTree = record {
      small = omega (arith, tree.small, marks.size);
      backed = λ a x h. elim (ℕ_discrete (page_at p) a) [
        | yes e ↦ (p, sym e, omega (arith, fits.inside, marks.size), ground (arith, marks.bits p))
        | no ne ↦
            (let old : at a ≡ some x = ground (arith, h) in
              let (q, e, q-small, u) = tree.backed a x old in
              (q, e, omega (arith, marks.size), ground (arith, marks.bits q)))
      ];
      child = λ a level' place' i h li there. elim (ℕ_discrete (page_at p) a) [
        | yes e ↦ absurd (
            let zero_word : grown.mem (slot a i) ≡ 0 =
              subst (λ b. grown.mem (slot b i) ≡ 0) e (empty i li) in
            let none_there : is_present (grown.mem (slot a i)) ≡ false = rw zero_word refl in cc)
        | no ne ↦
            (let old : at a ≡ some (suc level', place') = ground (arith, h) in
              elim (entry a i _ old li) [
                | inl same ↦
                    (let to : p2v (bit_and (grown.mem (slot a i)) pte_addr_mask) ≡ page_at p =
                        rw (same.0, same.1) points in
                      let place_there : at table ≡ some (suc level', place') =
                        subst (λ b. at b ≡ some (suc level', place')) same.0 old in
                      rw to (ground (arith, here, place_there, same.1)))
                | inr kept ↦
                    (let was : is_present (s.mem (slot a i)) ≡ true = rw kept at there in
                      let target = tree.child a level' place' i old li was in
                      rw kept (ground (arith, target, fresh _ _ target)))
              ])
      ];
    }

    grown-Grown : Grown s at grown labels
    grown-Grown = record {
      size = marks.size;
      keeps = λ q u. ground (arith, marks.bits q, u);
      extends = λ a x h. ground (arith, h, fresh a x h);
      page = (p, λ q u. ground (arith, marks.bits q, u));
      entries = λ a level' place' i h li. elim (entry a i _ h li) [
        | inr kept ↦ inl kept
        | inl same ↦
            (let at_table : at table ≡ some (level', place') =
                subst (λ b. at b ≡ some (level', place')) same.0 h in
              inr (
                ground (arith, here, at_table),
                rw (same.0, same.1)
                    (record {
                      absent = absent;
                      leads = rw written (entry-present p);
                      empty = λ j lj. rw points (empty j lj);
                    }),
              ))
      ];
    }

    grown-NextLevel : NextLevel s at table idx level place (ok (page_at p, grown))
    grown-NextLevel = next labels grown-IsTree grown-Grown (ground arith) (record {
      table_ok = IsTree-IsTable tree table _ here;
      present = rw written (entry-present p);
      points = points;
    })

  low : (p : ℕ) → Fits s.pages.bitmap 1 p → page_size ≤ page_at p
  low p fits =
      let table_ok = page_at-IsTable p (omega (arith, fits.inside, tree.small)) in table_ok.mapped

  alloc_page :
      (p : ℕ) (pages : Pmm)
      → is_present (s.mem (slot table idx)) ≡ false
      → ltb (page_at p) page_size ≡ false
      → palloc 1 s.pages ≡ ok (p * page_size, pages)
      → get_next_level table idx true s
        ≡ ok (
          page_at p,
          record {
            mem = λ b.
                if slot table idx == b
                then bit_or (p * page_size) pte_table
                else (if leb (page_at p) b && ltb b (page_at p + page_size) then 0 else s.mem b);
            pages = pages;
          },
        )
  unfolding get_next_level load store clear new_page
  alloc_page p pages absent high e =
      simp (slot-mapped (IsTree-IsTable tree table _ here) lt, absent, e, high) refl

  no_page :
      is_present (s.mem (slot table idx)) ≡ false
      → palloc 1 s.pages ≡ fault
      → get_next_level table idx true s ≡ fault
  unfolding get_next_level load new_page
  no_page absent e = simp (slot-mapped (IsTree-IsTable tree table _ here) lt, absent, e) refl

  after_palloc :
      is_present (s.mem (slot table idx)) ≡ false
      → {r : Run (ℕ × Pmm)} → Alloc 1 s.pages r
      → palloc 1 s.pages ≡ r
      → NextLevel s at table idx level place (get_next_level table idx true s)
  after_palloc absent (got {p} {t} f marks same) e =
      let high : ltb (page_at p) page_size ≡ false = ground (arith, low p f.fits) in
      rw (alloc_page p t absent high e) (grown-NextLevel p t f.fits marks absent)
  after_palloc absent (none_free taken) e = rw (no_page absent e) (full taken)

  -- `get_next_level` that may make a table finds the table or makes an empty one in a free page;
  -- it fails only where no page is free.
  pub get_next_level-NextLevel :
      NextLevel s at table idx level place (get_next_level table idx true s)
  get_next_level-NextLevel = elim (Bool-cases (is_present (s.mem (slot table idx)))) [
    | inl p ↦ present-NextLevel p
    | inr absent ↦ after_palloc absent (palloc-Alloc 1 s.pages) refl
  ]
