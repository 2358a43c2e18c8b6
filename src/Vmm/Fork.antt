-- ===== src/Vmm/Fork.antt =====
-- kernel/vmm.c, `newvm_map`: a new top-level table with the upper half of the kernel's.
pub mod Copy
pub mod Undo
use franklin.Base.{
  ℕ, zero, suc, ◌+◌, ◌-◌, ◌*◌, ◌/◌, ◌%◌, ◌^◌, ◌≤◌, ◌<◌, ◌≡◌, ◌≢◌, refl, sym, ◌∙◌, ap, inl, inr, ◌⊎◌,
  false, true, ◌&&◌, arith, ltb, leb, ◌==◌, if◌then◌else◌, [], ◌∷◌, length, Option, none, some,
  Bool-cases, Run, ok, fault, and_then, ℕ_discrete, bit_and, ==_iff,
}
use mathlib.Core.Path.{subst}
use franklin.Bitmap.Laws.{used, pages_of}
use franklin.Pmm.{Pmm, page_size, palloc}
use franklin.Pmm.Scan.{Fits}
use franklin.Pmm.Alloc.{MarksRun, Alloc, got, none_free, palloc-Alloc}
use franklin.Vmm.{
  Vm, slot, index, is_present, p2v, pte_addr_mask, load, store, new_page, copy_entries, newvm_map,
}
use franklin.Vmm.Tree.{
  Label, IsTree, Grown, page_at, page_at-IsTable, page_at-ne, IsTree-IsTable, slot-ne,
}
use franklin.Vmm.Remap.{IsTable, slot-mapped, slot-apart}
use franklin.Vmm.View.{view, view-Grown}
use franklin.Vmm.Refines.{Takes}
use franklin.Vmm.Fork.Copy.{Copied, copy_entries-Copied}

-- The pages that are free have no entry in their lower half.
pub record LowerClear (s : Vm) : Type 0 where
  pub clear :
      (q j : ℕ)
      → q < pages_of s.pages.bitmap
      → used s.pages.bitmap q ≡ false
      → j < 256
      → s.mem (slot (page_at q) j) ≡ 0

-- The new table stands in a page that was free, and no other page is used or freed.
pub record FreshPage (s t : Vm) (top : ℕ) : Type 0 where
  pub page : ℕ
  pub place : top ≡ page_at page
  pub inside : page < pages_of s.pages.bitmap
  pub was : used s.pages.bitmap page ≡ false
  pub now : (q : ℕ) → used t.pages.bitmap q ≡ (if q == page then true else used s.pages.bitmap q)

module _ (s : Vm) (at : ℕ → Label) (kernel_top p : ℕ) (pages : Pmm) (tree : IsTree s at)
    (root : at kernel_top ≡ some (3, 0)) (lower : LowerClear s) (fits : Fits s.pages.bitmap 1 p)
    (marks : MarksRun s.pages.bitmap p 1 true pages.bitmap) where
  abbrev labels : ℕ → Label
  labels a = if page_at p == a then some (3, 0) else at a

  p-small : p < 2 ^ 35
  p-small = omega (arith, fits.inside, tree.small)

  fresh : (a : ℕ) (x : ℕ × ℕ) → at a ≡ some x → page_at p ≢ a
  fresh a x h e =
      let (q, place, q-small, u) = tree.backed a x h in
      let free : used s.pages.bitmap p ≡ false = fits.free p (omega arith) (omega arith) in
      page_at-ne p q p-small (omega (arith, tree.small)) (λ same. ground (arith, same)) (e ∙ place)

  old_label : (a : ℕ) (x : ℕ × ℕ) → at a ≡ some x → labels a ≡ some x
  old_label a x h = ground (arith, h, fresh a x h)

  p-IsTable : IsTable (page_at p)
  p-IsTable = page_at-IsTable p p-small

  module _ (mem' : ℕ → ℕ) (c : Copied 256 256 kernel_top (page_at p) s.mem mem') where
    abbrev forked : Vm
    forked = record { mem = mem'; pages = pages }

    old_entry : (a i : ℕ) (x : ℕ × ℕ) → at a ≡ some x → i < 512 → mem' (slot a i) ≡ s.mem (slot a i)
    old_entry a i x h li = c.others (slot a i) (λ j lo hi.
        slot-apart (IsTree-IsTable tree a x h) p-IsTable li (omega arith)
          (λ e. fresh a x h (sym e)))

    low_entry : (i : ℕ) → i < 256 → mem' (slot (page_at p) i) ≡ 0
    low_entry i li =
        c.others (slot (page_at p) i)
          (λ j lo hi. slot-ne (page_at p) j i p-IsTable (omega arith) (omega arith) (omega arith))
        ∙ lower.clear p i (omega (arith, fits.inside)) (fits.free p (omega arith) (omega arith)) li

    forked-Grown : Grown s at forked labels
    forked-Grown = record {
      size = marks.size;
      keeps = λ q u. ground (arith, marks.bits q, u);
      extends = old_label;
      page = (p, λ q u. ground (arith, marks.bits q, u));
      entries = λ a level place i h li. inl (old_entry a i _ h li);
    }

    new_child :
        (level place i : ℕ)
        → labels (page_at p) ≡ some (suc level, place)
        → i < 512
        → is_present (mem' (slot (page_at p) i)) ≡ true
        → labels (p2v (bit_and (mem' (slot (page_at p) i)) pte_addr_mask))
          ≡ some (level, place * 512 + i)
    new_child level place i h li there = elim (below_or_not i) [
      | inl lt ↦ absurd (
          let none_there : is_present (mem' (slot (page_at p) i)) ≡ false =
            rw (low_entry i lt) refl in
          cc)
      | inr le ↦
          (let same = c.copied i le (omega arith) in
            let was : is_present (s.mem (slot kernel_top i)) ≡ true = rw same at there in
            let here : (page_at p == page_at p) ≡ true = (==_iff _ _).1 refl in
            let at_root : at kernel_top ≡ some (suc level, place) = root ∙ rw here at h in
            rw same (old_label _ _ (tree.child kernel_top level place i at_root li was)))
    ]
      where
        below_or_not : (n : ℕ) → (n < 256) ⊎ (256 ≤ n)
        below_or_not n = omega arith

    forked-IsTree : IsTree forked labels
    forked-IsTree = record {
      small = omega (arith, tree.small, marks.size);
      backed = λ a x h. elim (ℕ_discrete (page_at p) a) [
        | yes e ↦ (p, sym e, omega (arith, fits.inside, marks.size), ground (arith, marks.bits p))
        | no ne ↦
            (let old : at a ≡ some x = ground (arith, h) in
              let (q, e, q-small, u) = tree.backed a x old in
              (q, e, omega (arith, marks.size), ground (arith, marks.bits q, u)))
      ];
      child = λ a level place i h li there. elim (ℕ_discrete a (page_at p)) [
        | yes e ↦ rw e (
            new_child level place i (subst (λ b. labels b ≡ some (suc level, place)) e h) li
              (subst (λ b. is_present (mem' (slot b i)) ≡ true) e there))
        | no ne ↦
            (let old : at a ≡ some (suc level, place) = ground (arith, h) in
              let same = old_entry a i _ old li in
              rw same (old_label _ _ (tree.child a level place i old li (rw same at there))))
      ];
    }

    forked-view :
        (v : ℕ)
        → view mem' 3 (page_at p) v
          ≡ (if ltb (index 3 v) 256 then none else view s.mem 3 kernel_top v)
    unfolding view
    forked-view v = elim (Bool-cases (ltb (index 3 v) 256)) [
      | inl lt ↦ (let absent = low_entry (index 3 v) (ground (arith, lt)) in rw (lt, absent) refl)
      | inr ge ↦
          (let same = c.copied (index 3 v) (ground (arith, ge)) (omega arith) in
            rw (ge, same)
              (elim (Bool-cases (is_present (s.mem (slot kernel_top (index 3 v))))) [
                | inr absent ↦ rw absent refl
                | inl there ↦ rw there (
                    view-Grown s at forked labels tree forked-Grown 2 (0 * 512 + index 3 v) _ v
                      (tree.child kernel_top 2 0 (index 3 v) root (omega arith) there))
              ]))
    ]

    new_label : labels (page_at p) ≡ some (3, 0)
    new_label = ground arith

    kernel_view : (v : ℕ) → view mem' 3 kernel_top v ≡ view s.mem 3 kernel_top v
    kernel_view v = view-Grown s at forked labels tree forked-Grown 3 0 kernel_top v root

    forked-FreshPage : FreshPage s forked (page_at p)
    forked-FreshPage = record {
      page = p;
      place = refl;
      inside = omega (arith, fits.inside);
      was = fits.free p (omega arith) (omega arith);
      now = λ q. ground (arith, marks.bits q);
    }

    forked-Takes : Takes s forked 1
    forked-Takes = record {
      size = marks.size;
      keeps = λ q u. ground (arith, marks.bits q, u);
      pages = (p ∷ [], omega arith, λ q u. ground (arith, marks.bits q, u));
    }

-- How `newvm_map` ends: the new table has the upper half of the kernel's map and nothing else,
-- and the map of the kernel is as before.
pub data Forked (s : Vm) (kernel_top : ℕ) : Run (ℕ × Vm) → Type 0 where
  new_map :
      {top : ℕ} {t : Vm} (at : ℕ → Label)
      → IsTree t at
      → at top ≡ some (3, 0)
      → ((v : ℕ)
          → view t.mem 3 top v ≡ (if ltb (index 3 v) 256 then none else view s.mem 3 kernel_top v))
      → ((v : ℕ) → view t.mem 3 kernel_top v ≡ view s.mem 3 kernel_top v)
      → FreshPage s t top
      → Takes s t 1
      → Forked s kernel_top (ok (top, t))
  no_page : ((q : ℕ) → ¬ Fits s.pages.bitmap 1 q) → Forked s kernel_top fault

module _ (s : Vm) (at : ℕ → Label) (kernel_top : ℕ) (tree : IsTree s at)
    (root : at kernel_top ≡ some (3, 0)) (lower : LowerClear s) where
  after_palloc :
      {r : Run (ℕ × Pmm)}
      → Alloc 1 s.pages r
      → palloc 1 s.pages ≡ r
      → Forked s kernel_top (newvm_map kernel_top s)
  unfolding newvm_map new_page
  after_palloc (none_free taken) e = rw e (no_page taken)
  after_palloc (got {p} {t} f marks same) e =
      let (mem', e', c) =
        copy_entries-Copied kernel_top (page_at p) (IsTree-IsTable tree kernel_top _ root)
          (p-IsTable s at kernel_top p t tree root lower f.fits marks)
          (λ k. fresh s at kernel_top p t tree root lower f.fits marks kernel_top _ root (sym k))
          256 256 (record s { pages = t }) (omega arith) in
      rw e (
        rw e' (
          new_map (labels s at kernel_top p t tree root lower f.fits marks)
            (forked-IsTree s at kernel_top p t tree root lower f.fits marks mem' c)
            (new_label s at kernel_top p t tree root lower f.fits marks mem' c)
            (forked-view s at kernel_top p t tree root lower f.fits marks mem' c)
            (kernel_view s at kernel_top p t tree root lower f.fits marks mem' c)
            (forked-FreshPage s at kernel_top p t tree root lower f.fits marks mem' c)
            (forked-Takes s at kernel_top p t tree root lower f.fits marks mem' c)))

  pub newvm_map-Forked : Forked s kernel_top (newvm_map kernel_top s)
  newvm_map-Forked = after_palloc (palloc-Alloc 1 s.pages) refl
