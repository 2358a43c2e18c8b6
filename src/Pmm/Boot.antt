-- ===== src/Pmm/Boot.antt =====
-- kernel/pmm.c, `initbmap`: which pages are free when it is done.
use franklin.Base.{
  ℕ, zero, suc, ◌+◌, ◌-◌, ◌*◌, ◌/◌, ◌≡◌, ◌∙◌, Bool, false, ◌&&◌, ◌||◌, not, arith, ◌==◌, ltb, List,
  none, and_then, [], ◌∷◌, length, replicate, length-replicate, some, ok, Bool-cases, Option-cases,
  inl, inr,
}
use franklin.Base.Commands.{and_then-ok}
use franklin.Text.{Buffer}
use franklin.Bitmap.{bitmap_reset}
use franklin.Bitmap.Laws.{used, pages_of, bitmap_reset-ok, used-replicate}
use franklin.Pmm.{page_size, Entry, highest, place, free_area, free_areas, initbmap}
use franklin.Pmm.Alloc.{in_run, MarksRun, MarksRun-suc, MarksRun-zero}
use mathlib.Core.Path.{subst}

-- The number of pages that an area reaches into, counted from the page of its base.
abbrev pages_in : Entry → ℕ
pages_in e = (e.len + (page_size - 1)) / page_size

-- Whether a usable area reaches into page `j`.
abbrev pub is_usable : List Entry → ℕ → Bool
is_usable [] j = false
is_usable (e ∷ es) j = (e.kind == 0 && in_run (e.base / page_size) (pages_in e) j) || is_usable es j

free_area-MarksRun :
    (left base k : ℕ) (bm bm' : Buffer)
    → free_area left base (k * page_size) bm ≡ ok bm'
    → MarksRun bm (base / page_size + k) left false bm'
unfolding free_area
free_area-MarksRun zero base k bm bm' e =
    let same : bm ≡ bm' = ground (arith, e) in
    subst (MarksRun bm (base / page_size + k) 0 false) same
      (MarksRun-zero bm (base / page_size + k) false)
free_area-MarksRun (suc left) base k bm bm' e =
    let (mid, e1, e2) =
      and_then-ok (bitmap_reset bm ((base + k * page_size) / page_size))
        (free_area left base (k * page_size + page_size)) bm' e in
    let page : (base + k * page_size) / page_size ≡ base / page_size + k = omega arith in
    let later : k * page_size + page_size ≡ (k + 1) * page_size = omega arith in
    let after : base / page_size + (k + 1) ≡ base / page_size + k + 1 = omega arith in
    MarksRun-suc (bitmap_reset-ok bm mid (base / page_size + k) (rw page at e1))
      (rw after at (free_area-MarksRun left base (k + 1) mid bm' (rw later at e2)))

-- What freeing the usable areas makes of a bitmap.
record Frees (es : List Entry) (bm bm' : Buffer) : Type 0 where
  size : length bm' ≡ length bm
  bits : (j : ℕ) → used bm' j ≡ (used bm j && not (is_usable es j))

free_areas-Frees : (es : List Entry) (bm bm' : Buffer) → free_areas es bm ≡ ok bm' → Frees es bm bm'
unfolding free_areas
free_areas-Frees [] bm bm' e = record { size = ground (arith, e); bits = λ j. ground (arith, e) }
free_areas-Frees (e ∷ es) bm bm' h = elim (Bool-cases (e.kind == 0)) [
  | inl usable ↦
      (let (mid, e1, e2) =
          and_then-ok (free_area (pages_in e) e.base 0 bm) (free_areas es) bm' (rw usable at h) in
        let m = free_area-MarksRun (pages_in e) e.base 0 bm mid e1 in
        let f = free_areas-Frees es mid bm' e2 in
        record { size = f.size ∙ m.size; bits = λ j. ground (arith, f.bits j, m.bits j) })
  | inr other ↦
      (let f = free_areas-Frees es bm bm' (rw other at h) in
        record { size = f.size; bits = λ j. ground (arith, f.bits j) })
]

-- When `initbmap` is done and has found room for the bitmap, a page is marked as free exactly if
-- the bitmap describes it and some usable area of the memory map reaches into it, where the map
-- is the one that is left after the front of an area has been taken for the bitmap.
pub initbmap-frees :
    (memmap : List Entry) (bm : Buffer)
    → initbmap memmap ≡ ok (some bm)
    → (es : List Entry) × (place (length bm) memmap ≡ some es)
      × (length bm ≡ highest memmap 0 / page_size / 8)
      × ((j : ℕ) → used bm j ≡ (ltb j (pages_of bm) && not (is_usable es j)))
unfolding initbmap
initbmap-frees memmap bm e = elim (Option-cases (place size memmap)) [
  | inl no_room ↦
      (let h : and_then (free_areas memmap []) (λ b. ok none) ≡ ok (some bm) =
          rw (no_room, initbmap) at e in
        let (b, e1, e2) = and_then-ok (free_areas memmap []) (λ b. ok none) (some bm) h in
        absurd cc)
  | inr found ↦
      (let (es, at') = found in
        let h : and_then (free_areas es (replicate size 0xff)) (λ b. ok (some b)) ≡ ok (some bm) =
          rw (at', initbmap) at e in
        let (b, e1, e2) =
          and_then-ok (free_areas es (replicate size 0xff)) (λ b. ok (some b)) (some bm) h in
        let same : b ≡ bm = ground arith in
        let f = free_areas-Frees es (replicate size 0xff) bm (rw same at e1) in
        let whole : length bm ≡ size = f.size ∙ length-replicate size 0xff in
        (es, rw whole at', whole, λ j. ground (arith, f.bits j, used-replicate size j)))
]
  where
    size : ℕ
    size = highest memmap 0 / page_size / 8
