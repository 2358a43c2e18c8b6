-- ===== src/Pmm/Free.antt =====
-- kernel/pmm.c, `freepg` and `pallocaddr`.
use franklin.Base.{
  ℕ, zero, suc, ◌+◌, ◌*◌, ◌/◌, ◌%◌, ◌^◌, ◌≤◌, ◌<◌, ◌≡◌, refl, ◌∙◌, true, false, arith,
  if◌then◌else◌, length, Run, ok, fault, stuck, dec_lt, lt→ltb, Bool-cases, inl, inr,
}
use franklin.Text.{Buffer, ◌>>=◌}
use franklin.Bitmap.Laws.{
  used, pages_of, Marks, bitmap_test-used, bitmap_test-fault, bitmap_set-Marks, bitmap_reset-Marks,
}
use franklin.Pmm.{Pmm, page_size, reset_run, palloc, freepg, panic, claim_run, pallocaddr}
use franklin.Pmm.Scan.{Fits, FirstFit}
use franklin.Pmm.Alloc.{MarksRun, MarksRun-suc, MarksRun-zero, Alloc, got, none_free, palloc-Alloc}
use mathlib.Core.Path.{subst}

-- What freeing a run leaves: the pages are free, all others as before, and `g` is unchanged
-- unless a page of the run was free already.
pub record FreesRun (bm : Buffer) (g i n : ℕ) (r : Buffer × ℕ) : Type 0 where
  pub marks : MarksRun bm i n false r.0
  pub quiet : ((j : ℕ) → i ≤ j → j < i + n → used bm j ≡ true) → r.1 ≡ g

FreesRun-suc :
    {bm mid : Buffer} {g i n : ℕ} {r : Buffer × ℕ}
    → Marks bm i false mid
    → FreesRun mid (if used bm i then g else 69) (i + 1) n r
    → FreesRun bm g i (suc n) r
FreesRun-suc {bm} {mid} {g} {i} one rest = record {
  marks = MarksRun-suc one rest.marks;
  quiet = λ all. rest.quiet (λ j le lt. ground (arith, one.bits j, all j)) ∙ ground (arith, all i);
}

reset_run-FreesRun :
    (n i : ℕ) (bm : Buffer) (g : ℕ)
    → i + n ≤ pages_of bm
    → (r : Buffer × ℕ) × (reset_run n i bm g ≡ ok r) × FreesRun bm g i n r
unfolding reset_run
reset_run-FreesRun zero i bm g h =
    ((bm, g), refl, record { marks = MarksRun-zero bm i false; quiet = λ all. refl })
reset_run-FreesRun (suc n) i bm g h =
    let (mid, e, one) = bitmap_reset-Marks bm i (omega arith) in
    let (r, e', rest) =
      reset_run-FreesRun n (i + 1) mid (if used bm i then g else 69) (omega (arith, one.size)) in
    (r, rw (bitmap_test-used bm i (omega arith), e) e', FreesRun-suc one rest)

-- `freepg` of `n` pages inside the bitmap, fewer than 2 ^ 32, marks exactly these as free.
pub freepg-MarksRun :
    (p n : ℕ) (s : Pmm)
    → n < 2 ^ 32
    → p + n ≤ pages_of s.bitmap
    → (t : Pmm) × (freepg (p * page_size) n s ≡ ok t)
      × MarksRun s.bitmap p n false t.bitmap
      × (((j : ℕ) → p ≤ j → j < p + n → used s.bitmap j ≡ true) → t.g ≡ s.g)
unfolding freepg
freepg-MarksRun p n s fits h =
    let page : p * page_size / page_size ≡ p = omega arith in
    let (r, e, f) = reset_run-FreesRun n p s.bitmap s.g h in
    let count : n % 2 ^ 32 ≡ n = omega arith in
    (record s { bitmap = r.0; g = r.1 }, rw (page, count) (rw e), f.marks, f.quiet)

-- What a successful `palloc` tells about its result.
pub record Got (n : ℕ) (s : Pmm) (a : ℕ) (t : Pmm) : Type 0 where
  pub page : ℕ
  pub address : a ≡ page * page_size
  pub first : FirstFit s.bitmap n page
  pub marks : MarksRun s.bitmap page n true t.bitmap

pub Alloc-ok :
    {n : ℕ} {s : Pmm} {r : Run (ℕ × Pmm)} (a : ℕ) (t : Pmm)
    → Alloc n s r
    → r ≡ ok (a, t)
    → Got n s a t
Alloc-ok {n} {s} a t (got {p} {t = t'} f m same) e = record {
  page = p;
  address = ground arith;
  first = f;
  marks = (let eq : t'.bitmap ≡ t.bitmap = ground arith in subst (MarksRun s.bitmap p n true) eq m);
}
Alloc-ok a t (none_free none) e = cc

-- `freepg` of the pages that `palloc` has returned, fewer than 2 ^ 32, succeeds, and marks each
-- page as it was marked before the allocation. The debugging counter stays as it is.
pub freepg-palloc :
    (n : ℕ) (s t : Pmm) (a : ℕ)
    → n < 2 ^ 32
    → palloc n s ≡ ok (a, t)
    → (u : Pmm) × (freepg a n t ≡ ok u)
      × (length u.bitmap ≡ length s.bitmap)
      × (u.g ≡ t.g)
      × ((j : ℕ) → used u.bitmap j ≡ used s.bitmap j)
freepg-palloc n s t a few e =
    let g = Alloc-ok a t (palloc-Alloc n s) e in
    let (u, e', m, quiet) =
      freepg-MarksRun g.page n t few (omega (arith, g.first.fits.inside, g.marks.size)) in
    (
      u,
      rw g.address e',
      m.size ∙ g.marks.size,
      quiet (λ j le lt. ground (arith, g.marks.bits j)),
      λ j. ground (arith, g.marks.bits j, m.bits j, g.first.fits.free j),
    )

-- How the loop of `pallocaddr` ends, run with the global lock held.
data Claim (i n : ℕ) (s : Pmm) : Run Pmm → Type 0 where
  claimed :
      {t : Pmm}
      → Fits s.bitmap n i
      → MarksRun s.bitmap i n true t.bitmap
      → t.g ≡ s.g
      → Claim i n s (ok t)
  busy :
      (j : ℕ)
      → i ≤ j
      → j < i + n
      → j < pages_of s.bitmap
      → used s.bitmap j ≡ true
      → Claim i n s stuck
  outside : pages_of s.bitmap < i + n → Claim i n s fault

Claim-later :
    {i n : ℕ} {s : Pmm} {mid : Buffer} {r : Run Pmm}
    → i < pages_of s.bitmap
    → used s.bitmap i ≡ false
    → Marks s.bitmap i true mid
    → Claim (i + 1) n (record s { bitmap = mid }) r
    → Claim i (suc n) s r
Claim-later {i} {n} {s} {mid} lt e one (claimed f m g) =
    claimed
      (record {
        inside = omega (arith, f.inside, one.size);
        free = λ j le h. ground (arith, f.free j, one.bits j);
      })
      (MarksRun-suc one m) g
Claim-later lt e one (busy j a b c u) =
    busy j (omega arith) (omega arith) (omega (arith, one.size)) (ground (arith, one.bits j))
Claim-later lt e one (outside h) = outside (omega (arith, one.size))

claim_run-Claim :
    (n i : ℕ) (s : Pmm) → i ≤ pages_of s.bitmap → s.spinlock ≡ true → Claim i n s (claim_run n i s)
unfolding claim_run panic
claim_run-Claim zero i s h held =
    claimed (record { inside = omega arith; free = λ j a b. absurd (omega arith) })
      (MarksRun-zero s.bitmap i true) refl
claim_run-Claim (suc n) i s h held = elim (dec_lt i (pages_of s.bitmap)) [
  | yes lt ↦ rw (bitmap_test-used s.bitmap i lt) (elim (Bool-cases (used s.bitmap i)) [
    | inl u ↦ rw u (rw held (busy i (omega arith) (omega arith) lt u))
    | inr u ↦
        (let (mid, e, one) = bitmap_set-Marks s.bitmap i lt in
          rw u (
            rw e (
              Claim-later lt u one (
                claim_run-Claim n (i + 1) (record s { bitmap = mid }) (omega (arith, one.size))
                  held))))
  ])
  | no ge ↦ rw (bitmap_test-fault s.bitmap i (omega arith)) (outside (omega arith))
]

-- How `pallocaddr` ends when the global lock is free at the call.
pub data AllocAt (i n addr : ℕ) (s : Pmm) : Run (ℕ × Pmm) → Type 0 where
  at :
      {t : Pmm}
      → Fits s.bitmap n i
      → MarksRun s.bitmap i n true t.bitmap
      → t.spinlock ≡ false
      → AllocAt i n addr s (ok (addr, t))
  deadlock :
      (j : ℕ)
      → i ≤ j
      → j < i + n
      → j < pages_of s.bitmap
      → used s.bitmap j ≡ true
      → AllocAt i n addr s stuck
  past_end : pages_of s.bitmap < i + n → AllocAt i n addr s fault

continue-AllocAt :
    {i n : ℕ} (addr : ℕ) {s : Pmm} {r : Run Pmm}
    → Claim i n (record s { spinlock = true }) r
    → AllocAt i n addr s (r >>= λ t. ok (addr, record t { spinlock = false }))
continue-AllocAt addr (claimed f m g) = at f m refl
continue-AllocAt addr (busy j a b c u) = deadlock j a b c u
continue-AllocAt addr (outside h) = past_end h

-- `pallocaddr`, entered with the lock free, marks the run that begins at the page of the address
-- and returns the address. If a page of the run is in use it hangs: `panic` prints under the
-- lock that `pallocaddr` holds.
pub pallocaddr-AllocAt :
    (n addr : ℕ) (s : Pmm)
    → s.spinlock ≡ false
    → addr / page_size + n < 2 ^ 32
    → addr / page_size ≤ pages_of s.bitmap
    → AllocAt (addr / page_size) n addr s (pallocaddr n addr s)
unfolding pallocaddr
pallocaddr-AllocAt n addr s unlocked fits le =
    let page : addr / page_size % 2 ^ 32 ≡ addr / page_size = omega arith in
    rw unlocked (
      rw page (
        rw (lt→ltb _ _ fits) (
          continue-AllocAt addr
            (claim_run-Claim n (addr / page_size) (record s { spinlock = true }) le refl))))
