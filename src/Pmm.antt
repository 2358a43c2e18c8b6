-- ===== src/Pmm.antt =====
-- kernel/pmm.c: the allocator of physical pages. A page is used if its bit is set; `g` is the
-- debugging counter of the source, and `spinlock` its global lock. The scan of `palloc` runs on
-- fuel, one round for each page that the bitmap describes and one more. The page counts that
-- callers of `palloc` give stay so far below 2 ^ 64 that sums with them do not wrap.
pub mod Scan
pub mod Alloc
pub mod Free
pub mod Owners
pub mod Boot
mod Tests
use franklin.Base.{
  and_then, ℕ, zero, suc, ◌+◌, ◌-◌, ◌*◌, ◌/◌, ◌%◌, ◌^◌, Bool, true, false, not, List, [], ◌∷◌,
  Option, none, some, ◌==◌, ltb, leb, if◌then◌else◌, length, replicate, Run, ok, panicked, fault,
  stuck, out_of_fuel,
}
use franklin.Text.{Buffer, ◌>>=◌}
use franklin.Bitmap.{bitmap_test, bitmap_set, bitmap_reset}

pub record Pmm : Type 0 where
  pub bitmap : Buffer
  pub g : ℕ
  pub spinlock : Bool

-- `PGSIZE`
abbrev pub page_size : ℕ
page_size = 4096

-- Whether `left` pages from `i` on are all free.
unfoldable pub all_free : ℕ → ℕ → Buffer → Run Bool
all_free zero i bm = ok true
all_free (suc left) i bm =
    let rest = all_free left (i + 1) bm in do u ← bitmap_test bm i; if u then ok false else rest

-- `scanbitmap`: a used page starts the scan again one page later.
unfoldable pub find_run : ℕ → ℕ → ℕ → Buffer → Run ℕ
find_run zero p pages bm = out_of_fuel
find_run (suc fuel) p pages bm =
    let rest = find_run fuel (p + 1) pages bm in
    do free ← all_free pages p bm; if free then ok p else rest

unfoldable pub set_run : ℕ → ℕ → Buffer → Run Buffer
set_run zero i bm = ok bm
set_run (suc left) i bm = do bm' ← bitmap_set bm i; set_run left (i + 1) bm'

-- Returns the physical address of the first page of the run.
unfoldable pub palloc : ℕ → Pmm → Run (ℕ × Pmm)
palloc pages s = do
  p ← find_run (8 * length s.bitmap + 1) 0 pages s.bitmap
  let g = if p * page_size == 0x2ca000 then 10 else s.g
  bm ← set_run pages p s.bitmap
  let g' = if p * page_size == 0x2d4000 then 10 else g
  ok (p * page_size, record s { bitmap = bm; g = g' })

-- A page that is free already is noted in `g`, and nothing else happens.
unfoldable pub reset_run : ℕ → ℕ → Buffer → ℕ → Run (Buffer × ℕ)
reset_run zero i bm g = ok (bm, g)
reset_run (suc left) i bm g = do
  u ← bitmap_test bm i
  bm' ← bitmap_reset bm i
  reset_run left (i + 1) bm' (if u then g else 69)

-- `length` is cut to 32 bits.
unfoldable pub freepg : ℕ → ℕ → Pmm → Run (Pmm)
freepg addr n s = do
  r ← reset_run (n % 2 ^ 32) (addr / page_size) s.bitmap s.g
  ok (record s { bitmap = r.0; g = r.1 })

-- `print` waits for the global lock, so a panic under that lock never gets to halt.
pub panic : Pmm → {A : Type 0} → Run A
panic s = if s.spinlock then stuck else panicked

-- `isfree` and `togglepage` look at the same bits through 64-bit words: on a little-endian
-- machine bit `i % 64` of word `i / 64` is bit `i % 8` of byte `i / 8`. A bitmap whose size is
-- not a multiple of 8 ends inside a word; the bytes behind it, which such an access reads and
-- writes back as they are, are left out.
claim_run : ℕ → ℕ → Pmm → Run Pmm
claim_run zero i s = ok s
claim_run (suc left) i s = do
  u ← bitmap_test s.bitmap i
  if u
      then panic s
      else (do bm ← bitmap_set s.bitmap i; claim_run left (i + 1) (record s { bitmap = bm }))

-- The page number is cut to 32 bits, and so is the end of the run: where it wraps, the loop does
-- not run.
pub pallocaddr : ℕ → ℕ → Pmm → Run (ℕ × Pmm)
unfolding claim_run panic
pallocaddr size paddr s =
    let pfn = paddr / page_size % 2 ^ 32 in
    let rounds = if ltb (pfn + size) (2 ^ 32) then size else 0 in
    if s.spinlock then stuck else do
      s' ← claim_run rounds pfn (record s { spinlock = true })
      ok (paddr, record s' { spinlock = false })

-- An entry of the boot loader's memory map; the type 0 is usable memory.
pub record Entry : Type 0 where
  pub base : ℕ
  pub len : ℕ
  pub kind : ℕ

-- Pass 1: the highest address of usable memory.
unfoldable pub highest : List Entry → ℕ → ℕ
highest [] top = top
highest (e ∷ es) top =
    highest es
      (if e.kind == 0 then (if ltb top (e.base + e.len) then e.base + e.len else top) else top)

-- Pass 2: the first usable area with room for the bitmap gives up its front.
unfoldable pub place : ℕ → List Entry → Option (List Entry)
place size [] = none
place size (e ∷ es) =
    let rest = place size es in
    if e.kind == 0
    then (if leb size e.len
        then some (record e { base = e.base + size; len = e.len - size } ∷ es)
        else elim rest [ none ↦ none | some es' ↦ some (e ∷ es') ])
    else elim rest [ none ↦ none | some es' ↦ some (e ∷ es') ]

-- Pass 3, on one area: `for (j = 0; j < length; j += PGSIZE)`, in that many rounds.
unfoldable pub free_area : ℕ → ℕ → ℕ → Buffer → Run Buffer
free_area zero base j bm = ok bm
free_area (suc left) base j bm = do
  bm' ← bitmap_reset bm ((base + j) / page_size)
  free_area left base (j + page_size) bm'

unfoldable pub free_areas : List Entry → Buffer → Run Buffer
free_areas [] bm = ok bm
free_areas (e ∷ es) bm = do
  bm' ← if e.kind == 0 then free_area ((e.len + (page_size - 1)) / page_size) e.base 0 bm else ok bm
  free_areas es bm'

-- The bitmap, or none where no area has room for it: its pointer stays null, and the first page
-- that is to be freed is a fault.
unfoldable pub initbmap : List Entry → Run (Option Buffer)
unfolding highest place free_area free_areas
initbmap memmap =
    let size = highest memmap 0 / page_size / 8 in
    elim (place size memmap) [
      | none ↦ and_then (free_areas memmap []) (λ bm. ok none)
      | some es ↦ and_then (free_areas es (replicate size 0xff)) (λ bm. ok (some bm))
    ]
