-- ===== src/Pmm/Owners.antt =====
-- kernel/pmm.c over sequences of calls: who owns which pages.
use franklin.Base.{
  ◌<◌, ◌^◌, ℕ, ◌+◌, ◌*◌, ◌/◌, ◌≤◌, ◌≡◌, refl, ◌∙◌, false, ◌||◌, arith, ltb, if◌then◌else◌, List, [],
  ◌∷◌, ◌++◌, length, ok,
}
use mathlib.Core.Path.{subst}
use franklin.Bitmap.Laws.{used, pages_of}
use franklin.Pmm.{Pmm, page_size, palloc, freepg}
use franklin.Pmm.Alloc.{in_run, MarksRun, palloc-Alloc}
use franklin.Pmm.Free.{Alloc-ok, freepg-MarksRun}

-- A run of pages that `palloc` has returned: its first page and its length.
abbrev pub PageRun : Type 0
PageRun = ℕ × ℕ

-- How many of the runs page `j` is in.
pub owners : ℕ → List PageRun → ℕ
owners j [] = 0
owners j (r ∷ rs) = (if in_run r.0 r.1 j then 1 else 0) + owners j rs

-- The allocator with the runs that callers own. A caller frees what it owns, whole and
-- once; `freepg` has 32 bits for the number of pages.
pub record Heap : Type 0 where
  pub pmm : Pmm
  pub runs : List PageRun

pub data Step (h : Heap) : Heap → Type 0 where
  alloc :
      (n : ℕ) {a : ℕ} {t : Pmm}
      → palloc n h.pmm ≡ ok (a, t)
      → Step h (record { pmm = t; runs = (a / page_size, n) ∷ h.runs })
  free :
      (before : List PageRun) (p n : ℕ) (after : List PageRun) {t : Pmm}
      → h.runs ≡ before ++ (p, n) ∷ after
      → n < 2 ^ 32
      → freepg (p * page_size) n h.pmm ≡ ok t
      → Step h (record { pmm = t; runs = before ++ after })

pub data Steps (h : Heap) : Heap → Type 0 where
  here : Steps h h
  next : {t u : Heap} → Steps h t → Step t u → Steps h u

owners-middle :
    (j : ℕ) (before : List PageRun) (r : PageRun) (after : List PageRun)
    → owners j (before ++ r ∷ after)
      ≡ (if in_run r.0 r.1 j then 1 else 0) + owners j (before ++ after)
unfolding owners
owners-middle j [] r after = refl
owners-middle j (b ∷ before) r after = omega (arith, owners-middle j before r after)

-- Every run lies inside the bitmap.
abbrev AllInside : ℕ → List PageRun → Type 0
AllInside size [] = Unit {0}
AllInside size (r ∷ rs) = (r.0 + r.1 ≤ size) × AllInside size rs

AllInside-middle :
    (size : ℕ) (before : List PageRun) (r : PageRun) (after : List PageRun)
    → AllInside size (before ++ r ∷ after)
    → (r.0 + r.1 ≤ size) × AllInside size (before ++ after)
AllInside-middle size [] r after h = h
AllInside-middle size (b ∷ before) r after h =
    let (x, y) = AllInside-middle size before r after h.1 in (x, (h.0, y))

-- A page is marked as used exactly if it was at the start or is owned, and not both; and no page
-- has two owners.
pub record Owned (start : Pmm) (h : Heap) : Type 0 where
  pub size : length h.pmm.bitmap ≡ length start.bitmap
  pub inside : AllInside (pages_of start.bitmap) h.runs
  pub marked : (j : ℕ) → used h.pmm.bitmap j ≡ (used start.bitmap j || ltb 0 (owners j h.runs))
  pub single : (j : ℕ) → (if used start.bitmap j then 1 else 0) + owners j h.runs ≤ 1

Step-Owned : {start : Pmm} {h t : Heap} → Step h t → Owned start h → Owned start t
unfolding owners
Step-Owned {h} (Step.alloc n {a} {t} e) o =
    let g = Alloc-ok a t (palloc-Alloc n h.pmm) e in
    let page : a / page_size ≡ g.page = omega (arith, g.address) in
    rw page (record {
      size = g.marks.size ∙ o.size;
      inside = (omega (arith, g.first.fits.inside, o.size), o.inside);
      marked = λ j. ground (arith, g.marks.bits j, o.marked j, g.first.fits.free j);
      single = λ j. ground (arith, o.marked j, o.single j, g.first.fits.free j);
    })
Step-Owned {start} {h} (Step.free before p n after {t} e few done) o =
    let runs = AllInside-middle (pages_of start.bitmap) before (p, n) after (rw e at o.inside) in
    let (t', done', m, quiet) = freepg-MarksRun p n h.pmm few (omega (arith, runs.0, o.size)) in
    let same : t' ≡ t = ground (arith, done, done') in
    let m' : MarksRun h.pmm.bitmap p n false t.bitmap =
      subst (λ (x : Pmm). MarksRun h.pmm.bitmap p n false x.bitmap) same m in
    let count : (j : ℕ)
        → owners j h.runs ≡ (if in_run p n j then 1 else 0) + owners j (before ++ after) =
      λ j. rw e (owners-middle j before (p, n) after) in
    record {
      size = m'.size ∙ o.size;
      inside = runs.1;
      marked = λ j. ground (arith, m'.bits j, o.marked j, o.single j, count j);
      single = λ j. ground (arith, o.single j, count j);
    }

Steps-Owned : {start : Pmm} {h t : Heap} → Steps h t → Owned start h → Owned start t
Steps-Owned Steps.here o = o
Steps-Owned (Steps.next r st) o = Step-Owned st (Steps-Owned r o)

-- After any sequence of calls in which callers free what they own, whole and once, and nothing of
-- 2 ^ 32 pages or more, a page is marked as used exactly if it was so at the start or some caller
-- owns it; no page has two owners, and none that was in use at the start has one.
pub single_owner :
    (start : Pmm) (h : Heap)
    → Steps (record { pmm = start; runs = [] }) h
    → (j : ℕ)
    → (used h.pmm.bitmap j ≡ (used start.bitmap j || ltb 0 (owners j h.runs)))
      × ((if used start.bitmap j then 1 else 0) + owners j h.runs ≤ 1)
unfolding owners
single_owner start h r j =
    let o = Steps-Owned {start = start} r (record {
      size = refl;
      inside = tt;
      marked = λ j. ground arith;
      single = λ j. ground arith;
    }) in
    (o.marked j, o.single j)
