-- ===== src/Slab/Large.antt =====
-- kernel/slab.c, `kalloclarge` and `kfreelarge`: what a large block leaves in the page bitmap.
use franklin.Base.{
  ◌<◌, ◌^◌, ℕ, ◌+◌, ◌-◌, ◌*◌, ◌/◌, ◌≡◌, true, false, arith, ◌==◌, if◌then◌else◌, some, ok,
}
use franklin.Bitmap.Laws.{used}
use franklin.Pmm.{Pmm, page_size, palloc}
use franklin.Pmm.Alloc.{palloc-Alloc}
use franklin.Pmm.Free.{Alloc-ok, freepg-MarksRun}
use franklin.Slab.{Slabber, kalloclarge, kfreelarge}

-- The pages that `kalloclarge` counts.
abbrev pub pages_for : ℕ → ℕ
pages_for size = (size + (page_size - 1)) / page_size

module _ (hhdm size a : ℕ) (s : Slabber) (pages : Pmm) where
  -- A large block of fewer than 2 ^ 32 pages, at page `a / page_size`, other than page 0, is
  -- freed again without its last page: of the pages that `kalloclarge` took, one more than it
  -- counts, the last stays in use.
  pub kfreelarge-kalloclarge :
      pages_for size < 2 ^ 32
      → palloc (pages_for size + 1) s.pages ≡ ok (a, pages)
      → (a == 0) ≡ false
      → (t u : Slabber) × (kalloclarge hhdm size s ≡ ok (a + hhdm + page_size, t))
        × (kfreelarge hhdm (a + hhdm + page_size) t ≡ ok u)
        × ((j : ℕ)
            → used u.pages.bitmap j
              ≡ (if j == a / page_size + pages_for size then true else used s.pages.bitmap j))
  unfolding kalloclarge kfreelarge
  kfreelarge-kalloclarge few e some' =
      let n = pages_for size in
      let got = Alloc-ok a pages (palloc-Alloc (n + 1) s.pages) e in
      let p = got.page in
      let t = record s {
        pages = pages;
        pagecount = λ x. if x == a + hhdm then some n else s.pagecount x;
      } in
      let (free, e', m, quiet) =
        freepg-MarksRun p n pages few (omega (arith, got.first.fits.inside, got.marks.size)) in
      let front : a + hhdm + page_size - page_size ≡ a + hhdm = omega arith in
      let back : a + hhdm - hhdm ≡ p * page_size = omega (arith, got.address) in
      let page : a / page_size ≡ p = omega (arith, got.address) in
      let own : (a + hhdm == a + hhdm) ≡ true = ground arith in
      (
        t,
        record t { pages = free },
        rw e (rw some'),
        rw front (rw own (rw back (rw e'))),
        λ j. ground (arith, got.marks.bits j, m.bits j, got.first.fits.free j),
      )
