-- ===== src/Pmm/Tests.antt =====
-- kernel/pmm.c and include/franklin/bitmap.h: runs on a bitmap of sixteen pages.
use franklin.Base.{
  some, ℕ, ◌+◌, ◌*◌, ◌/◌, ◌≤◌, ◌&&◌, ◌||◌, not, some, ltb, if◌then◌else◌, ◌≡◌, refl, false, List,
  [], ◌∷◌, length, arith, ok, stuck,
}
use franklin.Bitmap.{bitmap_test, bitmap_set, bitmap_reset}
use franklin.Bitmap.Laws.{used}
use franklin.Pmm.{
  find_run, all_free, set_run, Pmm, Entry, page_size, palloc, freepg, pallocaddr, initbmap, place,
  highest,
}
use franklin.Pmm.Alloc.{Alloc, palloc-Alloc}
use franklin.Pmm.Boot.{is_usable, initbmap-frees}
use franklin.Pmm.Owners
use franklin.Pmm.Owners.{owners, single_owner}
use franklin.Pmm.Free.{AllocAt, freepg-palloc, pallocaddr-AllocAt}

-- Pages 0 and 2 are in use.
abbrev some_used : Pmm
some_used = record { bitmap = 5 ∷ 0 ∷ []; g = 0; spinlock = false }

abbrev three_more : Pmm
three_more = record { bitmap = 0x3d ∷ 0 ∷ []; g = 0; spinlock = false }

palloc_three : palloc 3 some_used ≡ ok (3 * page_size, three_more)
unfolding palloc find_run all_free bitmap_test set_run bitmap_set
palloc_three = refl

palloc-Alloc_example : Alloc 3 some_used (palloc 3 some_used)
palloc-Alloc_example = palloc-Alloc 3 some_used

-- Three pages are taken and given back.
taken_and_freed :
    (u : Pmm)
    → freepg (3 * page_size) 3 three_more ≡ ok u
    → Owners.Steps (record { pmm = some_used; runs = [] }) (record { pmm = u; runs = [] })
taken_and_freed u e =
    Owners.Steps.next (Owners.Steps.next Owners.Steps.here (Owners.Step.alloc 3 palloc_three))
      (Owners.Step.free [] 3 3 [] refl (omega arith) e)

single_owner_example :
    (used three_more.bitmap 4 ≡ (used some_used.bitmap 4 || ltb 0 (owners 4 ((3, 3) ∷ []))))
    × ((if used some_used.bitmap 4 then 1 else 0) + owners 4 ((3, 3) ∷ []) ≤ 1)
single_owner_example =
    single_owner some_used (record { pmm = three_more; runs = (3, 3) ∷ [] })
      (Owners.Steps.next Owners.Steps.here (Owners.Step.alloc 3 palloc_three)) 4

freepg-palloc_example :
    (u : Pmm) × (freepg (3 * page_size) 3 three_more ≡ ok u)
    × (length u.bitmap ≡ 2)
    × (u.g ≡ 0)
    × ((j : ℕ) → used u.bitmap j ≡ used (5 ∷ 0 ∷ []) j)
freepg-palloc_example =
    freepg-palloc 3 some_used three_more (3 * page_size) (omega arith) palloc_three

pallocaddr-AllocAt_example :
    AllocAt 2 1 (2 * page_size) some_used (pallocaddr 1 (2 * page_size) some_used)
pallocaddr-AllocAt_example =
    pallocaddr-AllocAt 1 (2 * page_size) some_used refl (omega arith) (omega arith)

-- A page that is in use: the panic waits for the lock that is held.
pallocaddr_busy : pallocaddr 1 (2 * page_size) some_used ≡ stuck
unfolding pallocaddr bitmap_test
pallocaddr_busy = refl

-- Sixteen pages of usable memory from address 0. The page that holds the bitmap is marked as free.
abbrev sixteen_pages : List Entry
sixteen_pages = record { base = 0; len = 16 * page_size; kind = 0 } ∷ []

initbmap_whole : initbmap sixteen_pages ≡ ok (some (0 ∷ 0 ∷ []))
unfolding initbmap bitmap_reset
initbmap_whole = refl

-- All pages of the map are usable; the bitmap of two bytes takes the front of the area.
initbmap-frees_example :
    (es : List Entry) × (place 2 sixteen_pages ≡ some es)
    × (◌≡◌ {A = ℕ} 2 (highest sixteen_pages 0 / page_size / 8))
    × ((j : ℕ) → used (0 ∷ 0 ∷ []) j ≡ (ltb j 16 && not (is_usable es j)))
initbmap-frees_example = initbmap-frees sixteen_pages (0 ∷ 0 ∷ []) initbmap_whole
