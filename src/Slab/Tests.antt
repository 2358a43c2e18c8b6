-- ===== src/Slab/Tests.antt =====
-- kernel/slab.c: runs over a bitmap of sixteen pages, with physical memory mapped at 0x100000.
use franklin.Base.{
  inr, inl, ℕ, ◌+◌, ◌≡◌, refl, true, false, arith, ◌==◌, if◌then◌else◌, none, [], ◌∷◌, ok,
}
use franklin.Bitmap.{bitmap_test, bitmap_set}
use franklin.Bitmap.Laws.{used}
use franklin.Pmm.{Pmm, page_size, palloc, find_run, all_free, set_run}
use franklin.Slab.{Slabber, carve, kalloc, kfree, kalloclarge, kfreelarge}
use franklin.Slab.Layout.{kfree-Unowned}
use franklin.Slab.Reuse.{kalloc-kfree}
use franklin.Text.{◌>>=◌}
use franklin.Slab.{roundup, owns}
use franklin.Slab.Large.{kfreelarge-kalloclarge}

abbrev high : ℕ
high = 0x100000

-- Page 0 is in use.
abbrev empty : Slabber
empty = record {
  slabs = [];
  lock = false;
  next_id = 0;
  pages = record { bitmap = 1 ∷ 0 ∷ []; g = 10; spinlock = false };
  pagecount = λ _. none;
}

-- The fourth block runs over the end of the page at 4096.
blocks_of_1024 : carve 1024 0 ≡ ok (40 ∷ 1064 ∷ 2088 ∷ 3112 ∷ [])
unfolding carve
blocks_of_1024 = refl

-- A block of a page is all behind the slab structure.
blocks_of_4096 : carve 4096 0 ≡ ok (40 ∷ [])
unfolding carve
blocks_of_4096 = refl

-- One slab, with one of its four blocks in use.
abbrev one_slab : Slabber
one_slab = record empty {
  slabs =
      record {
        addr = high + page_size;
        size = 1024;
        refcount = 1;
        id = 0;
        freelist = (high + 4096 + 1064) ∷ (high + 4096 + 2088) ∷ (high + 4096 + 3112) ∷ [];
      }
      ∷ [];
  next_id = 1;
  pages = record { bitmap = 3 ∷ 0 ∷ []; g = 10; spinlock = false };
}

kalloc_first : kalloc high 1000 empty ≡ ok (high + 4096 + 40, one_slab)
unfolding kalloc palloc find_run all_free bitmap_test set_run bitmap_set
kalloc_first = refl

-- The block that was given out is not taken back.
kfree-Unowned_example : kfree high (high + 4096 + 40) one_slab ≡ ok one_slab
kfree-Unowned_example = kfree-Unowned high (high + 4096 + 40) one_slab refl refl (omega arith, tt)

abbrev three_pages : Pmm
three_pages = record { bitmap = 0xf ∷ 0 ∷ []; g = 10; spinlock = false }

palloc_three : palloc 3 empty.pages ≡ ok (4096, three_pages)
unfolding palloc find_run all_free bitmap_test set_run bitmap_set
palloc_three = refl

kfreelarge-kalloclarge_example :
    (t u : Slabber) × (kalloclarge high 5000 empty ≡ ok (4096 + high + page_size, t))
    × (kfreelarge high (4096 + high + page_size) t ≡ ok u)
    × ((j : ℕ) → used u.pages.bitmap j ≡ (if j == 3 then true else used (1 ∷ 0 ∷ []) j))
kfreelarge-kalloclarge_example =
    kfreelarge-kalloclarge high 5000 4096 empty three_pages (omega arith) palloc_three refl

-- Blocks of 1024 bytes in a page, and blocks of 16 bytes in the page in front of it.
abbrev two_slabs : Slabber
two_slabs = record empty {
  slabs =
      record {
        addr = high + 0x2000;
        size = 1024;
        refcount = 2;
        id = 1;
        freelist = (high + 0x2000 + 2088) ∷ (high + 0x2000 + 3112) ∷ [];
      }
      ∷ record {
        addr = high + page_size;
        size = 16;
        refcount = 1;
        id = 0;
        freelist = (high + 4096 + 56) ∷ [];
      }
      ∷ [];
}

-- The block of 16 bytes is given out as one of 1000.
kalloc-kfree_example :
    (kfree high (high + 4096 + 40) two_slabs >>= kalloc high 1000)
    ≡ ok (high + 4096 + 40, two_slabs)
unfolding roundup owns
kalloc-kfree_example =
    kalloc-kfree high (high + 4096 + 40) 1000 two_slabs refl refl (omega arith)
      (
        inl (omega arith),
        (inl (omega arith), (inl (omega arith), tt)),
        (inr (omega arith), (inl (omega arith), tt), tt),
      )
      (λ a n e. cc) (inl (refl, refl, omega arith))
