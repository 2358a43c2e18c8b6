-- ===== src/Slab/Reuse.antt =====
-- kernel/slab.c, `kfree` and then `kalloc`: who gets a block that was freed.
use franklin.Base.{
  ℕ, ◌+◌, ◌-◌, ◌%◌, ◌≤◌, ◌≡◌, refl, ◌∙◌, ap, ◌⊎◌, inl, inr, true, false, arith, ◌==◌, ltb,
  if◌then◌else◌, none, Option, some, List, [], ◌∷◌, ok, Bool-cases,
}
use franklin.Text.{◌>>=◌}
use franklin.Pmm.{page_size}
use franklin.Slab.Layout.{unlocked}
use franklin.Slab.{slab_size, Slab, Slabber, owns, free_in, alloc_in, roundup, kalloc, kfree}

-- The first slab whose structure lies at most a page behind the address has blocks of `size`
-- bytes, two or more of them in use; the slabs in front of it have blocks of another size, or none
-- that is free.
abbrev pub Takes : (ptr size : ℕ) → List Slab → Type 0
Takes ptr size [] = ⊥
Takes ptr size (b ∷ bs) =
    ((owns b ptr ≡ true) × ((b.size == size) ≡ true) × (2 ≤ b.refcount))
    ⊎ ((owns b ptr ≡ false) × (((b.size == size) ≡ false) ⊎ (b.freelist ≡ [])) × Takes ptr size bs)

-- The word at the address, where `kfree` puts a link, overlaps neither the structure of a slab nor
-- the link of another free block.
abbrev pub Clear : (ptr a n : ℕ) → Type 0
Clear ptr a n = (ptr + 8 ≤ a) ⊎ (a + n ≤ ptr)

abbrev pub ClearOfBlocks : (ptr : ℕ) → List ℕ → Type 0
ClearOfBlocks ptr [] = Unit {0}
ClearOfBlocks ptr (p ∷ ps) = Clear ptr p 8 × ClearOfBlocks ptr ps

abbrev pub ClearOfLinks : (ptr : ℕ) → List Slab → Type 0
ClearOfLinks ptr [] = Unit {0}
ClearOfLinks ptr (b ∷ bs) =
    Clear ptr b.addr slab_size × ClearOfBlocks ptr b.freelist × ClearOfLinks ptr bs

-- Nor does it overlap the count that stands in front of a large block.
abbrev pub ClearOfCounts : ℕ → (ℕ → Option ℕ) → Type 0
ClearOfCounts ptr counts = (a n : ℕ) → counts a ≡ some n → Clear ptr a 8

free_in-alloc_in :
    (ptr size : ℕ) (bs : List Slab)
    → Takes ptr size bs
    → (bs' : List Slab) × (free_in ptr bs ≡ ok (bs', none)) × (alloc_in size bs' ≡ some (ptr, bs))
unfolding free_in alloc_in
free_in-alloc_in ptr size [] h = absurd h
free_in-alloc_in ptr size (b ∷ bs) (inl (mine, fits, two)) =
    let not_zero : (b.refcount == 0) ≡ false = ground arith in
    let not_one : (b.refcount == 1) ≡ false = ground arith in
    let count : b.refcount - 1 + 1 ≡ b.refcount = omega arith in
    (
      record b { refcount = b.refcount - 1; freelist = ptr ∷ b.freelist } ∷ bs,
      rw mine (rw (not_zero, not_one) refl),
      rw fits (ap (λ c. some (ptr, record b { refcount = c } ∷ bs)) count),
    )
free_in-alloc_in ptr size (b ∷ bs) (inr (other, passes, h)) =
    let (bs', e, e') = free_in-alloc_in ptr size bs h in
    (
      b ∷ bs',
      rw other (rw e refl),
      elim passes [
        | inl apart ↦ rw apart (rw e' refl)
        | inr full ↦ (elim (Bool-cases (b.size == size)) [
          | inl fits ↦ simp (fits, full, e') refl
          | inr apart ↦ rw apart (rw e' refl)
        ])
      ],
    )

kfree-reuse :
    (hhdm ptr : ℕ) (s : Slabber) (bs : List Slab)
    → s.lock ≡ false
    → (ptr % 0x1000 == 0) ≡ false
    → free_in ptr s.slabs ≡ ok (bs, none)
    → kfree hhdm ptr s ≡ ok (record s { slabs = bs })
unfolding kfree
kfree-reuse hhdm ptr s bs free inner e =
    let some' : (ptr == 0) ≡ false = ground arith in
    rw (some', inner) (unlocked s.lock free (rw e refl))

kalloc-reuse :
    (hhdm ptr size : ℕ) (s : Slabber) (bs : List Slab)
    → s.lock ≡ false
    → size ≤ page_size
    → alloc_in (roundup (if ltb size 8 then 8 else size)) s.slabs ≡ some (ptr, bs)
    → kalloc hhdm size s ≡ ok (ptr, record s { slabs = bs })
unfolding kalloc
kalloc-reuse hhdm ptr size s bs free small e =
    let in_page : ltb page_size size ≡ false = ground arith in
    rw in_page (unlocked s.lock free (rw e refl))

-- With the lock free, an address inside a page, whose word overlaps no structure of a slab, no
-- link of a free block and no count in front of a large block, and a size of at most a page: where
-- the first slab whose structure lies at most a page behind the address has blocks of that size,
-- rounded up, and two or more of them in use, and the slabs in front of it have blocks of another
-- size or none that is free, `kfree` of the address and then `kalloc` of the size returns just this
-- address, and the slabs, their counts and their free blocks are as before both calls. It need not
-- be a block of that slab, nor of that size.
pub kalloc-kfree :
    (hhdm ptr size : ℕ) (s : Slabber)
    → s.lock ≡ false
    → (ptr % 0x1000 == 0) ≡ false
    → size ≤ page_size
    → ClearOfLinks ptr s.slabs
    → ClearOfCounts ptr s.pagecount
    → Takes ptr (roundup (if ltb size 8 then 8 else size)) s.slabs
    → (kfree hhdm ptr s >>= kalloc hhdm size) ≡ ok (ptr, s)
kalloc-kfree hhdm ptr size s free inner small clear apart h =
    let (bs, e, e') = free_in-alloc_in ptr (roundup (if ltb size 8 then 8 else size)) s.slabs h in
    ap (λ r. r >>= kalloc hhdm size) (kfree-reuse hhdm ptr s bs free inner e)
    ∙ kalloc-reuse hhdm ptr size (record s { slabs = bs }) s.slabs free small e'
