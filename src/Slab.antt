-- ===== src/Slab.antt =====
-- kernel/slab.c: the slab allocator over the page allocator. The list of slabs and the list of
-- free blocks of each, linked through their first words, are lists. The last block of a new slab
-- gets no link from the source, and ends the list since a fresh page holds zeros here. A block
-- that is freed is taken to overlap no structure of a slab, no free block and no count of a large
-- block, or its link would be written over these. Addresses stay below 2 ^ 64 and page counts
-- below 2 ^ 32, so that sums of them do not wrap.
pub mod Roundup
pub mod Layout
pub mod Reuse
pub mod Large
mod Tests
use franklin.Base.{
  ℕ, zero, suc, ◌+◌, ◌-◌, ◌*◌, ◌/◌, ◌%◌, ◌^◌, Bool, true, false, not, ◌&&◌, ◌||◌, ◌==◌, ltb, leb,
  if◌then◌else◌, Option, none, some, List, [], ◌∷◌, bit_or, bit_and, Run, ok, panicked, fault,
  stuck, out_of_fuel, or_fault, and_then,
}
use franklin.Text.{◌>>=◌}
use franklin.Pmm.{Pmm, page_size, palloc, freepg}

-- The next power of two, on 32 bits.
unfoldable pub roundup : ℕ → ℕ
roundup n =
    let a = (n + (2 ^ 32 - 1)) % 2 ^ 32 in
    let b = bit_or a (a / 2) in
    let c = bit_or b (b / 4) in
    let d = bit_or c (c / 16) in
    let e = bit_or d (d / 256) in let f = bit_or e (e / 65536) in (f + 1) % 2 ^ 32

-- `sizeof(struct slab)`
abbrev pub slab_size : ℕ
slab_size = 40

-- `struct slab`, with its address.
pub record Slab : Type 0 where
  pub addr : ℕ
  pub size : ℕ
  pub refcount : ℕ
  pub id : ℕ
  pub freelist : List ℕ

-- `slabber`, the counter of `newslab`, the page allocator, and the page counts that
-- `kalloclarge` writes.
pub record Slabber : Type 0 where
  pub slabs : List Slab
  pub lock : Bool
  pub next_id : ℕ
  pub pages : Pmm
  pub pagecount : ℕ → Option ℕ

-- The loop of `newslab`, with `block` the last block so far: another one follows as long as this
-- one ends before the page does.
unfoldable pub more_blocks : (fuel size stop block : ℕ) → Run (List ℕ)
more_blocks zero size stop block = out_of_fuel
more_blocks (suc fuel) size stop block =
    let rest = more_blocks fuel size stop (block + size) in
    if ltb (block + size) stop then and_then rest (λ bs. ok ((block + size) ∷ bs)) else ok []

-- The blocks of a slab at an address. The blocks are not empty, so that a page has room for
-- fewer than 4096 of them.
unfoldable pub carve : (size addr : ℕ) → Run (List ℕ)
unfolding more_blocks
carve size addr = do
  bs ← more_blocks page_size size (addr + page_size) (addr + slab_size)
  ok ((addr + slab_size) ∷ bs)

-- What is found behind a slab, with this slab in front.
abbrev pub behind : Slab → Option (ℕ × List Slab) → Option (ℕ × List Slab)
behind b none = none
behind b (some r) = some (r.0, b ∷ r.1)

-- The block, and the slab without it.
unfoldable pub allocblock : Slab → Run (ℕ × Slab)
allocblock b = elim (b.freelist) [
  | [] ↦ fault
  | p ∷ ps ↦ ok (p, record b { refcount = b.refcount + 1; freelist = ps })
]

-- The first slab of that block size with a free block gives one.
unfoldable pub alloc_in : ℕ → List Slab → Option (ℕ × List Slab)
alloc_in size [] = none
alloc_in size (b ∷ bs) =
    let rest = behind b (alloc_in size bs) in
    if b.size == size
    then elim (b.freelist) [
      | [] ↦ rest
      | p ∷ ps ↦ some (p, record b { refcount = b.refcount + 1; freelist = ps } ∷ bs)
    ]
    else rest

-- The test of `kfree`, which takes the blocks to lie in front of the slab structure.
unfoldable pub owns : Slab → ℕ → Bool
owns b ptr = leb (b.addr - (page_size - slab_size)) ptr && ltb ptr b.addr

-- The slabs after the block is freed, and the slab that is given back, if there is one.
unfoldable pub free_in : ℕ → List Slab → Run (List Slab × Option Slab)
unfolding owns
free_in ptr [] = ok ([], none)
free_in ptr (b ∷ bs) =
    let rest = and_then (free_in ptr bs) (λ r. ok (b ∷ r.0, r.1)) in
    if not (owns b ptr)
    then rest
    else (if b.refcount == 0
        then panicked
        else (if b.refcount == 1
            then ok (bs, some b)
            else ok
                (record b { refcount = b.refcount - 1; freelist = ptr ∷ b.freelist } ∷ bs, none)))

module _ (hhdm : ℕ) where
  unfoldable pub newslab : ℕ → Slabber → Run (Slab × Slabber)
  unfolding carve
  newslab size s = do
    r ← palloc 1 s.pages
    bs ← carve size (r.0 + hhdm)
    ok (
      record { addr = r.0 + hhdm; size = size; refcount = 0; id = s.next_id; freelist = bs },
      record s { next_id = (s.next_id + 1) % 2 ^ 32; pages = r.1 },
    )

  unfoldable pub kalloclarge : ℕ → Slabber → Run (ℕ × Slabber)
  kalloclarge size s =
      let pagecount = (size + (page_size - 1)) / page_size in
      do
        r ← palloc (pagecount + 1) s.pages
        if r.0 == 0
            then ok (0, record s { pages = r.1 })
            else ok (
              r.0 + hhdm + page_size,
              record s {
                pages = r.1;
                pagecount = λ a. if a == r.0 + hhdm then some pagecount else s.pagecount a;
              },
            )

  unfoldable pub kalloc : ℕ → Slabber → Run (ℕ × Slabber)
  unfolding kalloclarge roundup alloc_in newslab allocblock
  kalloc size s =
      if ltb page_size size
      then kalloclarge size s
      else (let n = roundup (if ltb size 8 then 8 else size) in
          if s.lock then stuck else elim (alloc_in n s.slabs) [
            | some r ↦ ok (r.0, record s { slabs = r.1 })
            | none ↦ (do
              b ← newslab n s
              p ← allocblock b.0
              ok (p.0, record (b.1) { slabs = p.1 ∷ s.slabs }))
          ])

  unfoldable pub kfreelarge : ℕ → Slabber → Run Slabber
  kfreelarge ptr s = do
    n ← or_fault (s.pagecount (ptr - page_size))
    pages ← freepg (ptr - page_size - hhdm) n s.pages
    ok (record s { pages = pages })

  unfoldable pub freeslab : Slab → Slabber → Run Slabber
  freeslab b s = do pages ← freepg (b.addr - hhdm) 1 s.pages; ok (record s { pages = pages })

  -- `ptr & 0xfff` is the remainder by 0x1000.
  unfoldable pub kfree : ℕ → Slabber → Run Slabber
  unfolding kfreelarge free_in freeslab
  kfree ptr s =
      if ptr == 0
      then ok s
      else (if ptr % 0x1000 == 0
          then kfreelarge ptr s
          else (if s.lock then stuck else (do
            r ← free_in ptr s.slabs
            let t = record s { slabs = r.0 }
            elim (r.1) [ none ↦ ok t | some b ↦ freeslab b t ])))
