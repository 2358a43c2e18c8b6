-- ===== src/Slab/Layout.antt =====
-- kernel/slab.c, `newslab` and `kfree`: where the blocks of a slab lie, and where `kfree` looks for
-- them.
use franklin.Base.{
  ℕ, zero, suc, ◌+◌, ◌%◌, ◌≤◌, ◌<◌, ◌≡◌, refl, Bool, true, false, arith, ◌==◌, ltb, if◌then◌else◌,
  none, List, [], ◌∷◌, Run, ok, stuck, Bool-cases, inl, inr,
}
use franklin.Pmm.{page_size}
use franklin.Slab.{Slab, Slabber, slab_size, more_blocks, carve, owns, free_in, kfree}

-- Each block begins where the one before it ends, before `stop`, and the last one does not end
-- before it.
abbrev pub Chain : (size stop block : ℕ) → List ℕ → Type 0
Chain size stop block [] = stop ≤ block + size
Chain size stop block (b ∷ bs) = (b ≡ block + size) × (b < stop) × Chain size stop b bs

more_blocks-Chain :
    (spare size stop block : ℕ)
    → 0 < size
    → stop ≤ block + spare
    → (bs : List ℕ) × (more_blocks (suc spare) size stop block ≡ ok bs) × Chain size stop block bs
unfolding more_blocks
more_blocks-Chain zero size stop block some' enough =
    let last : ltb (block + size) stop ≡ false = ground arith in ([], rw last, omega arith)
more_blocks-Chain (suc spare) size stop block some' enough =
    elim (Bool-cases (ltb (block + size) stop)) [
      | inl more ↦
          let (bs, e, chain) =
            more_blocks-Chain spare size stop (block + size) some' (omega arith) in
          ((block + size) ∷ bs, rw more (rw e), (refl, ground arith, chain))
      | inr last ↦ ([], rw last, ground arith)
    ]

-- A new slab's blocks follow one another from behind the slab structure; each begins inside the
-- page, and the last one reaches its end or runs over it.
pub carve-Chain :
    (size addr : ℕ)
    → 0 < size
    → (bs : List ℕ) × (carve size addr ≡ ok ((addr + slab_size) ∷ bs))
      × Chain size (addr + page_size) (addr + slab_size) bs
unfolding carve
carve-Chain size addr some' =
    let (bs, e, chain) =
      more_blocks-Chain 4095 size (addr + page_size) (addr + slab_size) some' (omega arith) in
    (bs, rw e, chain)

-- No slab's test claims the address.
abbrev pub Unowned : ℕ → List Slab → Type 0
Unowned ptr [] = Unit {0}
Unowned ptr (b ∷ bs) = (b.addr ≤ ptr) × Unowned ptr bs

free_in-Unowned : (ptr : ℕ) (bs : List Slab) → Unowned ptr bs → free_in ptr bs ≡ ok (bs, none)
unfolding free_in owns
free_in-Unowned ptr [] h = refl
free_in-Unowned ptr (b ∷ bs) (above, h) =
    let no' : ltb ptr b.addr ≡ false = ground arith in ground (arith, free_in-Unowned ptr bs h)

pub unlocked :
    {A : Type 0} (b : Bool) {r : Run A} {x : A}
    → b ≡ false
    → r ≡ ok x
    → (if b then stuck else r) ≡ ok x
unlocked true e h = cc
unlocked false e h = h

-- `kfree` of a block with every slab structure at or below its address, as the one of its own slab
-- is, frees nothing: the slabs, their counts and their free blocks stay as they are.
pub kfree-Unowned :
    (hhdm ptr : ℕ) (s : Slabber)
    → s.lock ≡ false
    → (ptr % 0x1000 == 0) ≡ false
    → Unowned ptr s.slabs
    → kfree hhdm ptr s ≡ ok s
unfolding kfree
kfree-Unowned hhdm ptr s free aligned h =
    let some' : (ptr == 0) ≡ false = ground arith in
    rw (some', aligned) (unlocked s.lock free (rw (free_in-Unowned ptr s.slabs h)))
