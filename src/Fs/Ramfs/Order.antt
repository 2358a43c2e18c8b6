-- ===== src/Fs/Ramfs/Order.antt =====
-- fs/ramfs/ramfs.c: the sequence numbers of the entries of a directory, by which
-- `ramfs_readdir` finds the place where it goes on.
use franklin.Base.{
  ℕ, ◌+◌, ◌%◌, ◌^◌, ◌<◌, ◌≡◌, refl, arith, true, false, ◌==◌, List, [], ◌∷◌, ◌++◌, Run, ok,
  panicked, fault, stuck, out_of_fuel, and_then, Bool-cases, inl, inr,
}
use mathlib.Core.Path.{subst}
use franklin.Fs.State.{Ptr}
use franklin.Fs.Ramfs.Store.{Dentry, Payload, Ramnode, int_incr}
use franklin.Fs.Ramfs.Entries.{attach_entry, detach}
use franklin.Fs.Ramfs.Listing.{from_seq}

-- The sequence numbers fall from `n` on.
abbrev pub Below : ℕ → List Dentry → Type 0
Below n [] = Unit {0}
Below n (d ∷ ds) = (d.seq < n) × Below d.seq ds

Below-mono : (es : List Dentry) {m n : ℕ} → m < n → Below m es → Below n es
Below-mono [] lt h = tt
Below-mono (d ∷ ds) lt h = (omega (arith, h.0), h.1)

-- The next number of a directory is above those of all its entries.
pub data Sorted : Payload → Type 0 where
  sorted :
      {es : List Dentry} {parent : Ptr} {last : ℕ}
      → Below last es
      → Sorted (Payload.dir es parent last)

-- Attaching an entry keeps the order of the sequence numbers, and detaching it again brings back
-- the old list, if its address was new, while the numbers do not reach the end of their range.
pub attach_entry-Sorted :
    (n : Ramnode) (es : List Dentry) (parent : Ptr) (last : ℕ) (d : Dentry)
    → n.payload ≡ Payload.dir es parent last
    → Below last es
    → last + 1 < 2 ^ 64
    → (fs : List Dentry) × (attach_entry n d
        ≡ ok (record n {
          linkcount = int_incr n.linkcount;
          payload = Payload.dir fs parent (last + 1);
        }))
      × Below (last + 1) fs
      × (detach d.addr fs ≡ ok es)
unfolding attach_entry detach
attach_entry-Sorted n es parent last d e h room =
    let small : (last + 1) % 2 ^ 64 ≡ last + 1 = omega arith in
    (
      record d { seq = last } ∷ es,
      rw e (rw small),
      (omega arith, h),
      (let self : (d.addr == d.addr) ≡ true = ground arith in rw self),
    )

-- Detaching an entry keeps the order of the sequence numbers.
pub detach-Below :
    (a : Ptr) (n : ℕ) (es fs : List Dentry) → Below n es → detach a es ≡ ok fs → Below n fs
unfolding detach
detach-Below a n [] fs h e = cc
detach-Below a n (d ∷ ds) fs h e = elim (Bool-cases (d.addr == a)) [
  | inl here ↦
      (let e' : ok ds ≡ ok fs = rw here at e in
        let same : ds ≡ fs = cc in subst (Below n) same (Below-mono ds h.0 h.1))
  | inr other ↦ later (λ gs. detach-Below a d.seq ds gs h.1) (detach a ds) refl (rw other at e)
]
  where
    later :
        ((gs : List Dentry) → detach a ds ≡ ok gs → Below d.seq gs)
        → (r : Run (List Dentry)) → detach a ds ≡ r
        → and_then r (λ gs. ok (d ∷ gs)) ≡ ok fs
        → Below n fs
    later ih (ok gs) r e' = (let same : d ∷ gs ≡ fs = cc in subst (Below n) same (h.0, ih gs r))
    later ih panicked r e' = cc
    later ih fault r e' = cc
    later ih stuck r e' = cc
    later ih out_of_fuel r e' = cc

-- A reader that comes back with the number of an entry goes on at this entry.
pub from_seq-append :
    (n : ℕ) (ds : List Dentry) (d : Dentry) (es : List Dentry)
    → Below n (ds ++ d ∷ es)
    → from_seq d.seq (ds ++ d ∷ es) ≡ d ∷ es
unfolding from_seq
from_seq-append n [] d es h = ground arith
from_seq-append n (c ∷ ds) d es h =
    let above : d.seq < c.seq = before c.seq ds h.1 in
    let other : (c.seq == d.seq) ≡ false = ground arith in
    rw other (from_seq-append c.seq ds d es h.1)
  where
    before : (n : ℕ) (ds : List Dentry) → Below n (ds ++ d ∷ es) → d.seq < n
    before n [] h = h.0
    before n (c ∷ ds) h = omega (arith, before c.seq ds h.1, h.0)
