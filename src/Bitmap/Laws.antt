-- ===== src/Bitmap/Laws.antt =====
-- include/franklin/bitmap.h: `bitmap_set` and `bitmap_reset` change one bit and no other.
use franklin.Base.{
  ℕ, zero, suc, ◌-◌, ◌*◌, ◌/◌, ◌%◌, ◌^◌, ◌≤◌, ◌<◌, ◌≡◌, refl, ◌≢◌, Bool, true, false, [], ◌∷◌,
  arith, ◌==◌, lt→ltb, if◌then◌else◌, length, set, length-set, bit_and, bit_or, ok, fault, ap,
  ==_iff, ◌∙◌, dec_lt, ltb, replicate,
}
use mathlib.Core.Path.{subst}
use franklin.Base.Bits.{bit, bit-lt, bit-bit_or, bit-bit_and, bit-pow, bit_and-pow, bit-zero}
use franklin.Text.{Buffer, read, write}
use franklin.Bitmap.{bitmap_test, bitmap_set, bitmap_reset}
use native.Mathlib.Nat.{one-le-pow}

-- The byte at an index, 0 behind the end.
abbrev byte : Buffer → ℕ → ℕ
byte [] i = 0
byte (b ∷ bm) zero = b
byte (b ∷ bm) (suc i) = byte bm i

byte-set :
    (bm : Buffer) (i j v : ℕ)
    → i < length bm
    → byte (set bm i v) j ≡ (if i == j then v else byte bm j)
byte-set [] i j v h = absurd (omega arith)
byte-set (b ∷ bm) zero zero v h = refl
byte-set (b ∷ bm) zero (suc j) v h = ground arith
byte-set (b ∷ bm) (suc i) zero v h = ground arith
byte-set (b ∷ bm) (suc i) (suc j) v h = ground (arith, byte-set bm i j v)

read-byte : (bm : Buffer) (i : ℕ) → i < length bm → read bm i ≡ ok (byte bm i)
unfolding read
read-byte [] i h = absurd (omega arith)
read-byte (b ∷ bm) zero h = refl
read-byte (b ∷ bm) (suc i) h = read-byte bm i (omega arith)

read-fault : (bm : Buffer) (i : ℕ) → length bm ≤ i → read bm i ≡ fault
unfolding read
read-fault [] i h = refl
read-fault (b ∷ bm) zero h = absurd (omega arith)
read-fault (b ∷ bm) (suc i) h = read-fault bm i (omega arith)

-- Whether page `i` is marked as used; pages behind the bitmap are not.
unfoldable pub used : Buffer → ℕ → Bool
used bm i = bit (byte bm (i / 8)) (i % 8) == 1

-- The number of pages that a bitmap describes.
abbrev pub pages_of : Buffer → ℕ
pages_of bm = 8 * length bm

mul-eq-zero : (x p : ℕ) → x < 2 → 1 ≤ p → (x * p == 0) ≡ (x == 0)
mul-eq-zero zero p h k = ground arith
mul-eq-zero (suc zero) p h k = ground arith
mul-eq-zero (suc (suc x)) p h k = absurd (omega arith)

mask-nonzero : (b k : ℕ) → (bit b k * 2 ^ k == 0) ≡ (bit b k == 0)
mask-nonzero b k = mul-eq-zero (bit b k) (2 ^ k) (bit-lt b k) (one-le-pow k 2 (omega arith))

write-set : (bm : Buffer) (i v : ℕ) → i < length bm → write bm i v ≡ ok (set bm i v)
unfolding write
write-set bm i v h = rw (lt→ltb _ _ h)

-- Inside the bitmap, testing a bit tells whether its page is marked as used.
pub bitmap_test-used : (bm : Buffer) (i : ℕ) → i < pages_of bm → bitmap_test bm i ≡ ok (used bm i)
unfolding bitmap_test used
bitmap_test-used bm i h =
    rw (read-byte bm (i / 8) (omega arith), bit_and-pow (byte bm (i / 8)) (i % 8), mask-nonzero)
      (ap ok (ground (arith, bit-lt (byte bm (i / 8)) (i % 8))))

pub bitmap_test-fault : (bm : Buffer) (i : ℕ) → pages_of bm ≤ i → bitmap_test bm i ≡ fault
unfolding bitmap_test
bitmap_test-fault bm i h = rw (read-fault bm (i / 8) (omega arith))

-- What a change of one bit makes of a bitmap.
pub record Marks (bm : Buffer) (i : ℕ) (b : Bool) (bm' : Buffer) : Type 0 where
  pub size : length bm' ≡ length bm
  pub bits : (j : ℕ) → used bm' j ≡ (if j == i then b else used bm j)

set_bits :
    (bm : Buffer) (i j v : ℕ)
    → i / 8 < length bm
    → (j ≢ i → j / 8 ≡ i / 8 → bit v (j % 8) ≡ bit (byte bm (i / 8)) (j % 8))
    → used (set bm (i / 8) v) j ≡ (if j == i then bit v (i % 8) == 1 else used bm j)
unfolding used
set_bits bm i j v h same = ground (arith, byte-set bm (i / 8) (j / 8) v h)

-- The mask of `bitmap_reset`, checked at each of the eight bits.
mask_ok : ℕ → ℕ → Bool
mask_ok k j = bit (255 - 2 ^ k) j == (if k == j then 0 else 1)

holds_to : (ℕ → Bool) → ℕ → Bool
holds_to p zero = true
holds_to p (suc n) = if p n then holds_to p n else false

holds_to_at : (p : ℕ → Bool) (n x : ℕ) → x < n → holds_to p n ≡ true → p x ≡ true
unfolding holds_to
holds_to_at p zero x lt h = absurd (omega arith)
holds_to_at p (suc n) x lt h = ground (arith, holds_to_at p n x)

mask_table : holds_to (λ k. holds_to (mask_ok k) 8) 8 ≡ true
unfolding holds_to mask_ok bit
mask_table = refl

bit-mask : (k j : ℕ) → k < 8 → j < 8 → bit (255 - 2 ^ k) j ≡ (if k == j then 0 else 1)
unfolding mask_ok
bit-mask k j hk hj =
    (==_iff _ _).0
      (holds_to_at (mask_ok k) 8 j hj (holds_to_at (λ k. holds_to (mask_ok k) 8) 8 k hk mask_table))

module _ (bm : Buffer) (i : ℕ) (h : i < pages_of bm) where
  abbrev old : ℕ
  old = byte bm (i / 8)

  put-Marks :
      (b : Bool) (v : ℕ)
      → (bit v (i % 8) == 1) ≡ b
      → ((k : ℕ) → k < 8 → k ≢ i % 8 → bit v k ≡ bit old k)
      → Marks bm i b (set bm (i / 8) v)
  put-Marks b v here others = record {
    size = length-set bm (i / 8) v;
    bits = λ j.
        set_bits bm i j v (omega arith)
          (λ ne e. others (j % 8) (omega arith) (λ k. ne (omega arith)))
        ∙ ap (λ c. if j == i then c else used bm j) here;
  }

  -- Setting the bit of a page that the bitmap describes marks this page as used and no other.
  pub bitmap_set-Marks : (bm' : Buffer) × (bitmap_set bm i ≡ ok bm') × Marks bm i true bm'
  unfolding bitmap_set
  bitmap_set-Marks =
      let new : ℕ = bit_or old (2 ^ (i % 8)) in
      (
        set bm (i / 8) new,
        rw (read-byte bm (i / 8) (omega arith)) (write-set bm (i / 8) new (omega arith)),
        put-Marks true new
            (ground (
              arith,
              bit-bit_or old (2 ^ (i % 8)) (i % 8),
              bit-pow (i % 8) (i % 8),
              bit-lt old (i % 8),
            ))
            (λ k lt ne.
              ground (arith, bit-bit_or old (2 ^ (i % 8)) k, bit-pow (i % 8) k, bit-lt old k)),
      )

  -- Resetting it marks this page as free and no other.
  pub bitmap_reset-Marks : (bm' : Buffer) × (bitmap_reset bm i ≡ ok bm') × Marks bm i false bm'
  unfolding bitmap_reset
  bitmap_reset-Marks =
      let new : ℕ = bit_and old (255 - 2 ^ (i % 8)) in
      (
        set bm (i / 8) new,
        rw (read-byte bm (i / 8) (omega arith)) (write-set bm (i / 8) new (omega arith)),
        put-Marks false new
            (ground (
              arith,
              bit-bit_and old (255 - 2 ^ (i % 8)) (i % 8),
              bit-mask (i % 8) (i % 8),
              bit-lt old (i % 8),
            ))
            (λ k lt ne.
              ground
                (arith, bit-bit_and old (255 - 2 ^ (i % 8)) k, bit-mask (i % 8) k, bit-lt old k)),
      )

bitmap_reset-fault : (bm : Buffer) (i : ℕ) → pages_of bm ≤ i → bitmap_reset bm i ≡ fault
unfolding bitmap_reset
bitmap_reset-fault bm i h = rw (read-fault bm (i / 8) (omega arith))

-- A reset that succeeds was inside the bitmap.
pub bitmap_reset-ok : (bm bm' : Buffer) (i : ℕ) → bitmap_reset bm i ≡ ok bm' → Marks bm i false bm'
bitmap_reset-ok bm bm' i e = elim (dec_lt i (pages_of bm)) [
  | yes lt ↦
      (let (mid, e', m) = bitmap_reset-Marks bm i lt in
        let same : mid ≡ bm' = ground (arith, e, e') in subst (Marks bm i false) same m)
  | no ge ↦ absurd (outside (omega arith))
]
  where
    outside : pages_of bm ≤ i → ⊥
    outside ge = let gone : bitmap_reset bm i ≡ fault = bitmap_reset-fault bm i ge in cc

bit-full : (k : ℕ) → k < 8 → bit 255 k ≡ 1
unfolding bit holds_to
bit-full k h = (==_iff _ _).0 (holds_to_at (λ k. bit 255 k == 1) 8 k h full_table)
  where
    full_table : holds_to (λ k. bit 255 k == 1) 8 ≡ true
    full_table = refl

byte-replicate : (n v i : ℕ) → byte (replicate n v) i ≡ (if ltb i n then v else 0)
byte-replicate zero v i = ground arith
byte-replicate (suc n) v zero = ground arith
byte-replicate (suc n) v (suc i) = ground (arith, byte-replicate n v i)

-- In a bitmap of bytes 0xff every page is used.
pub used-replicate : (n j : ℕ) → used (replicate n 0xff) j ≡ ltb j (8 * n)
unfolding used
used-replicate n j =
    rw (byte-replicate n 0xff (j / 8)) (ground (arith, bit-full (j % 8), bit-zero (j % 8)))
