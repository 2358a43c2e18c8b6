-- ===== src/Base/Bits/Masks.antt =====
-- Bits above and below a place, and masks of more than one bit.
use Prim.Native.Nat.{
  ℕ, zero, suc, ◌+◌, ◌-◌, ◌*◌, ◌/◌, ◌^◌, ◌≤◌, ◌<◌, ◌%◌, min, max, bit_and, bit_or,
}
use mathlib.Core.Path.{◌≡◌, refl, ◌∙◌, sym}
use native.Mathlib.Nat.{pow-suc, mul_assoc, le_refl, one-le-pow}
use native.Mathlib.Omega.{arith}
use franklin.Base.Bits.{bit_or-halves, bit_and-halves}

times_pow : (a k : ℕ) → a * 2 ^ suc k ≡ a * 2 ^ k * 2
times_pow a k = rw (pow-suc 2 k) (sym (mul_assoc a (2 ^ k) 2))

bit_or-zero : (a bound : ℕ) → a ≤ bound → bit_or a 0 ≡ a
bit_or-zero zero bound h = refl
bit_or-zero (suc a) zero h = absurd (omega arith)
bit_or-zero (suc a) (suc bound) h =
    let ih : bit_or (suc a / 2) 0 ≡ suc a / 2 = bit_or-zero (suc a / 2) bound (omega arith) in
    omega (arith, ih, bit_or-halves (suc a) 0)

-- Numbers whose bits do not meet.
pub bit_or-low : (k a b : ℕ) → b < 2 ^ k → bit_or (a * 2 ^ k) b ≡ a * 2 ^ k + b
bit_or-low zero a b h =
    let none_low : b ≡ 0 = omega arith in
    let whole : a * 2 ^ 0 ≡ a = omega arith in
    rw (none_low, whole) (bit_or-zero a a (le_refl a) ∙ omega arith)
bit_or-low (suc k) a b h =
    let up : a * 2 ^ suc k ≡ a * 2 ^ k * 2 = times_pow a k in
    let half : a * 2 ^ suc k / 2 ≡ a * 2 ^ k = omega (arith, up) in
    let ih : bit_or (a * 2 ^ k) (b / 2) ≡ a * 2 ^ k + b / 2 =
      bit_or-low k a (b / 2) (omega (arith, pow-suc 2 k)) in
    bit_or-halves (a * 2 ^ suc k) b ∙ rw (half, ih) (omega (arith, up))

-- A mask that begins at place `k` does not see the bits below.
pub bit_and-high :
    (k a b m : ℕ) → b < 2 ^ k → bit_and (a * 2 ^ k + b) (m * 2 ^ k) ≡ bit_and a m * 2 ^ k
bit_and-high zero a b m h =
    let left : a * 2 ^ 0 + b ≡ a = omega arith in
    let right : m * 2 ^ 0 ≡ m = omega arith in rw (left, right) (omega arith)
bit_and-high (suc k) a b m h =
    let up : a * 2 ^ suc k ≡ a * 2 ^ k * 2 = times_pow a k in
    let up_m : m * 2 ^ suc k ≡ m * 2 ^ k * 2 = times_pow m k in
    let half : (a * 2 ^ suc k + b) / 2 ≡ a * 2 ^ k + b / 2 = omega (arith, up) in
    let half_m : m * 2 ^ suc k / 2 ≡ m * 2 ^ k = omega (arith, up_m) in
    let ih : bit_and (a * 2 ^ k + b / 2) (m * 2 ^ k) ≡ bit_and a m * 2 ^ k =
      bit_and-high k a (b / 2) m (omega (arith, pow-suc 2 k)) in
    bit_and-halves (a * 2 ^ suc k + b) (m * 2 ^ suc k)
    ∙ rw (half, half_m, ih) (omega (arith, up_m, times_pow (bit_and a m) k))

-- The mask of the lowest `k` bits, on a number that has no others.
pub bit_and-low : (k a : ℕ) → a < 2 ^ k → bit_and a (2 ^ k - 1) ≡ a
bit_and-low zero a h = (let e : a ≡ 0 = omega arith in rw e refl)
bit_and-low (suc k) a h =
    let half : (2 ^ suc k - 1) / 2 ≡ 2 ^ k - 1 = omega (arith, pow-suc 2 k) in
    let ih : bit_and (a / 2) (2 ^ k - 1) ≡ a / 2 =
      bit_and-low k (a / 2) (omega (arith, pow-suc 2 k)) in
    bit_and-halves a (2 ^ suc k - 1)
    ∙ rw (half, ih) (omega (arith, pow-suc 2 k, one-le-pow k 2 (omega arith)))

bit_and-zero : (a bound : ℕ) → a ≤ bound → bit_and a 0 ≡ 0
bit_and-zero zero bound h = refl
bit_and-zero (suc a) zero h = absurd (omega arith)
bit_and-zero (suc a) (suc bound) h =
    let ih : bit_and (suc a / 2) 0 ≡ 0 = bit_and-zero (suc a / 2) bound (omega arith) in
    omega (arith, ih, bit_and-halves (suc a) 0)

distribute :
    (bound a b m : ℕ) → m ≤ bound → bit_and (bit_or a b) m ≡ bit_or (bit_and a m) (bit_and b m)
distribute bound a b zero h =
    rw
      (
        bit_and-zero (bit_or a b) _ (le_refl _),
        bit_and-zero a _ (le_refl _),
        bit_and-zero b _ (le_refl _),
      )
      refl
distribute zero a b (suc m) h = absurd (omega arith)
distribute (suc bound) a b (suc m) h =
    let half : bit_or a b / 2 ≡ bit_or (a / 2) (b / 2) = omega (arith, bit_or-halves a b) in
    let x : bit_and a (suc m) / 2 ≡ bit_and (a / 2) (suc m / 2) =
      omega (arith, bit_and-halves a (suc m)) in
    let y : bit_and b (suc m) / 2 ≡ bit_and (b / 2) (suc m / 2) =
      omega (arith, bit_and-halves b (suc m)) in
    let ih = distribute bound (a / 2) (b / 2) (suc m / 2) (omega arith) in
    let whole : bit_and (bit_or a b) (suc m)
        ≡ min (bit_or a b % 2) (suc m % 2) + bit_and (bit_or (a / 2) (b / 2)) (suc m / 2) * 2 =
      rw (sym half) (bit_and-halves (bit_or a b) (suc m)) in
    let parts : bit_or (bit_and a (suc m)) (bit_and b (suc m))
        ≡ max (bit_and a (suc m) % 2) (bit_and b (suc m) % 2)
          + bit_or (bit_and (a / 2) (suc m / 2)) (bit_and (b / 2) (suc m / 2)) * 2 =
      rw (sym x, sym y) (bit_or-halves (bit_and a (suc m)) (bit_and b (suc m))) in
    omega (
      arith,
      ih,
      whole,
      parts,
      bit_or-halves a b,
      bit_and-halves a (suc m),
      bit_and-halves b (suc m),
    )

-- A mask on the bits of two numbers.
pub bit_and-bit_or : (a b m : ℕ) → bit_and (bit_or a b) m ≡ bit_or (bit_and a m) (bit_and b m)
bit_and-bit_or a b m = distribute m a b m (le_refl m)

pub bit_or_zero : (a : ℕ) → bit_or a 0 ≡ a
bit_or_zero a = bit_or-zero a a (le_refl a)
