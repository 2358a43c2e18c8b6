-- ===== src/Base/Bits.antt =====
-- Single bits of a number, and what the native bit operations do to them, at every width.
pub mod Masks
use Prim.Native.Nat.{
  ℕ, zero, suc, ◌+◌, ◌*◌, ◌/◌, ◌%◌, ◌^◌, ◌≤◌, ◌<◌, min, max, ◌-◌, bit_and, bit_or, digits, bitwise,
  bit_and-bitwise, bit_or-bitwise,
}
use mathlib.Core.Path.{◌≡◌, refl, ap, ◌∙◌}
use native.Mathlib.Nat.{le_refl, pow-suc}
use native.Mathlib.Omega.{arith}
use franklin.Base.Tests.{◌==◌, if◌then◌else◌}

-- Bit `k` of `x`.
unfoldable pub bit : ℕ → ℕ → ℕ
bit x zero = x % 2
bit x (suc k) = bit (x / 2) k

pub bit-lt : (x k : ℕ) → bit x k < 2
unfolding bit
bit-lt x zero = omega arith
bit-lt x (suc k) = bit-lt (x / 2) k

-- The native operations stand for a recursion on binary digits, whose fuel is their first
-- argument. Rounds that are not needed change nothing.
module _ (last : ℕ → ℕ) (both : ℕ → ℕ → ℕ) where
  digits-suc :
      (fuel x y : ℕ) → x ≤ fuel → digits last both (suc fuel) x y ≡ digits last both fuel x y
  digits-suc zero zero y enough = refl
  digits-suc (suc fuel) zero y enough = refl
  digits-suc zero (suc x) y enough = absurd (omega arith)
  digits-suc (suc fuel) (suc x) y enough = rw (digits-suc fuel (suc x / 2) (y / 2) (omega arith))

  digits-more :
      (spare fuel x y : ℕ)
      → x ≤ fuel
      → digits last both (spare + fuel) x y ≡ digits last both fuel x y
  digits-more zero fuel x y enough = (let e : 0 + fuel ≡ fuel = omega arith in rw e)
  digits-more (suc spare) fuel x y enough =
      let one : digits last both (suc (spare + fuel)) x y ≡ digits last both (spare + fuel) x y =
        digits-suc (spare + fuel) x y (omega arith) in
      let e : suc spare + fuel ≡ suc (spare + fuel) = omega arith in
      rw e (one ∙ digits-more spare fuel x y enough)

  pub bitwise-halves :
      (x y : ℕ)
      → bitwise last both (suc x) y
        ≡ both (suc x % 2) (y % 2) + bitwise last both (suc x / 2) (y / 2) * 2
  bitwise-halves x y =
      let half : ℕ = suc x / 2 in
      let e : x - half + half ≡ x = omega arith in
      let fewer : digits last both x half (y / 2) ≡ digits last both half half (y / 2) =
        rw e at (digits-more (x - half) half half (y / 2) (le_refl half)) in
      omega (arith, fewer)

pub bit_or-halves : (x y : ℕ) → bit_or x y ≡ max (x % 2) (y % 2) + bit_or (x / 2) (y / 2) * 2
bit_or-halves x y = simp bit_or-bitwise (go x)
  where
    go :
        (x : ℕ)
        → bitwise (λ t. t) max x y ≡ max (x % 2) (y % 2) + bitwise (λ t. t) max (x / 2) (y / 2) * 2
    go zero = omega arith
    go (suc x) = bitwise-halves (λ t. t) max x y

pub bit_and-halves : (x y : ℕ) → bit_and x y ≡ min (x % 2) (y % 2) + bit_and (x / 2) (y / 2) * 2
bit_and-halves x y = simp bit_and-bitwise (go x)
  where
    go :
        (x : ℕ)
        → bitwise (λ t. 0) min x y ≡ min (x % 2) (y % 2) + bitwise (λ t. 0) min (x / 2) (y / 2) * 2
    go zero = omega arith
    go (suc x) = bitwise-halves (λ t. 0) min x y

pub bit-bit_or : (a b k : ℕ) → bit (bit_or a b) k ≡ max (bit a k) (bit b k)
unfolding bit
bit-bit_or a b zero = omega (arith, bit_or-halves a b)
bit-bit_or a b (suc k) =
    let half : bit_or a b / 2 ≡ bit_or (a / 2) (b / 2) = omega (arith, bit_or-halves a b) in
    rw half (bit-bit_or (a / 2) (b / 2) k)

pub bit-bit_and : (a b k : ℕ) → bit (bit_and a b) k ≡ min (bit a k) (bit b k)
unfolding bit
bit-bit_and a b zero = omega (arith, bit_and-halves a b)
bit-bit_and a b (suc k) =
    let half : bit_and a b / 2 ≡ bit_and (a / 2) (b / 2) = omega (arith, bit_and-halves a b) in
    rw half (bit-bit_and (a / 2) (b / 2) k)

pub bit-zero : (k : ℕ) → bit 0 k ≡ 0
unfolding bit
bit-zero zero = refl
bit-zero (suc k) = bit-zero k

pub bit-pow : (k j : ℕ) → bit (2 ^ k) j ≡ (if k == j then 1 else 0)
unfolding bit
bit-pow zero zero = refl
bit-pow zero (suc j) = ground (arith, bit-zero j)
bit-pow (suc k) zero = ground (arith, pow-suc 2 k)
bit-pow (suc k) (suc j) =
    let half : 2 ^ suc k / 2 ≡ 2 ^ k = omega (arith, pow-suc 2 k) in
    rw half (ground (arith, bit-pow k j))

bit_and-zero : (x bound : ℕ) → x ≤ bound → bit_and x 0 ≡ 0
bit_and-zero zero bound h = refl
bit_and-zero (suc x) zero h = absurd (omega arith)
bit_and-zero (suc x) (suc bound) h =
    let ih : bit_and (suc x / 2) 0 ≡ 0 = bit_and-zero (suc x / 2) bound (omega arith) in
    omega (arith, ih, bit_and-halves (suc x) 0)

bit_and-one : (a : ℕ) → bit_and a 1 ≡ a % 2
bit_and-one a = omega (arith, bit_and-halves a 1, bit_and-zero (a / 2) (a / 2) (le_refl _))

-- A mask of one bit.
pub bit_and-pow : (x k : ℕ) → bit_and x (2 ^ k) ≡ bit x k * 2 ^ k
unfolding bit
bit_and-pow x zero = omega (arith, bit_and-one x)
bit_and-pow x (suc k) =
    let step : bit_and x (2 ^ suc k) ≡ bit_and (x / 2) (2 ^ k) * 2 =
      bit_and-halves x (2 ^ suc k) ∙ ground (arith, pow-suc 2 k) in
    omega (
      arith,
      step,
      bit_and-pow (x / 2) k,
      pow-suc 2 k,
      ap (λ (t : ℕ). bit (x / 2) k * t) (pow-suc 2 k),
    )
