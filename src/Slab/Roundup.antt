-- ===== src/Slab/Roundup.antt =====
-- kernel/slab.c, `roundup`, on the sizes that `kalloc` rounds up.
use franklin.Base.{
  ℕ, zero, suc, ◌+◌, ◌*◌, ◌^◌, ◌≤◌, ◌<◌, ◌≡◌, refl, Bool, true, false, ◌&&◌, ◌||◌, arith, ◌==◌, ltb,
  leb, if◌then◌else◌, Bool-cases, ==_iff, inl, inr,
}
use franklin.Slab.{roundup}

-- Whether a number is one of the powers of two up to 4096.
abbrev is_power : ℕ → ℕ → Bool
is_power zero m = m == 1
is_power (suc k) m = m == 2 ^ suc k || is_power k m

-- What the table below checks of one size.
fits : ℕ → Bool
fits n = is_power 12 (roundup n) && (leb n (roundup n) && ltb (roundup n) (2 * n))

all_from : ℕ → ℕ → (ℕ → Bool) → Bool
all_from zero i p = true
all_from (suc left) i p = if p i then all_from left (i + 1) p else false

all_from_at :
    (left i : ℕ) (p : ℕ → Bool) (x : ℕ)
    → i ≤ x
    → x < i + left
    → all_from left i p ≡ true
    → p x ≡ true
unfolding all_from
all_from_at zero i p x le lt h = absurd (omega arith)
all_from_at (suc left) i p x le lt h = ground (arith, all_from_at left (i + 1) p x)

size_table : all_from 4096 1 fits ≡ true
unfolding all_from fits roundup
size_table = refl

is_power_lem : (k m : ℕ) → is_power k m ≡ true → (j : ℕ) × (m ≡ 2 ^ j)
is_power_lem zero m h = (0, ground arith)
is_power_lem (suc k) m h = elim (Bool-cases (m == 2 ^ suc k)) [
  | inl here ↦ (suc k, (==_iff _ _).0 here)
  | inr other ↦ is_power_lem k m (rw other at h)
]

-- On the sizes up to a page `roundup` gives the power of two that is not below the size and below
-- its double.
pub roundup-pow :
    (n : ℕ)
    → 1 ≤ n
    → n ≤ 4096
    → ((k : ℕ) × (roundup n ≡ 2 ^ k)) × (n ≤ roundup n) × (roundup n < 2 * n)
unfolding fits
roundup-pow n low high =
    let ok' : fits n ≡ true = all_from_at 4096 1 fits n low (omega arith) size_table in
    (is_power_lem 12 (roundup n) (ground (arith, ok')), ground (arith, ok'), ground (arith, ok'))
