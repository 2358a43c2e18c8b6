-- ===== src/Exec/Words.antt =====
-- Words of eight bytes in a memory of bytes, with the lowest byte first, as the processor keeps
-- them.
use franklin.Base.{
  ℕ, zero, suc, ◌+◌, ◌*◌, ◌/◌, ◌%◌, ◌^◌, ◌≤◌, ◌<◌, ◌≡◌, refl, ◌⊎◌, arith, ◌==◌, if◌then◌else◌, ap₂,
}
use native.Mathlib.Nat.{pow-suc}

abbrev pub Memory : Type 0
Memory = ℕ → ℕ

abbrev pub put_byte : ℕ → ℕ → Memory → Memory
put_byte a c m b = if a == b then c else m b

store_bytes : ℕ → ℕ → ℕ → Memory → Memory
store_bytes zero a w m = m
store_bytes (suc n) a w m = put_byte a (w % 256) (store_bytes n (a + 1) (w / 256) m)

unfoldable pub load_bytes : ℕ → ℕ → Memory → ℕ
load_bytes zero a m = 0
load_bytes (suc n) a m = m a + 256 * load_bytes n (a + 1) m

unfoldable pub store_word : ℕ → ℕ → Memory → Memory
unfolding store_bytes
store_word a w m = store_bytes 8 a w m

unfoldable pub load_word : ℕ → Memory → ℕ
unfolding load_bytes
load_word a m = load_bytes 8 a m

store_bytes-outside :
    (n a w : ℕ) (m : Memory) (b : ℕ) → (b < a) ⊎ (a + n ≤ b) → store_bytes n a w m b ≡ m b
unfolding store_bytes
store_bytes-outside zero a w m b h = refl
store_bytes-outside (suc n) a w m b h =
    ground (arith, store_bytes-outside n (a + 1) (w / 256) m b, h)

load_bytes-same :
    (n a : ℕ) (m m' : Memory)
    → ((b : ℕ) → a ≤ b → b < a + n → m' b ≡ m b)
    → load_bytes n a m' ≡ load_bytes n a m
unfolding load_bytes
load_bytes-same zero a m m' h = refl
load_bytes-same (suc n) a m m' h =
    ap₂ (λ x y. x + 256 * y) (h a (omega arith) (omega arith))
      (load_bytes-same n (a + 1) m m' (λ b le lt. h b (omega arith) (omega arith)))

load-store_bytes : (n a w : ℕ) (m : Memory) → w < 256 ^ n → load_bytes n a (store_bytes n a w m) ≡ w
unfolding store_bytes load_bytes
load-store_bytes zero a w m h = omega arith
load-store_bytes (suc n) a w m h =
    let rest = store_bytes n (a + 1) (w / 256) m in
    let low : put_byte a (w % 256) rest a ≡ w % 256 = ground arith in
    let high : load_bytes n (a + 1) (put_byte a (w % 256) rest) ≡ load_bytes n (a + 1) rest =
      load_bytes-same n (a + 1) rest (put_byte a (w % 256) rest) (λ b le lt. ground arith) in
    let ih = load-store_bytes n (a + 1) (w / 256) m (omega (arith, pow-suc 256 n)) in
    omega (arith, low, high, ih)

module _ (a w : ℕ) (m : Memory) where
  pub store_word-outside : (b : ℕ) → (b < a) ⊎ (a + 8 ≤ b) → store_word a w m b ≡ m b
  unfolding store_word
  store_word-outside b h = store_bytes-outside 8 a w m b h

  pub load_word-store_word : w < 2 ^ 64 → load_word a (store_word a w m) ≡ w
  unfolding load_word store_word
  load_word-store_word h = load-store_bytes 8 a w m h

pub load_word-same :
    (a : ℕ) (m m' : Memory)
    → ((b : ℕ) → a ≤ b → b < a + 8 → m' b ≡ m b)
    → load_word a m' ≡ load_word a m
unfolding load_word
load_word-same a m m' h = load_bytes-same 8 a m m' h
