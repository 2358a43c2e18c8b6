-- ===== src/Bitmap.antt =====
-- include/franklin/bitmap.h: one bit of a byte array, and include/franklin/mmu.h: the same
-- bitmap read as 64-bit words. The array is the list of its bytes.
pub mod Laws
use franklin.Base.{
  ℕ, ◌+◌, ◌-◌, ◌*◌, ◌/◌, ◌%◌, ◌^◌, Bool, List, ◌==◌, not, get_elem?, set, bit_and, bit_or, Run, ok,
}
use franklin.Text.{Buffer, ◌>>=◌, read, write}

-- `bitmap8[bit / 8] & (1 << (bit % 8))`, as a `bool`.
unfoldable pub bitmap_test : Buffer → ℕ → Run Bool
unfolding read
bitmap_test bm i = do b ← read bm (i / 8); ok (not (bit_and b (2 ^ (i % 8)) == 0))

unfoldable pub bitmap_set : Buffer → ℕ → Run Buffer
unfolding read write
bitmap_set bm i = do b ← read bm (i / 8); write bm (i / 8) (bit_or b (2 ^ (i % 8)))

-- `~(1 << k)` cut to a byte is `255 - 2 ^ k`.
unfoldable pub bitmap_reset : Buffer → ℕ → Run Buffer
unfolding read write
bitmap_reset bm i = do b ← read bm (i / 8); write bm (i / 8) (bit_and b (255 - 2 ^ (i % 8)))
