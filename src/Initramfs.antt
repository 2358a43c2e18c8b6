-- ===== src/Initramfs.antt =====
-- fs/ramfs/initramfs.c: the archive that the boot loader passes, and the numbers in its headers.
pub mod Octal
pub mod Walk
pub mod Archive
pub mod Unpack
pub mod Vfs
mod Tests
use franklin.Base.{
  ℕ, zero, suc, ◌+◌, ◌-◌, ◌*◌, ◌%◌, ◌^◌, [], ◌∷◌, ltb, ◌==◌, if◌then◌else◌, Run, ok, fault,
}
use franklin.Text.{Buffer}

-- A `char`, which is signed, converted to a `uint64_t`.
unfoldable pub extend : ℕ → ℕ
extend c = if ltb c 128 then c else c + (2 ^ 64 - 256)

-- `val * 8 + (c - '0')`, in 64 bits.
unfoldable pub add_digit : ℕ → ℕ → ℕ
unfolding extend
add_digit val c = (val * 8 + extend c + (2 ^ 64 - 48)) % 2 ^ 64

-- `*oct` is read before `len` is tested, so the byte behind the field is read too.
unfoldable pub oct_loop : Buffer → ℕ → ℕ → Run ℕ
unfolding add_digit
oct_loop [] len val = fault
oct_loop (c ∷ oct) zero val = ok val
oct_loop (c ∷ oct) (suc len) val = if c == 0 then ok val else oct_loop oct len (add_digit val c)

unfoldable pub oct2int : Buffer → ℕ → Run ℕ
unfolding oct_loop
oct2int oct len = oct_loop oct len 0
