-- ===== src/Initramfs/Walk.antt =====
-- fs/ramfs/initramfs.c, `initramfs`: the walk over the archive. The archive is the list of its
-- bytes; an access behind it is a fault.
use franklin.Base.{
  ℕ, zero, suc, ◌+◌, ◌-◌, ◌*◌, ◌/◌, ◌%◌, ◌^◌, [], ◌∷◌, drop, ◌==◌, if◌then◌else◌, not, is_zero,
  panicked, out_of_fuel, Cmd, pure, Option, none, some, lift, ◌>>=◌, ◌>>◌,
}
use franklin.Text.{Buffer, read, strcpy, strncmp}
use franklin.Initramfs.{oct2int}

-- The calls of fs/vfs.c that the walk makes: `vfs_create` of a regular file, which gets `*vpp` and
-- gives the new one, `vfs_write` at offset 0, and `vfs_close`.
pub record Calls (S : Type 0) : Type 0 where
  pub create : Buffer → ℕ → Cmd S ℕ
  pub write_all : ℕ → Buffer → ℕ → Cmd S (Unit {0})
  pub close : ℕ → Cmd S (Unit {0})

abbrev pub ustar : Buffer
ustar = b'u' ∷ b's' ∷ b't' ∷ b'a' ∷ b'r' ∷ 0 ∷ []

-- `ALIGN_UP(size, TAR_HEADER_SIZE)`
unfoldable pub align_up : ℕ → ℕ
align_up size = (size + 512 + (2 ^ 64 - 1)) % 2 ^ 64 / 512 * 512 % 2 ^ 64

module _ {S : Type 0} (calls : Calls S) where
  -- The `switch`, for a file with a header of type `kind`; the cases of links and directories
  -- are empty. The result is `vn`.
  unfoldable pub unpack : (kind : ℕ) (file name : Buffer) (size vn : ℕ) → Cmd S ℕ
  unpack kind file name size vn = if not (kind == b'0') then pure vn else do
    vn' ← calls.create name vn
    if vn' == 0 then lift panicked else (calls.write_all vn' (drop 512 file) size >> pure vn')

  -- The loop. `tail` is the array `name` from its second byte on.
  unfoldable pub walk : (rounds : ℕ) (file tail : Buffer) (vn : ℕ) → Cmd S (Unit {0})
  unfolding strncmp strcpy oct2int read align_up
  walk zero file tail vn = lift out_of_fuel
  walk (suc rounds) file tail vn = do
    c ← lift (strncmp (drop 257 file) ustar 5)
    if not (is_zero c) then pure tt else do
      tail' ← lift (strcpy tail file)
      size ← lift (oct2int (drop 124 file) 12)
      kind ← lift (read (drop 156 file) 0)
      vn' ← unpack kind file (b'/' ∷ tail') size vn
      calls.close vn'
      walk rounds (drop (512 + align_up size) file) tail' vn'

  -- The first of the modules, `none` if there is none. The array and `vn` begin with what the
  -- stack holds.
  unfoldable pub initramfs :
      (rounds : ℕ) → Option Buffer → (tail : Buffer) (vn : ℕ) → Cmd S (Unit {0})
  unfolding walk
  initramfs rounds none tail vn = lift panicked
  initramfs rounds (some file) tail vn = walk rounds file tail vn
