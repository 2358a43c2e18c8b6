-- ===== src/Fs/Ramfs/Data.antt =====
-- fs/ramfs/ramfs.c: `ramfs_write` and `ramfs_read`. The bytes of a fresh block that no write has
-- reached yet are zeros here; in the kernel they are what the block held before.
pub mod Laws
pub mod Files
use franklin.Base.{
  int_of, ℕ, zero, suc, ◌+◌, ◌*◌, leb, ltb, if◌then◌else◌, Option, none, some, [], ◌++◌, take, drop,
  replicate, ℤ, pos, Run, ok, out_of_fuel, and_then, Cmd, pure, lift, ◌>>=◌, ◌>>◌,
}
use franklin.Text.{Buffer, memcpy}
use franklin.Fs.Errors.{einval}
use franklin.Fs.State.{Ptr, get_vnode}
use franklin.Fs.Ramfs.Store.{Payload, State, get_node, put_node, lock_node, unlock_node, file_of}

-- `while (need >= newsize) newsize *= 2;`
unfoldable pub grow : ℕ → ℕ → ℕ → Run ℕ
grow zero need newsize = out_of_fuel
grow (suc fuel) need newsize =
    let rest = grow fuel need (newsize * 2) in if leb newsize need then rest else ok newsize

unfoldable pub bytes_of : Option Buffer → Buffer
bytes_of none = []
bytes_of (some b) = b

-- Room for the bytes up to `need`, with the old contents in front.
unfoldable pub make_room : Option Buffer → ℕ → ℕ → Run (Buffer × ℕ)
unfolding grow bytes_of memcpy
make_room bytes size need =
    if leb size need
    then and_then (grow (suc need) need (size + 1)) (λ newsize.
      and_then (memcpy (replicate newsize 0) (bytes_of bytes) size) (λ b. ok (b, newsize)))
    else ok (bytes_of bytes, size)

unfoldable pub write_file : Option Buffer → ℕ → Buffer → ℕ → ℕ → Run (Buffer × ℕ)
unfolding make_room memcpy
write_file bytes size buf offset count =
    and_then (make_room bytes size (offset + count)) (λ r.
      and_then (memcpy (drop offset r.0) buf count) (λ tail. ok (take offset r.0 ++ tail, r.1)))

-- The result is the number of bytes, cut to an `int`, or an error, and the caller's buffer.
unfoldable pub read_file : Option Buffer → ℕ → Buffer → ℕ → ℕ → Run (ℤ × Buffer)
unfolding memcpy
read_file bytes size buf offset count =
    if ltb size (offset + count) then ok (einval, buf) else elim bytes [
      | none ↦ ok (pos 0, buf)
      | some b ↦ and_then (memcpy buf (drop offset b) count) (λ buf'. ok (int_of count, buf'))
    ]

unfoldable pub ramfs_write : Ptr → Buffer → ℕ → ℕ → Cmd State ℤ
unfolding get_vnode get_node put_node lock_node unlock_node file_of write_file
ramfs_write vn buf offset count = do
  v ← get_vnode vn
  lock_node v.node
  n ← get_node v.node
  f ← lift (file_of n.payload)
  g ← lift (write_file f.0 f.1 buf offset count)
  put_node v.node (record n { payload = Payload.reg (some g.0) g.1 })
  unlock_node v.node
  pure (pos 0)

unfoldable pub ramfs_read : Ptr → Buffer → ℕ → ℕ → Cmd State (ℤ × Buffer)
unfolding get_vnode get_node lock_node unlock_node file_of read_file
ramfs_read vn buf offset count = do
  v ← get_vnode vn
  lock_node v.node
  n ← get_node v.node
  f ← lift (file_of n.payload)
  r ← lift (read_file f.0 f.1 buf offset count)
  unlock_node v.node
  pure r
