-- ===== src/Fs/Ramfs/Data/Files.antt =====
-- fs/vfs.c and fs/ramfs/ramfs.c: `vfs_write` and `vfs_read` of a file of the memory file system.
use franklin.Base.{
  int_of, ◌<◌, ◌^◌, ◌%◌, refl, lt→ltb, ℕ, ◌≤◌, ◌≡◌, arith, true, false, Option, some, ◌++◌, take,
  drop, length, pos, ok,
}
use franklin.Text.{Buffer}
use franklin.Fs.State.{Ptr, Vnode, update, is_dir, get_vnode, put_vnode}
use franklin.Fs.Locks.{acquire, release}
use franklin.Fs.Vfs.Files.{vfs_read, vfs_write}
use franklin.Fs.Ramfs.Table.{ram_ops}
use franklin.Fs.Ramfs.Store.{
  Payload, Ramnode, State, get_node, put_node, lock_node, unlock_node, file_of,
}
use franklin.Fs.Ramfs.Data.{ramfs_write, ramfs_read}
use franklin.Fs.Ramfs.Data.Laws.{IsFile, read_file-write_file}

int_of-small : (n : ℕ) → n < 2 ^ 31 → int_of n ≡ pos n
int_of-small n h = let e : n % 2 ^ 32 ≡ n = omega arith in rw (e, lt→ltb n (2 ^ 31) h) refl

module _ (vn : Ptr) (buf out : Buffer) (offset count : ℕ) (s : State) (v : Vnode) (n : Ramnode)
    (bytes : Option Buffer) (size : ℕ) where
  -- `vfs_write` of `count` bytes and then `vfs_read` of the same range, on a regular file that
  -- nobody has locked, for fewer than 2 ^ 31 bytes, and whose size is the length of its bytes:
  -- both succeed, the bytes come back at the front of the reader's buffer, and their number is
  -- returned.
  pub vfs_read-vfs_write :
      s.vnodes vn ≡ some v
      → v.lock ≡ false
      → is_dir v.kind ≡ false
      → s.disk.nodes v.node ≡ some n
      → n.ramlock ≡ false
      → n.payload ≡ Payload.reg bytes size
      → IsFile bytes size
      → count < 2 ^ 31
      → count ≤ length buf
      → count ≤ length out
      → (t u : State) × (vfs_write ram_ops vn buf offset count s ≡ ok (pos 0, t))
        × (vfs_read ram_ops vn out offset count t
            ≡ ok ((pos count, take count buf ++ drop count out), u))
  unfolding vfs_write vfs_read ram_ops ramfs_write ramfs_read get_vnode get_node put_node lock_node
      unlock_node file_of acquire release put_vnode
  vfs_read-vfs_write at' open' plain here unlocked file h small fits fits_out =
      let (b, m, written, isf, back) =
        read_file-write_file bytes size buf out offset count h fits fits_out in
      let node = record n { payload = Payload.reg (some b) m } in
      let a = v.node in
      let d =
        update
          (update (update s.disk.nodes a (some (record n { ramlock = true }))) a
            (some (record node { ramlock = true })))
          a (some (record node { ramlock = false })) in
      let d' =
        update (update d a (some (record node { ramlock = true }))) a
          (some (record node { ramlock = false })) in
      let vs =
        update (update s.vnodes vn (some (record v { lock = true }))) vn
          (some (record v { lock = false })) in
      let vs' =
        update (update vs vn (some (record v { lock = true }))) vn
          (some (record v { lock = false })) in
      (
        record s { vnodes = vs; disk = record (s.disk) { nodes = d } },
        record s { vnodes = vs'; disk = record (s.disk) { nodes = d' } },
        ground (arith, written),
        ground (arith, back, int_of-small count small),
      )
