-- ===== src/Initramfs/Vfs.antt =====
-- fs/ramfs/initramfs.c: the walk over the calls of fs/vfs.c.
use franklin.Base.{ℕ, pure, ◌>>=◌}
use franklin.Fs.State.{Vtype, Fs}
use franklin.Fs.Ops.{Ops}
use franklin.Fs.Vfs.Close.{vfs_close}
use franklin.Fs.Vfs.Files.{vfs_create, vfs_write}
use franklin.Initramfs.Walk.{Calls}

-- The walk looks at `*vpp` only, not at the results.
unfoldable pub vfs_calls : {D : Type 0} → Ops D → (rounds junk : ℕ) → Calls (Fs D)
unfolding vfs_create vfs_write vfs_close
vfs_calls ops rounds junk = record {
  create = λ name vpp. vfs_create ops rounds junk name vpp Vtype.vreg >>= λ r. pure r.1;
  write_all = λ vn buf size. vfs_write ops vn buf 0 size >>= λ r. pure tt;
  close = λ vn. vfs_close ops vn;
}
