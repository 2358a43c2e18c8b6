-- ===== src/Fs/Vfs/Dirs.antt =====
-- fs/vfs.c: making and removing directories.
use franklin.Base.{
  ℕ, not, ◌==◌, if◌then◌else◌, bit_and, ℤ, is_zero, int_eq, Cmd, pure, lift, ◌>>=◌, ◌>>◌,
}
use franklin.Text.{Buffer, read}
use franklin.Fs.Errors.{enoent, einval, enotdir, ebusy, eexist}
use franklin.Fs.State.{Ptr, Fs, is_dir, vroot, get_vnode}
use franklin.Fs.Locks.{acquire}
use franklin.Fs.Ops.{Ops}
use franklin.Fs.Vfs.Close.{vput, vrele}
use franklin.Fs.Vfs.Namei.{namei}
use franklin.Fs.Vfs.Files.{put_if}

module _ {D : Type 0} (ops : Ops D) (rounds junk : ℕ) where
  unfoldable pub vfs_mkdir : Buffer → Ptr → Cmd (Fs D) (ℤ × Ptr)
  unfolding read namei put_if acquire get_vnode vrele
  vfs_mkdir name vpp = do
    c ← lift (read name 0)
    if c == 0 then pure (einval, vpp) else do
      r ← namei ops rounds junk name
      let found = if is_zero r.0 then eexist else r.0
      if not (int_eq r.0 enoent)
          then put_if ops r.1.vdir >> put_if ops r.1.vn >> pure (found, vpp)
          else do
            acquire r.1.vdir
            v ← get_vnode r.1.vdir
            e ←
                if not (is_dir v.kind)
                then pure (enotdir, vpp)
                else ops.mkdir r.1.vdir r.1.name r.1.len vpp
            vrele ops r.1.vdir
            pure e

  -- What `vfs_rmdir` does with both locks held.
  unfoldable pub remove_checked : Ptr → Ptr → Buffer → ℕ → Cmd (Fs D) ℤ
  unfolding get_vnode
  remove_checked parent vdir name len = do
    v ← get_vnode vdir
    if not (is_dir v.kind)
        then pure enotdir
        else (if not (bit_and v.flags vroot == 0)
            then pure ebusy
            else ops.rmdir parent vdir name len)

  unfoldable pub vfs_rmdir : Buffer → Cmd (Fs D) ℤ
  unfolding namei put_if acquire remove_checked vput vrele
  vfs_rmdir name = do
    r ← namei ops rounds junk name
    if not (is_zero r.0) then put_if ops r.1.vn >> put_if ops r.1.vdir >> pure r.0 else do
      acquire r.1.vn
      e ←
          if r.1.vdir == r.1.vn
          then pure einval
          else acquire r.1.vdir >> remove_checked r.1.vdir r.1.vn r.1.name r.1.len
      vput ops r.1.vdir
      vrele ops r.1.vn
      pure e
