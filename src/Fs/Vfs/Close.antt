-- ===== src/Fs/Vfs/Close.antt =====
-- fs/vfs.c, `vfs_close`, which `vput` and `vrele` of include/franklin/fs/vfs.h call.
pub mod Refs
use franklin.Base.{◌+◌, ◌-◌, ◌%◌, ◌^◌, ◌==◌, if◌then◌else◌, Cmd, pure, ◌>>=◌, ◌>>◌}
use franklin.Fs.State.{Ptr, Fs, get_vnode, put_vnode, free_vnode}
use franklin.Fs.Locks.{acquire, release}
use franklin.Fs.Ops.{Ops}

module _ {D : Type 0} (ops : Ops D) where
  -- `trylock` only looks at the lock, so the call takes a lock that is free and keeps one that is
  -- held.
  unfoldable pub vfs_close : Ptr → Cmd (Fs D) (Unit {0})
  unfolding acquire release get_vnode put_vnode free_vnode
  vfs_close p = do
    v ← get_vnode p
    if v.lock then pure tt else acquire p
    ops.close p
    w ← get_vnode p
    let count = (w.refcount + (2 ^ 32 - 1)) % 2 ^ 32
    put_vnode p (record w { refcount = count })
    if count == 0 then ops.inactive p >> free_vnode p else release p

  unfoldable pub vput : Ptr → Cmd (Fs D) (Unit {0})
  unfolding vfs_close
  vput p = vfs_close p

  unfoldable pub vrele : Ptr → Cmd (Fs D) (Unit {0})
  unfolding vput
  vrele p = vput p
