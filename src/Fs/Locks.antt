-- ===== src/Fs/Locks.antt =====
-- Locks and references of vnodes: `acquire` and `release` of kernel/spinlock.c on `vnode.lock`,
-- and `vref`, `vref_locked` of include/franklin/fs/vfs.h. One processor runs the file system, so
-- a lock that is held at `acquire` is never released: the call hangs.
use franklin.Base.{◌+◌, ◌%◌, ◌^◌, true, false, if◌then◌else◌, stuck, Cmd, lift, ◌>>=◌, ◌>>◌}
use franklin.Fs.State.{Ptr, Fs, get_vnode, put_vnode}

module _ {D : Type 0} where
  unfoldable pub acquire : Ptr → Cmd (Fs D) (Unit {0})
  unfolding get_vnode put_vnode
  acquire p = do
    v ← get_vnode p
    if v.lock then lift stuck else put_vnode p (record v { lock = true })

  unfoldable pub release : Ptr → Cmd (Fs D) (Unit {0})
  unfolding get_vnode put_vnode
  release p = do v ← get_vnode p; put_vnode p (record v { lock = false })

  unfoldable pub vref_locked : Ptr → Cmd (Fs D) (Unit {0})
  unfolding get_vnode put_vnode
  vref_locked p = do
    v ← get_vnode p
    put_vnode p (record v { refcount = (v.refcount + 1) % 2 ^ 32 })

  unfoldable pub vref : Ptr → Cmd (Fs D) (Unit {0})
  unfolding acquire vref_locked release
  vref p = do acquire p; vref_locked p; release p
