-- ===== src/Fs/Vfs/Mounts.antt =====
-- fs/vfs.c: mounting and unmounting, and the start of the file system.
use franklin.Base.{
  ℕ, Bool, true, false, not, ◌==◌, if◌then◌else◌, bit_and, bit_or, Option, none, some, List, [],
  ◌∷◌, ℤ, pos, is_zero, Run, ok, stuck, Cmd, pure, lift, gets, modify, and_then, ◌>>=◌, ◌>>◌,
}
use franklin.Text.{Buffer, strcmp}
use franklin.Fs.Errors.{enoent, einval, enotdir, ebusy}
use franklin.Fs.State.{
  Ptr, null, Fs, is_dir, vroot, mnt_rootfs, kalloc, get_vnode, put_vnode, get_mount, put_mount,
}
use franklin.Fs.Locks.{acquire, release}
use franklin.Fs.Ops.{Ops}
use franklin.Fs.Vfs.Close.{vput, vrele}
use franklin.Fs.Vfs.Namei.{namei}
use franklin.Fs.Vfs.Files.{put_if}

abbrev ramfs_name : Buffer
ramfs_name = b'r' ∷ b'a' ∷ b'm' ∷ b'f' ∷ b's' ∷ 0 ∷ []

-- Whether a file system type of that name is in the list.
unfoldable pub known_type : List Buffer → Buffer → Run Bool
unfolding strcmp
known_type [] fstype = ok false
known_type (t ∷ ts) fstype =
    let rest = known_type ts fstype in
    and_then (strcmp t fstype) (λ d. if is_zero d then ok true else rest)

module _ {D : Type 0} (ops : Ops D) where
  unfoldable pub lock_list : Cmd (Fs D) (Unit {0})
  lock_list s = if s.vfslist_lock then stuck else ok (tt, record s { vfslist_lock = true })

  unfoldable pub unlock_list : Cmd (Fs D) (Unit {0})
  unlock_list s = ok (tt, record s { vfslist_lock = false })

  unfoldable pub init_rootfs : Cmd (Fs D) (Unit {0})
  init_rootfs s = ok (tt, record s { fs_types = ramfs_name ∷ []; vfslist_lock = false })

  unfoldable pub init_rootvn : Cmd (Fs D) (Unit {0})
  init_rootvn = do
    m ← gets (λ s. s.rootfs)
    if m == 0 then pure tt else ops.root m >>= λ r. modify (λ s. record s { rootvn = r.1 })

  -- Returns the root of a mounted file system locked.
  unfoldable pub vfs_root : Ptr → Cmd (Fs D) (ℤ × Ptr)
  unfolding acquire
  vfs_root m = do r ← ops.root m; acquire r.1; pure r

  module _ (rounds junk : ℕ) where
    -- `fail2:`
    unfoldable pub give_up : Ptr → Ptr → ℤ → Cmd (Fs D) ℤ
    unfolding put_if unlock_list
    give_up vn vdir error = do put_if ops vn; put_if ops vdir; unlock_list; pure error

    -- The new file system enters the list of those that are mounted.
    unfoldable pub enlist : Ptr → Cmd (Fs D) ℤ
    unfolding get_mount put_mount unlock_list
    enlist m = do
      v ← get_mount m
      l ← gets (λ s. s.mountedlist)
      put_mount m (record v { next = l })
      modify (λ s. record s { mountedlist = m })
      e ← ops.mount m
      unlock_list
      pure e

    unfoldable pub mount_at : Ptr → Buffer → Cmd (Fs D) ℤ
    unfolding namei give_up acquire get_vnode put_vnode get_mount put_mount vrele vput enlist
    mount_at m path = do
      r ← namei ops rounds junk path
      if not (is_zero r.0) then give_up r.1.vn r.1.vdir r.0 else do
        acquire r.1.vn
        v ← get_vnode r.1.vn
        if not (is_dir v.kind)
            then give_up r.1.vn r.1.vdir enotdir
            else (if not (v.mountedhere == 0) then give_up r.1.vn r.1.vdir ebusy else (do
              w ← get_mount m
              put_mount m (record w { mountpoint = r.1.vn })
              put_vnode r.1.vn (record v { mountedhere = m })
              vrele ops r.1.vn
              vput ops r.1.vdir
              enlist m))

    unfoldable pub mount_root : Ptr → Cmd (Fs D) ℤ
    unfolding get_mount put_mount enlist
    mount_root m = do
      w ← get_mount m
      put_mount m (record w { flags = bit_or w.flags mnt_rootfs; next = null })
      modify (λ s. record s { rootfs = m })
      enlist m

    unfoldable pub vfs_mount : Option Buffer → Buffer → Cmd (Fs D) ℤ
    unfolding known_type lock_list unlock_list kalloc put_mount mount_at mount_root
    vfs_mount mntpoint fstype = do
      lock_list
      types ← gets (λ s. s.fs_types)
      known ← lift (known_type types fstype)
      if not known then unlock_list >> pure enoent else do
        m ← kalloc
        put_mount m (record { next = null; mountpoint = null; flags = 0; private_data = null })
        elim mntpoint [ none ↦ mount_root m | some path ↦ mount_at m path ]

    -- The root of a file system stands for it; that of the first file system stays.
    unfoldable pub vfs_unmount : Buffer → Cmd (Fs D) ℤ
    unfolding namei put_if acquire release get_vnode put_vnode get_mount vrele vput
    vfs_unmount name = do
      r ← namei ops rounds junk name
      if not (is_zero r.0) then put_if ops r.1.vn >> put_if ops r.1.vdir >> pure r.0 else do
        v ← get_vnode r.1.vn
        acquire r.1.vn
        if bit_and v.flags vroot == 0 then vrele ops r.1.vn >> pure einval else do
          m ← get_mount v.vfs
          if not (bit_and m.flags mnt_rootfs == 0) then vrele ops r.1.vn >> pure einval else do
            vrele ops r.1.vn
            e ← ops.unmount v.vfs
            if not (is_zero e) then pure e else do
              m' ← get_mount v.vfs
              acquire m'.mountpoint
              w ← get_vnode m'.mountpoint
              put_vnode m'.mountpoint (record w { mountedhere = null })
              release m'.mountpoint
              vput ops r.1.vdir
              pure (pos 0)
