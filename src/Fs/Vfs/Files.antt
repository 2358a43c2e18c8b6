-- ===== src/Fs/Vfs/Files.antt =====
-- fs/vfs.c: opening, reading, writing, linking and removing files.
use franklin.Base.{
  ℕ, not, ◌==◌, if◌then◌else◌, bit_and, none, List, [], ℤ, pos, is_zero, int_eq, Cmd, pure, ◌>>=◌,
  ◌>>◌,
}
use franklin.Text.{Buffer}
use franklin.Fs.Errors.{enoent, einval, eisdir, ebusy}
use franklin.Fs.State.{Ptr, Vtype, Fs, is_dir, is_lnk, vroot, get_vnode}
use franklin.Fs.Locks.{acquire, release}
use franklin.Fs.Ops.{Ops, Dirent}
use franklin.Fs.Vfs.Close.{vput, vrele}
use franklin.Fs.Vfs.Namei.{namei}

-- `O_CREATE`
abbrev pub o_create : ℕ
o_create = 0x200

module _ {D : Type 0} (ops : Ops D) where
  -- `if (p) vput(p);`
  unfoldable pub put_if : Ptr → Cmd (Fs D) (Unit {0})
  unfolding vput
  put_if p = if p == 0 then pure tt else vput ops p

  -- Returns the number of bytes, or an error.
  unfoldable pub vfs_readdir : Ptr → ℕ → ℕ → Cmd (Fs D) (ℤ × List Dirent × ℕ)
  unfolding acquire release get_vnode
  vfs_readdir vdir nbytes offset = do
    acquire vdir
    v ← get_vnode vdir
    if not (is_dir v.kind) then release vdir >> pure (einval, [], offset) else do
      l ← ops.readdir vdir nbytes offset
      release vdir
      pure (pos l.count, l.entries, l.offset)

  -- The buffer of the caller is handed on as a `struct componentnam`, so that the file system
  -- takes the bytes in it for the pointer to a buffer: it has none.
  unfoldable pub vfs_readlink_locked : Ptr → Buffer → Cmd (Fs D) ℤ
  unfolding get_vnode
  vfs_readlink_locked vn linkbuf = do
    v ← get_vnode vn
    if not (is_lnk v.kind) then pure einval else ops.readlink vn none >> pure (pos 0)

  unfoldable pub vfs_readlink : Ptr → Buffer → Cmd (Fs D) ℤ
  unfolding acquire release get_vnode
  vfs_readlink vn linkbuf = do
    acquire vn
    v ← get_vnode vn
    if not (is_lnk v.kind)
        then release vn >> pure einval
        else do ops.readlink vn none; release vn; pure (pos 0)

  unfoldable pub vfs_read : Ptr → Buffer → ℕ → ℕ → Cmd (Fs D) (ℤ × Buffer)
  unfolding acquire release get_vnode
  vfs_read vn buf offset count = do
    acquire vn
    v ← get_vnode vn
    if is_dir v.kind
        then release vn >> pure (eisdir, buf)
        else do r ← ops.read vn buf offset count; release vn; pure r

  unfoldable pub vfs_write : Ptr → Buffer → ℕ → ℕ → Cmd (Fs D) ℤ
  unfolding acquire release get_vnode
  vfs_write vn buf offset count = do
    acquire vn
    v ← get_vnode vn
    if is_dir v.kind
        then release vn >> pure eisdir
        else do e ← ops.write vn buf offset count; release vn; pure e

  module _ (rounds junk : ℕ) where
    -- Returns the error and `*vpp`.
    unfoldable pub open_new : Buffer → Ptr → Vtype → Cmd (Fs D) (ℤ × Ptr)
    unfolding namei put_if acquire vrele
    open_new name vpp kind = do
      r ← namei ops rounds junk name
      if not (int_eq r.0 enoent) then put_if r.1.vdir >> put_if r.1.vn >> pure (r.0, vpp) else do
        acquire r.1.vdir
        c ← ops.create r.1.vdir r.1.name r.1.len kind r.1.vn
        vrele ops r.1.vdir
        pure (c.0, if is_zero c.0 then c.1 else vpp)

    unfoldable pub vfs_open : Buffer → Ptr → Vtype → ℕ → Cmd (Fs D) (ℤ × Ptr)
    unfolding open_new namei put_if
    vfs_open name vpp kind flags =
        if not (bit_and flags o_create == 0) then open_new name vpp kind else (do
          r ← namei ops rounds junk name
          put_if r.1.vdir
          pure (r.0, if is_zero r.0 then r.1.vn else vpp))

    unfoldable pub vfs_create : Buffer → Ptr → Vtype → Cmd (Fs D) (ℤ × Ptr)
    unfolding vfs_open
    vfs_create name vpp kind = vfs_open name vpp kind o_create

    -- `fail:` of `vfs_link`
    unfoldable pub end_link : Ptr → Ptr → ℤ → Cmd (Fs D) ℤ
    unfolding put_if vrele
    end_link vdir vn error = do put_if vdir; vrele ops vn; pure error

    unfoldable pub vfs_link : Buffer → Buffer → Cmd (Fs D) ℤ
    unfolding namei acquire release get_vnode vput end_link
    vfs_link name target = do
      r ← namei ops rounds junk target
      if not (is_zero r.0) then pure r.0 else do
        acquire r.1.vn
        v ← get_vnode r.1.vn
        if is_dir v.kind then end_link r.1.vdir r.1.vn eisdir else do
          vput ops r.1.vdir
          r' ← namei ops rounds junk name
          if not (int_eq r'.0 enoent) then pure r'.0 else do
            acquire r'.1.vdir
            e ← ops.link r'.1.vdir r.1.vn r'.1.name
            release r'.1.vdir
            end_link r'.1.vdir r.1.vn e

    -- After the link is made the return value is still that of `namei`.
    unfoldable pub vfs_symlink : Buffer → Buffer → Cmd (Fs D) ℤ
    unfolding namei put_if acquire vrele
    vfs_symlink name target = do
      r ← namei ops rounds junk name
      if not (int_eq r.0 enoent) then put_if r.1.vdir >> put_if r.1.vn >> pure r.0 else do
        acquire r.1.vdir
        ops.symlink r.1.vdir target r.1.name r.1.len
        vrele ops r.1.vdir
        pure r.0

    unfoldable pub vfs_unlink : Buffer → Cmd (Fs D) ℤ
    unfolding namei put_if acquire get_vnode vput vrele
    vfs_unlink name = do
      r ← namei ops rounds junk name
      if not (is_zero r.0) then put_if r.1.vn >> put_if r.1.vdir >> pure r.0 else do
        acquire r.1.vn
        if not (r.1.vdir == r.1.vn) then acquire r.1.vdir else pure tt
        v ← get_vnode r.1.vn
        e ←
            if not (bit_and v.flags vroot == 0)
            then pure ebusy
            else ops.remove r.1.vdir r.1.vn r.1.name
        vput ops r.1.vdir
        vrele ops r.1.vn
        pure e
