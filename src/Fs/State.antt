-- ===== src/Fs/State.antt =====
-- include/franklin/fs/vfs.h: the structures of the virtual file system, and the store of those
-- that are allocated. An address is a number, 0 is `NULL`; a freed object is no longer in the
-- store, so an access to it is a fault. `kalloc` gives an address that was never in use, and a
-- block of zeros: the source leaves several fields of a new object as they come, such as
-- `vnode.flags`, `vfs.flags` and `ramnode.dir.dentry`, and relies on this.
use franklin.Base.{
  ℕ, ◌+◌, Bool, true, false, Option, none, some, List, ◌==◌, if◌then◌else◌, ok, or_fault, and_then,
  Cmd,
}
use franklin.Text.{Buffer}

abbrev pub Ptr : Type 0
Ptr = ℕ

abbrev pub null : Ptr
null = 0

-- `enum vtype`
pub data Vtype : Type 0 where
  vnon vreg vdir vlnk vsock vblk vchr : Vtype

abbrev pub is_dir : Vtype → Bool
is_dir Vtype.vdir = true
is_dir _ = false

abbrev pub is_lnk : Vtype → Bool
is_lnk Vtype.vlnk = true
is_lnk _ = false

-- `struct vnode`. `ops` always points at the one table that there is. An `int` is its 32-bit
-- pattern.
pub record Vnode : Type 0 where
  pub vfs : Ptr
  pub mountedhere : Ptr
  pub kind : Vtype
  pub refcount : ℕ
  pub flags : ℕ
  pub lock : Bool
  pub node : Ptr  -- `data`

-- `struct vfs`
pub record Mount : Type 0 where
  pub next : Ptr
  pub mountpoint : Ptr
  pub flags : ℕ
  pub private_data : Ptr  -- `data`

-- `VROOT`, `MNT_ROOTFS`, `ISSYMLINK`, `FOLLOW`: bits of the `flags`
abbrev pub vroot : ℕ
vroot = 1

abbrev pub mnt_rootfs : ℕ
mnt_rootfs = 1

abbrev pub issymlink : ℕ
issymlink = 1

abbrev pub follow : ℕ
follow = 2

-- `struct nameidata`, with the component name in `name` and `len`.
pub record Nameidata : Type 0 where
  pub vdir : Ptr
  pub vn : Ptr
  pub next : Buffer
  pub flags : ℕ
  pub name : Buffer
  pub len : ℕ

-- The global state: the objects, `rootfs`, `rootvn`, `mountedlist`, `vfslist` with its lock, and
-- what the concrete file system keeps.
pub record Fs (D : Type 0) : Type 0 where
  pub vnodes : Ptr → Option Vnode
  pub mounts : Ptr → Option Mount
  pub rootfs : Ptr
  pub rootvn : Ptr
  pub mountedlist : Ptr
  pub fs_types : List Buffer
  pub vfslist_lock : Bool
  pub brk : Ptr  -- the next address that `kalloc` returns
  pub disk : D

abbrev pub update {ℓ} : {A : Type ℓ} → (ℕ → A) → ℕ → A → ℕ → A
update f i a j = if i == j then a else f j

module _ {D : Type 0} where
  unfoldable pub kalloc : Cmd (Fs D) Ptr
  kalloc s = ok (s.brk, record s { brk = s.brk + 1 })

  unfoldable pub get_vnode : Ptr → Cmd (Fs D) Vnode
  get_vnode p s = and_then (or_fault (s.vnodes p)) (λ v. ok (v, s))

  unfoldable pub put_vnode : Ptr → Vnode → Cmd (Fs D) (Unit {0})
  put_vnode p v s = ok (tt, record s { vnodes = update s.vnodes p (some v) })

  unfoldable pub free_vnode : Ptr → Cmd (Fs D) (Unit {0})
  free_vnode p s = ok (tt, record s { vnodes = update s.vnodes p none })

  unfoldable pub get_mount : Ptr → Cmd (Fs D) Mount
  get_mount p s = and_then (or_fault (s.mounts p)) (λ v. ok (v, s))

  unfoldable pub put_mount : Ptr → Mount → Cmd (Fs D) (Unit {0})
  put_mount p v s = ok (tt, record s { mounts = update s.mounts p (some v) })
