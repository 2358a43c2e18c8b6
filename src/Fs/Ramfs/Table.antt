-- ===== src/Fs/Ramfs/Table.antt =====
-- fs/ramfs/ramfs.c: making files, directories and links, `ramfs_mount`, and the two tables of
-- operations at the end of the file.
use franklin.Base.{
  ℕ, Bool, false, not, ◌||◌, if◌then◌else◌, Option, none, some, ℤ, pos, or_fault, Cmd, pure, lift,
  ◌>>=◌, ◌>>◌,
}
use franklin.Text.{Buffer, strldup, strcpy, strlen}
use franklin.Fs.Errors.{einval}
use franklin.Fs.State.{Ptr, null, Vtype, is_dir, is_lnk, kalloc, get_vnode, get_mount, put_mount}
use franklin.Fs.Ops.{Ops}
use franklin.Fs.Ramfs.Store.{
  Disk, State, get_node, put_node, lock_node, unlock_node, link_of, put_ram, int_incr,
}
use franklin.Fs.Ramfs.Nodes.{ramfs_alloc_node}
use franklin.Fs.Ramfs.Entries.{ramfs_alloc_dentry, ramfs_dir_attach}
use franklin.Fs.Ramfs.Vnodes.{ramfs_vget, ramfs_root, ramfs_lookup, ramfs_close, ramfs_inactive}
use franklin.Fs.Ramfs.Data.{ramfs_read, ramfs_write}
use franklin.Fs.Ramfs.Listing.{ramfs_readdir}
use franklin.Fs.Ramfs.Remove.{ramfs_remove, ramfs_rmdir, ramfs_unmount}

-- A target goes with the type `VLNK` alone.
abbrev bad_target : Option Buffer → Vtype → Bool
bad_target none kind = false
bad_target (some t) kind = not (is_lnk kind)

unfoldable pub ramfs_alloc_file :
    Ptr → Buffer → ℕ → Vtype → Option Buffer → Ptr → Cmd State (ℤ × Ptr)
unfolding get_vnode get_mount strldup ramfs_alloc_node ramfs_alloc_dentry ramfs_dir_attach
    ramfs_vget
ramfs_alloc_file vdir name len kind target vpp = do
  v ← get_vnode vdir
  m ← get_mount v.vfs
  copy ← lift (strldup name len)
  if not (is_dir v.kind) || bad_target target kind then pure (einval, vpp) else do
    node ← ramfs_alloc_node m.private_data v.node kind target
    de ← ramfs_alloc_dentry node copy
    ramfs_dir_attach v.node de
    r ← ramfs_vget v.vfs node
    pure (pos 0, r.1)

unfoldable pub ramfs_create : Ptr → Buffer → ℕ → Vtype → Ptr → Cmd State (ℤ × Ptr)
unfolding ramfs_alloc_file
ramfs_create vdir name len kind vpp = ramfs_alloc_file vdir name len kind none vpp

unfoldable pub ramfs_mkdir : Ptr → Buffer → ℕ → Ptr → Cmd State (ℤ × Ptr)
unfolding ramfs_alloc_file
ramfs_mkdir vdir name len vpp = ramfs_alloc_file vdir name len Vtype.vdir none vpp

unfoldable pub ramfs_symlink : Ptr → Buffer → Buffer → ℕ → Cmd State ℤ
unfolding ramfs_alloc_file
ramfs_symlink vdir target name len = do
  r ← ramfs_alloc_file vdir name len Vtype.vlnk (some target) null
  pure r.0

unfoldable pub ramfs_link : Ptr → Ptr → Buffer → Cmd State ℤ
unfolding get_vnode ramfs_alloc_dentry ramfs_dir_attach
ramfs_link vdir vn name = do
  d ← get_vnode vdir
  v ← get_vnode vn
  de ← ramfs_alloc_dentry v.node name
  ramfs_dir_attach d.node de
  pure (pos 0)

unfoldable pub ramfs_readlink : Ptr → Option Buffer → Cmd State (Buffer × ℕ)
unfolding get_vnode get_node lock_node unlock_node link_of strcpy strlen
ramfs_readlink vn buf = do
  v ← get_vnode vn
  lock_node v.node
  n ← get_node v.node
  l ← lift (link_of n.payload)
  b ← lift (or_fault buf)
  b' ← lift (strcpy b l)
  len ← lift (strlen l)
  unlock_node v.node
  pure (b', len)

unfoldable pub ramfs_mount : Ptr → Cmd State ℤ
unfolding kalloc put_ram ramfs_alloc_node get_node put_node get_mount put_mount
ramfs_mount vfs = do
  ram ← kalloc
  put_ram ram (record { root = null; nodes = null })
  root ← ramfs_alloc_node ram null Vtype.vdir none
  n ← get_node root
  put_node root (record n { linkcount = int_incr n.linkcount; prev = null; next = null })
  put_ram ram (record { root = root; nodes = root })
  m ← get_mount vfs
  put_mount vfs (record m { private_data = ram })
  pure (pos 0)

-- `ramfs_vnode_ops` and `ram_ops`
unfoldable pub ram_ops : Ops Disk
unfolding ramfs_lookup ramfs_create ramfs_mkdir ramfs_symlink ramfs_link ramfs_remove ramfs_rmdir
    ramfs_readlink ramfs_readdir ramfs_read ramfs_write ramfs_close ramfs_inactive ramfs_mount
    ramfs_unmount ramfs_root
ram_ops = record {
  lookup = ramfs_lookup;
  create = ramfs_create;
  mkdir = ramfs_mkdir;
  symlink = ramfs_symlink;
  link = ramfs_link;
  remove = ramfs_remove;
  rmdir = ramfs_rmdir;
  readlink = ramfs_readlink;
  readdir = ramfs_readdir;
  read = ramfs_read;
  write = ramfs_write;
  close = ramfs_close;
  inactive = ramfs_inactive;
  mount = ramfs_mount;
  unmount = ramfs_unmount;
  root = ramfs_root;
}
