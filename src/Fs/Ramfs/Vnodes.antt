-- ===== src/Fs/Ramfs/Vnodes.antt =====
-- fs/ramfs/ramfs.c: from ramnodes to vnodes and back: `ramfs_vget`, `ramfs_root`,
-- `ramfs_lookup`, `ramfs_close` and `ramfs_inactive`.
use franklin.Base.{
  ℕ, false, not, ◌==◌, if◌then◌else◌, Option, none, some, List, [], ◌∷◌, ℤ, pos, is_zero, Run, ok,
  and_then, Cmd, pure, lift, ◌>>=◌, ◌>>◌,
}
use franklin.Text.{Buffer, strcmp, strncmp}
use franklin.Fs.Errors.{enoent, enotdir}
use franklin.Fs.State.{Ptr, null, Vnode, is_dir, vroot, kalloc, get_vnode, put_vnode, get_mount}
use franklin.Fs.Locks.{acquire, release, vref_locked}
use franklin.Fs.Ramfs.Store.{
  Dentry, Payload, Ramnode, State, get_node, put_node, lock_node, unlock_node, entries_of,
  parent_of, get_ram,
}
use franklin.Fs.Ramfs.Nodes.{ramfs_free_node}

abbrev pub dot : Buffer
dot = b'.' ∷ 0 ∷ []

abbrev pub dotdot : Buffer
dotdot = b'.' ∷ b'.' ∷ 0 ∷ []

-- The root directory is its own parent.
unfoldable pub root_flag : Ptr → Payload → ℕ
root_flag node (Payload.dir es parent lastseq) = if parent == node then vroot else 0
root_flag node _ = 0

-- A new vnode for a node; its lock is taken and released where nobody else can see it.
unfoldable pub new_vnode : Ptr → Ptr → Ramnode → Cmd State Ptr
unfolding kalloc put_vnode put_node root_flag
new_vnode vfs ino n = do
  vn ← kalloc
  put_node ino (record n { vnode = vn })
  put_vnode vn (record {
    vfs = vfs;
    mountedhere = null;
    kind = n.kind;
    refcount = 1;
    flags = if is_dir n.kind then root_flag ino n.payload else 0;
    lock = false;
    node = ino;
  })
  pure vn

unfoldable pub ramfs_vget : Ptr → Ptr → Cmd State (ℤ × Ptr)
unfolding lock_node unlock_node get_node acquire vref_locked release new_vnode
ramfs_vget vfs ino = do
  lock_node ino
  n ← get_node ino
  vn ←
      if n.vnode == 0
      then new_vnode vfs ino n
      else (do acquire n.vnode; vref_locked n.vnode; release n.vnode; pure n.vnode)
  unlock_node ino
  pure (pos 0, vn)

unfoldable pub ramfs_root : Ptr → Cmd State (ℤ × Ptr)
unfolding get_mount get_ram ramfs_vget
ramfs_root vfs = do m ← get_mount vfs; r ← get_ram m.private_data; ramfs_vget vfs r.root

-- The first entry whose first `len` bytes are those of the name: any name that begins with the
-- component that is looked for.
unfoldable pub find_prefix : Buffer → ℕ → List Dentry → Run (Option Dentry)
unfolding strncmp
find_prefix name len [] = ok none
find_prefix name len (d ∷ ds) =
    let rest = find_prefix name len ds in
    and_then (strncmp d.name name len) (λ c. if is_zero c then ok (some d) else rest)

-- `name` is the whole rest of the path, so `.` and `..` are found only as last components.
unfoldable pub search_dir : Ptr → Vnode → Ramnode → Buffer → ℕ → Cmd State (ℤ × Ptr)
unfolding strcmp vref_locked parent_of ramfs_vget entries_of find_prefix
search_dir vdir v n name len = do
  is_dot ← lift (strcmp name dot)
  if is_zero is_dot then vref_locked vdir >> pure (pos 0, vdir) else do
    is_dotdot ← lift (strcmp name dotdot)
    if is_zero is_dotdot
        then lift (parent_of n.payload) >>= (λ parent. ramfs_vget v.vfs parent)
        else do
          es ← lift (entries_of n.payload)
          found ← lift (find_prefix name len es)
          elim found [ none ↦ pure (enoent, null) | some d ↦ ramfs_vget v.vfs d.node ]

unfoldable pub ramfs_lookup : Ptr → Buffer → ℕ → Ptr → Cmd State (ℤ × Ptr)
unfolding get_vnode lock_node unlock_node get_node search_dir
ramfs_lookup vdir name len vpp = do
  v ← get_vnode vdir
  lock_node v.node
  n ← get_node v.node
  r ← if not (is_dir v.kind) then pure (enotdir, vpp) else search_dir vdir v n name len
  unlock_node v.node
  pure r

unfoldable pub ramfs_close : Ptr → Cmd State (Unit {0})
ramfs_close vn = pure tt

-- A file that has been deleted goes with its last vnode. The source then releases the lock of the
-- freed node: the store reaches a block that nobody owns, and is left out.
unfoldable pub ramfs_inactive : Ptr → Cmd State (Unit {0})
unfolding get_vnode lock_node unlock_node get_node put_node get_mount ramfs_free_node
ramfs_inactive vn = do
  v ← get_vnode vn
  lock_node v.node
  n ← get_node v.node
  put_node v.node (record n { vnode = null })
  if n.linkcount == 0
      then get_mount v.vfs >>= (λ m. ramfs_free_node m.private_data v.node)
      else unlock_node v.node
