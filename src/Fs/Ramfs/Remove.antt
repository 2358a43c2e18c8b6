-- ===== src/Fs/Ramfs/Remove.antt =====
-- fs/ramfs/ramfs.c: `ramfs_remove`, `ramfs_rmdir` and `ramfs_unmount`.
use franklin.Base.{
  ℕ, zero, suc, ◌+◌, Bool, true, false, not, ◌==◌, ◌&&◌, if◌then◌else◌, none, some, List, [], ◌∷◌,
  ℤ, pos, Run, ok, panicked, fault, out_of_fuel, and_then, Cmd, pure, lift, gets, ◌>>=◌, ◌>>◌,
}
use franklin.Text.{Buffer, read}
use franklin.Fs.Errors.{eisdir, enotdir, enotempty}
use franklin.Fs.State.{Ptr, null, is_dir, get_vnode, get_mount}
use franklin.Fs.Ramfs.Store.{
  Dentry, State, get_node, put_node, lock_node, unlock_node, entries_of, parent_of, get_ram,
  drop_ram, int_decr,
}
use franklin.Fs.Ramfs.Nodes.{set_prev, set_next, ramfs_free_node}
use franklin.Fs.Ramfs.Entries.{ramfs_dir_lookup, ramfs_dir_detach, ramfs_free_dentry}

-- The node leaves the list of all nodes. The head pointer of that list is not looked at.
unfoldable pub unlist : Ptr → Cmd State (Unit {0})
unfolding get_node set_prev set_next
unlist node = do n ← get_node node; set_next n.prev n.next; set_prev n.next n.prev

-- From `de = ramfs_dir_lookup(…)` on, as `ramfs_remove` and `ramfs_rmdir` share it.
unfoldable pub remove_entry : Ptr → Ptr → Buffer → Cmd State (Unit {0})
unfolding ramfs_dir_lookup unlist ramfs_dir_detach ramfs_free_dentry
remove_entry parent node name = do
  found ← ramfs_dir_lookup parent name
  elim found [
    | none ↦ lift panicked
    | some de ↦
        if not (de.node == node)
        then lift panicked
        else (unlist node >> (ramfs_dir_detach parent de >> ramfs_free_dentry de))
  ]

unfoldable pub ramfs_remove : Ptr → Ptr → Buffer → Cmd State ℤ
unfolding get_vnode remove_entry
ramfs_remove vdir vn name = do
  d ← get_vnode vdir
  v ← get_vnode vn
  if is_dir v.kind
      then pure eisdir
      else (if not (is_dir d.kind)
          then pure enotdir
          else remove_entry d.node v.node name >> pure (pos 0))

-- The guards under the lock of the node: its parent is the directory, and it is empty. Then it
-- loses the link of its own `.`
unfoldable pub check_empty : Ptr → Ptr → Cmd State Bool
unfolding lock_node unlock_node get_node put_node parent_of entries_of
check_empty parent node = do
  lock_node node
  n ← get_node node
  p ← lift (parent_of n.payload)
  es ← lift (entries_of n.payload)
  if not (p == parent) then lift panicked else elim es [
    | d ∷ ds ↦ unlock_node node >> pure false
    | [] ↦
        put_node node (record n { linkcount = int_decr n.linkcount })
        >> (unlock_node node >> pure true)
  ]

-- Whether the component is `..`.
unfoldable pub is_dotdot : Buffer → ℕ → Run Bool
unfolding read
is_dotdot name len =
    if len == 2
    then and_then (read name 0) (λ a. and_then (read name 1) (λ b. ok (a == b'.' && b == b'.')))
    else ok false

unfoldable pub ramfs_rmdir : Ptr → Ptr → Buffer → ℕ → Cmd State ℤ
unfolding get_vnode is_dotdot check_empty remove_entry
ramfs_rmdir vdir vpp name len = do
  v ← get_vnode vpp
  d ← get_vnode vdir
  dd ← lift (is_dotdot name len)
  if dd then pure enotempty else do
    empty ← check_empty d.node v.node
    if not empty then pure enotempty else remove_entry d.node v.node name >> pure (pos 0)

-- The entries of one directory. After an entry is freed the loop reads its `next`, the first word
-- of the block, where `kfree` may have put its own link: a fault.
unfoldable pub drop_entries : Ptr → List Dentry → Cmd State (Unit {0})
unfolding get_node put_node ramfs_dir_detach ramfs_free_dentry
drop_entries node [] = pure tt
drop_entries node (de ∷ ds) = do
  n ← get_node de.node
  put_node de.node (record n { vnode = null })
  ramfs_dir_detach node de
  ramfs_free_dentry de
  lift fault

unfoldable pub drop_all_entries : ℕ → Ptr → Cmd State (Unit {0})
unfolding get_node put_node entries_of drop_entries
drop_all_entries zero node = lift out_of_fuel
drop_all_entries (suc fuel) node =
    let rest = λ (p : Ptr). drop_all_entries fuel p in
    if node == 0 then pure tt else (do
      n ← get_node node
      put_node node (record n { vnode = null })
      (if is_dir n.kind then lift (entries_of n.payload) >>= drop_entries node else pure tt)
      m ← get_node node
      rest m.next)

-- `node = node->next` reads the node after it is freed; `next` is not its first word and still
-- there.
unfoldable pub free_all_nodes : ℕ → Ptr → Ptr → Cmd State (Unit {0})
unfolding get_node ramfs_free_node
free_all_nodes zero ram node = lift out_of_fuel
free_all_nodes (suc fuel) ram node =
    let rest = λ (p : Ptr). free_all_nodes fuel ram p in
    if node == 0 then pure tt else (do n ← get_node node; ramfs_free_node ram node; rest n.next)

-- One round for each address in use and one more.
unfoldable pub ramfs_unmount : Ptr → Cmd State ℤ
unfolding get_mount get_ram drop_all_entries free_all_nodes drop_ram
ramfs_unmount vfs = do
  m ← get_mount vfs
  r ← get_ram m.private_data
  fuel ← gets (λ s. s.brk)
  drop_all_entries (fuel + 1) r.nodes
  free_all_nodes (fuel + 1) m.private_data r.nodes
  drop_ram m.private_data
  pure (pos 0)
