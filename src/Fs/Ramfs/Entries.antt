-- ===== src/Fs/Ramfs/Entries.antt =====
-- fs/ramfs/ramfs.c and ramfs_subr.c: the entries of a directory.
use franklin.Base.{
  ◌+◌, ◌%◌, ◌^◌, not, ◌==◌, ltb, ◌||◌, if◌then◌else◌, Option, none, some, List, [], ◌∷◌, ℤ, pos,
  is_zero, Run, ok, panicked, fault, and_then, Cmd, pure, lift, ◌>>=◌, ◌>>◌,
}
use franklin.Text.{Buffer, strcmp, strdup}
use franklin.Fs.Errors.{einval}
use franklin.Fs.State.{Ptr, is_dir, kalloc}
use franklin.Fs.Ramfs.Store.{
  Dentry, Payload, Ramnode, State, get_node, put_node, lock_node, unlock_node, entries_of,
  parent_of, lastseq_of, int_incr, int_decr,
}

-- The directory with other entries.
unfoldable pub with_entries : Payload → List Dentry → Run Payload
with_entries (Payload.dir es parent lastseq) fs = ok (Payload.dir fs parent lastseq)
with_entries _ fs = fault

-- A new entry for a node, which gains a link. Its sequence number is set when it is attached.
unfoldable pub ramfs_alloc_dentry : Ptr → Buffer → Cmd State Dentry
unfolding kalloc lock_node unlock_node get_node put_node strdup
ramfs_alloc_dentry node name = do
  a ← kalloc
  lock_node node
  copy ← lift (strdup name)
  n ← get_node node
  put_node node (record n { linkcount = int_incr n.linkcount })
  unlock_node node
  pure (record { addr = a; node = node; seq = 0; name = copy })

-- The entry is the new first of the directory, which gains a link.
unfoldable pub attach_entry : Ramnode → Dentry → Run Ramnode
unfolding entries_of parent_of lastseq_of
attach_entry n d = and_then (entries_of n.payload) (λ es. and_then (parent_of n.payload) (λ parent.
    and_then (lastseq_of n.payload) (λ seq. ok (record n {
      linkcount = int_incr n.linkcount;
      payload = Payload.dir (record d { seq = seq } ∷ es) parent ((seq + 1) % 2 ^ 64);
    }))))

unfoldable pub ramfs_dir_attach : Ptr → Dentry → Cmd State ℤ
unfolding lock_node unlock_node get_node put_node attach_entry
ramfs_dir_attach parent d = do
  lock_node parent
  n ← get_node parent
  if not (is_dir n.kind)
      then unlock_node parent >> pure einval
      else do n' ← lift (attach_entry n d); put_node parent n'; unlock_node parent; pure (pos 0)

-- The list without the entry at an address; the search for one that is not there runs into the
-- null pointer at the end.
unfoldable pub detach : Ptr → List Dentry → Run (List Dentry)
detach a [] = fault
detach a (d ∷ ds) =
    let rest = detach a ds in if d.addr == a then ok ds else and_then rest (λ ds'. ok (d ∷ ds'))

unfoldable pub ramfs_dir_detach : Ptr → Dentry → Cmd State (Unit {0})
unfolding lock_node unlock_node get_node put_node entries_of detach with_entries
ramfs_dir_detach parent d = do
  lock_node parent
  n ← get_node parent
  es ← lift (entries_of n.payload)
  es' ← lift (detach d.addr es)
  payload ← lift (with_entries n.payload es')
  put_node parent (record n { linkcount = int_decr n.linkcount; payload = payload })
  unlock_node parent

-- The node of the entry loses a link; the entry itself is freed.
unfoldable pub ramfs_free_dentry : Dentry → Cmd State (Unit {0})
unfolding lock_node unlock_node get_node put_node
ramfs_free_dentry d = do
  lock_node d.node
  n ← get_node d.node
  if (n.linkcount == 0) || not (ltb n.linkcount (2 ^ 31))
      then lift panicked
      else do put_node d.node (record n { linkcount = int_decr n.linkcount }); unlock_node d.node

-- The first entry with exactly that name.
unfoldable pub find_entry : Buffer → List Dentry → Run (Option Dentry)
unfolding strcmp
find_entry name [] = ok none
find_entry name (d ∷ ds) =
    let rest = find_entry name ds in
    and_then (strcmp d.name name) (λ c. if is_zero c then ok (some d) else rest)

unfoldable pub ramfs_dir_lookup : Ptr → Buffer → Cmd State (Option Dentry)
unfolding lock_node unlock_node get_node entries_of find_entry
ramfs_dir_lookup node name = do
  lock_node node
  n ← get_node node
  es ← lift (entries_of n.payload)
  d ← lift (find_entry name es)
  unlock_node node
  pure d
