-- ===== src/Fs/Ramfs/Listing.antt =====
-- fs/ramfs/ramfs.c: `ramfs_readdir` and `ramfs_make_dirent`, with `get_reclen` of
-- include/franklin/fs/dirent.h. The entries that `memcpy` writes one behind the other into the
-- caller's buffer are a list; the code does not look whether they fit, so neither does the list.
use franklin.Base.{
  ℕ, ◌+◌, ◌-◌, ◌%◌, ◌^◌, ◌==◌, if◌then◌else◌, List, [], ◌∷◌, ◌++◌, replicate, ℤ, pos, Run, ok,
  panicked, and_then, Cmd, pure, lift, gets, ◌>>=◌, ◌>>◌,
}
use franklin.Text.{Buffer, strcpy, strlen}
use franklin.Fs.State.{Ptr, Vtype, get_vnode}
use franklin.Fs.Ops.{Dirent, Listing}
use franklin.Fs.Ramfs.Store.{Dentry, State, get_node, lock_node, unlock_node, entries_of, parent_of}
use franklin.Fs.Ramfs.Vnodes.{dot, dotdot}

-- The `DT_` code. The case of `VREG` has no `break` and goes on to that of `VDIR`.
unfoldable pub dt_code : Vtype → Run ℕ
dt_code Vtype.vblk = ok 6
dt_code Vtype.vreg = ok 4
dt_code Vtype.vdir = ok 4
dt_code Vtype.vsock = ok 12
dt_code Vtype.vlnk = ok 10
dt_code Vtype.vchr = ok 2
dt_code Vtype.vnon = panicked

-- The name stands 13 bytes behind the start of the structure.
unfoldable pub get_reclen : Buffer → Run ℕ
unfolding strlen
get_reclen name = and_then (strlen name) (λ n. ok ((13 + n + 1) % 2 ^ 16))

unfoldable pub ramfs_make_dirent : Ptr → Buffer → ℕ → Run Dirent
unfolding strcpy get_reclen
ramfs_make_dirent node name kind = and_then (strcpy (replicate 256 0) name) (λ copy.
    and_then (get_reclen copy)
      (λ n. ok (record { ino = node; reclen = n; kind = kind; name = copy })))

-- `a - b` on a `size_t`.
abbrev pub sub64 : ℕ → ℕ → ℕ
sub64 a b = (a + 2 ^ 64 - b) % 2 ^ 64

-- What the listing has at a point: the entries so far, `resid` and `*offset`.
pub record Progress : Type 0 where
  pub out : List Dirent
  pub resid : ℕ
  pub offset : ℕ

abbrev pub emit : Dirent → ℕ → Progress → Progress
emit d offset p = record { out = p.out ++ d ∷ []; resid = sub64 p.resid d.reclen; offset = offset }

-- `.` and `..`. The kind of these two is not set.
unfoldable pub list_dots : Ptr → Ptr → List Dentry → Progress → Run Progress
unfolding ramfs_make_dirent
list_dots self parent es p =
    and_then
      (if p.offset == 0
        then and_then (ramfs_make_dirent self dot 0) (λ d. ok (emit d 1 p))
        else ok p)
      (λ q.
        if q.offset == 1
        then and_then (ramfs_make_dirent parent dotdot 0)
            (λ d. ok (emit d (elim es [ [] ↦ 2 | e ∷ _ ↦ e.seq ]) q))
        else ok q)

-- The entries from the one with that sequence number on.
unfoldable pub from_seq : ℕ → List Dentry → List Dentry
from_seq seq [] = []
from_seq seq (d ∷ ds) = if d.seq == seq then d ∷ ds else from_seq seq ds

-- `do … while ((resid -= d.reclen) && (de = de->next))`. `kind_of` reads the type of a node.
unfoldable pub list_entries : (Ptr → Run Vtype) → List Dentry → Progress → Run Progress
unfolding ramfs_make_dirent dt_code
list_entries kind_of [] p = ok p
list_entries kind_of (e ∷ es) p = and_then (kind_of e.node) (λ k. and_then (dt_code k) (λ code.
    and_then (ramfs_make_dirent e.node e.name code) (λ d.
      let q = emit d e.seq p in
      let rest = list_entries kind_of es q in if q.resid == 0 then ok q else rest)))

-- The error of an offset that names no entry is positive.
unfoldable pub list_all :
    (Ptr → Run Vtype) → Ptr → Ptr → List Dentry → Progress → Run (ℤ × Progress)
unfolding list_dots from_seq list_entries
list_all kind_of self parent es p = and_then (list_dots self parent es p) (λ q.
    if q.offset == 2 then ok (pos 0, q) else elim (from_seq q.offset es) [
      | [] ↦ ok (pos 22, q)
      | d ∷ ds ↦ and_then (list_entries kind_of (d ∷ ds) q) (λ r. ok (pos 0, r))
    ])

unfoldable pub kind_in : State → Ptr → Run Vtype
unfolding get_node
kind_in s p = and_then (get_node p s) (λ r. ok (r.0.kind))

unfoldable pub ramfs_readdir : Ptr → ℕ → ℕ → Cmd State Listing
unfolding get_vnode lock_node unlock_node get_node entries_of parent_of list_all kind_in
ramfs_readdir vdir count offset = do
  v ← get_vnode vdir
  lock_node v.node
  n ← get_node v.node
  es ← lift (entries_of n.payload)
  parent ← lift (parent_of n.payload)
  kinds ← gets kind_in
  r ← lift (list_all kinds v.node parent es (record { out = []; resid = count; offset = offset }))
  unlock_node v.node
  pure (record {
    error = r.0;
    entries = r.1.out;
    count = sub64 count r.1.resid;
    offset = r.1.offset;
  })
