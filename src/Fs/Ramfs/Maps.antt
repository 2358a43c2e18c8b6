-- ===== src/Fs/Ramfs/Maps.antt =====
-- fs/ramfs/ramfs.c: `ramfs_dir_attach`, `ramfs_dir_lookup` and `ramfs_dir_detach` on the map from
-- names to nodes that a directory stands for.
use franklin.Base.{
  ℕ, ◌+◌, ◌%◌, ◌^◌, ◌≡◌, ◌≢◌, refl, ap, ◌∙◌, true, false, arith, if◌then◌else◌, Option, none, some,
  List, [], ◌∷◌, pos, ok,
}
use franklin.Text.{Buffer}
use franklin.Text.Laws.{IsText, c_string, same}
use franklin.Fs.State.{Ptr, is_dir, update}
use franklin.Fs.Ramfs.Store.{
  Dentry, Payload, Ramnode, State, get_node, put_node, lock_node, unlock_node, entries_of,
  parent_of, lastseq_of, int_incr, int_decr,
}
use franklin.Fs.Ramfs.Entries.{
  find_entry, detach, attach_entry, with_entries, ramfs_dir_attach, ramfs_dir_detach,
  ramfs_dir_lookup,
}
use franklin.Fs.Ramfs.Names.{first, AllNamed, find_entry-first}
use franklin.Fs.Ramfs.Directory.{
  text, node_of, found_node, DifferFrom, Apart, first-node_of, detach-Removed,
}

-- At `p` is an unlocked directory with these entries, which have names, no two the same.
pub record Holds (p : Ptr) (es : List Dentry) (s : State) : Type 0 where
  pub node : Ramnode
  pub parent : Ptr
  pub last : ℕ
  pub here : s.disk.nodes p ≡ some node
  pub unlocked : node.ramlock ≡ false
  pub directory : is_dir node.kind ≡ true
  pub entries : node.payload ≡ Payload.dir es parent last
  pub named : AllNamed text es
  pub apart : Apart es

-- The nodes but for the one at `p` are as they were.
abbrev pub KeepsOthers : Ptr → State → State → Type 0
KeepsOthers p s s' = (q : Ptr) → q ≢ p → s'.disk.nodes q ≡ s.disk.nodes q

module _ {p : Ptr} {es : List Dentry} {s : State} (h : Holds p es s) where
  lookup_lem :
      (name : Buffer) (o : Option Dentry)
      → find_entry name es ≡ ok o
      → (s' : State) × (ramfs_dir_lookup p name s ≡ ok (o, s')) × Holds p es s' × KeepsOthers p s s'
  unfolding ramfs_dir_lookup lock_node unlock_node get_node put_node entries_of
  lookup_lem name o e =
      let n = h.node in
      let nodes =
        update (update s.disk.nodes p (some (record n { ramlock = true }))) p
          (some (record n { ramlock = false })) in
      (
        record s { disk = record (s.disk) { nodes = nodes } },
        ground (arith, h.here, h.unlocked, h.entries, e),
        record {
          node = record n { ramlock = false };
          parent = h.parent;
          last = h.last;
          here = ground arith;
          unlocked = refl;
          directory = h.directory;
          entries = h.entries;
          named = h.named;
          apart = h.apart;
        },
        λ q ne. ground (arith, ne),
      )

  attach_lem :
      (d : Dentry)
      → AllNamed text (d ∷ [])
      → DifferFrom d es
      → (s' : State) × (ramfs_dir_attach p d s ≡ ok (pos 0, s'))
        × Holds p (record d { seq = h.last } ∷ es) s'
        × KeepsOthers p s s'
  unfolding ramfs_dir_attach attach_entry lock_node unlock_node get_node put_node entries_of
      parent_of lastseq_of
  attach_lem d named differ =
      let n = h.node in
      let m = record n {
        linkcount = int_incr n.linkcount;
        payload = Payload.dir (record d { seq = h.last } ∷ es) h.parent ((h.last + 1) % 2 ^ 64);
      } in
      let nodes =
        update
          (update (update s.disk.nodes p (some (record n { ramlock = true }))) p
            (some (record m { ramlock = true })))
          p (some (record m { ramlock = false })) in
      (
        record s { disk = record (s.disk) { nodes = nodes } },
        ground (arith, h.here, h.unlocked, h.entries, h.directory),
        record {
          node = record m { ramlock = false };
          parent = h.parent;
          last = (h.last + 1) % 2 ^ 64;
          here = ground arith;
          unlocked = refl;
          directory = h.directory;
          entries = refl;
          named = (named.0, h.named);
          apart = (differ, h.apart);
        },
        λ q ne. ground (arith, ne),
      )

  detach_lem :
      (d : Dentry) (fs : List Dentry)
      → detach d.addr es ≡ ok fs
      → AllNamed text fs
      → Apart fs
      → (s' : State) × (ramfs_dir_detach p d s ≡ ok (tt, s')) × Holds p fs s' × KeepsOthers p s s'
  unfolding ramfs_dir_detach with_entries lock_node unlock_node get_node put_node entries_of
  detach_lem d fs e named apart =
      let n = h.node in
      let m = record n {
        linkcount = int_decr n.linkcount;
        payload = Payload.dir fs h.parent h.last;
      } in
      let nodes =
        update
          (update (update s.disk.nodes p (some (record n { ramlock = true }))) p
            (some (record m { ramlock = true })))
          p (some (record m { ramlock = false })) in
      (
        record s { disk = record (s.disk) { nodes = nodes } },
        ground (arith, h.here, h.unlocked, h.entries, e),
        record {
          node = record m { ramlock = false };
          parent = h.parent;
          last = h.last;
          here = ground arith;
          unlocked = refl;
          directory = h.directory;
          entries = refl;
          named = named;
          apart = apart;
        },
        λ q ne. ground (arith, ne),
      )

  -- The lookup of a name in a directory finds the node that its map has, and keeps the directory.
  ramfs_dir_lookup-node_of :
      (t rest : List ℕ)
      → IsText t
      → t ≢ []
      → (o : Option Dentry) × (s' : State) × (ramfs_dir_lookup p (c_string t rest) s ≡ ok (o, s'))
        × (found_node o ≡ node_of es t)
        × Holds p es s'
        × KeepsOthers p s s'
  ramfs_dir_lookup-node_of t rest ist ne =
      let o = first (λ d. same (text d) t) es in
      let (s', e, k, same_nodes) =
        lookup_lem (c_string t rest) o (find_entry-first text t rest ist ne es h.named) in
      (o, s', e, first-node_of es t, k, same_nodes)

-- In an unlocked directory whose entries have names and addresses of their own, an entry with a
-- name and an address that are not among them can be attached. Its name then has its node, and
-- every other name what it had; a lookup of a text that is not empty finds the node that it has;
-- the directory is unlocked again, its entries have names and addresses of their own, and every
-- other node is as it was.
pub ramfs_dir_attach-node_of :
    (p : Ptr) (es : List Dentry) (s : State) (d : Dentry) (t rest : List ℕ)
    → Holds p es s
    → AllNamed text (d ∷ [])
    → DifferFrom d es
    → IsText t
    → t ≢ []
    → (s' s'' : State) × (o : Option Dentry) × (fs : List Dentry) × (ramfs_dir_attach p d s
        ≡ ok (pos 0, s'))
      × (ramfs_dir_lookup p (c_string t rest) s' ≡ ok (o, s''))
      × (found_node o ≡ node_of fs t)
      × Holds p fs s''
      × KeepsOthers p s s''
      × ((u : List ℕ) → node_of fs u ≡ (if same (text d) u then some d.node else node_of es u))
ramfs_dir_attach-node_of p es s d t rest h named differ ist ne =
    let (s', e, k, same_nodes) = attach_lem h d named differ in
    let (o, s'', e', found, k', same_nodes') = ramfs_dir_lookup-node_of k t rest ist ne in
    (
      s',
      s'',
      o,
      record d { seq = h.last } ∷ es,
      e,
      e',
      found,
      k',
      λ q out. same_nodes' q out ∙ same_nodes q out,
      λ u. refl,
    )

is_found :
    (o : Option Dentry) (a : Ptr)
    → found_node o ≡ some a
    → (d : Dentry) × (o ≡ some d) × (d.node ≡ a)
is_found none a e = cc
is_found (some d) a e = (d, refl, cc)

-- In such a directory the entry that a lookup finds can be detached. Afterwards its name has no
-- node, and every other name the one that it had; the directory is unlocked again, its entries
-- have names and addresses of their own, and every other node is as it was.
pub ramfs_dir_detach-node_of :
    (p : Ptr) (es : List Dentry) (s : State) (t rest : List ℕ) (a : Ptr)
    → Holds p es s
    → IsText t
    → t ≢ []
    → node_of es t ≡ some a
    → (d : Dentry) × (s' s'' : State) × (fs : List Dentry) × (ramfs_dir_lookup p (c_string t rest) s
        ≡ ok (some d, s'))
      × (d.node ≡ a)
      × (ramfs_dir_detach p d s' ≡ ok (tt, s''))
      × Holds p fs s''
      × KeepsOthers p s s''
      × ((u : List ℕ) → node_of fs u ≡ (if same t u then none else node_of es u))
ramfs_dir_detach-node_of p es s t rest a h ist ne has =
    let (d, e, at') = is_found (first (λ d. same (text d) t) es) a (first-node_of es t ∙ has) in
    let (s', e', k, same_nodes) =
      lookup_lem h (c_string t rest) (some d)
        (find_entry-first text t rest ist ne es h.named ∙ ap ok e) in
    let (fs, e'', r) = detach-Removed es t d h.named h.apart e in
    let (s'', e3, k', same_nodes') = detach_lem k d fs e'' r.named r.apart in
    (d, s', s'', fs, e', at', e3, k', λ q out. same_nodes' q out ∙ same_nodes q out, r.nodes)
