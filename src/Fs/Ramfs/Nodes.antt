-- ===== src/Fs/Ramfs/Nodes.antt =====
-- fs/ramfs/ramfs.c: making and freeing ramnodes, and the list of all of them.
use franklin.Base.{
  ℕ, false, ◌==◌, if◌then◌else◌, Option, none, [], Cmd, pure, lift, ◌>>=◌, ◌>>◌, Run, ok, and_then,
  or_fault,
}
use franklin.Text.{Buffer, strdup}
use franklin.Fs.State.{Ptr, null, Vtype, kalloc}
use franklin.Fs.Ramfs.Store.{Payload, State, get_node, put_node, drop_node, get_ram, put_ram}

-- `SEQ_START`
abbrev pub seq_start : ℕ
seq_start = 3

-- The part of a new node that depends on its type; `link` may be null only for other types.
unfoldable pub new_payload : Ptr → Ptr → Vtype → Option Buffer → Run Payload
unfolding strdup
new_payload node parent Vtype.vdir link =
    ok (Payload.dir [] (if parent == 0 then node else parent) seq_start)
new_payload node parent Vtype.vlnk link =
    and_then (or_fault link) (λ l. and_then (strdup l) (λ copy. ok (Payload.lnk copy)))
new_payload node parent Vtype.vreg link = ok (Payload.reg none 0)
new_payload node parent _ link = ok Payload.plain

-- `if (p) p->prev = q;`
unfoldable pub set_prev : Ptr → Ptr → Cmd State (Unit {0})
unfolding get_node put_node
set_prev p q = if p == 0 then pure tt else get_node p >>= λ n. put_node p (record n { prev = q })

-- `if (p) p->next = q;`
unfoldable pub set_next : Ptr → Ptr → Cmd State (Unit {0})
unfolding get_node put_node
set_next p q = if p == 0 then pure tt else get_node p >>= λ n. put_node p (record n { next = q })

-- The new node goes to the front of the list in `ram`. Its lock is taken and released in between,
-- where nobody else can see it.
unfoldable pub ramfs_alloc_node : Ptr → Ptr → Vtype → Option Buffer → Cmd State Ptr
unfolding kalloc put_node get_ram put_ram set_prev new_payload
ramfs_alloc_node ram parent kind link = do
  node ← kalloc
  r ← get_ram ram
  set_prev r.nodes node
  put_ram ram (record r { nodes = node })
  payload ← lift (new_payload node parent kind link)
  put_node node (record {
    prev = null;
    next = r.nodes;
    vnode = null;
    kind = kind;
    ramlock = false;
    linkcount = elim kind [ Vtype.vdir ↦ 1 | _ ↦ 0 ];
    payload = payload;
  })
  pure node

-- The node behind gets a new predecessor; then `node->prev = node->next` changes only the node
-- itself, which is freed. The node before keeps its pointer to it.
unfoldable pub ramfs_free_node : Ptr → Ptr → Cmd State (Unit {0})
unfolding get_node put_node set_prev drop_node
ramfs_free_node ram node = do
  n ← get_node node
  set_prev n.next n.prev
  m ← get_node node
  put_node node (record m { prev = m.next })
  drop_node node
