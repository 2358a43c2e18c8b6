-- ===== src/Fs/Ramfs/Store.antt =====
-- fs/ramfs/ramfs.h: the structures of ramfs and the store of those that are allocated. The list
-- of the entries of a directory, linked through `next`, is a list of entries, each with its
-- address. The union of `struct ramnode` is a data type: the code reads the part that belongs to
-- the type of the node, and a read of another part is a fault.
use franklin.Base.{
  ℕ, ◌+◌, ◌-◌, ◌%◌, ◌^◌, Bool, true, false, Option, none, some, List, if◌then◌else◌, Run, ok, fault,
  stuck, or_fault, and_then, Cmd, lift, ◌>>=◌,
}
use franklin.Text.{Buffer}
use franklin.Fs.State.{Ptr, Vtype, Fs, update}

-- `struct ramdentry`
pub record Dentry : Type 0 where
  pub addr : Ptr
  pub node : Ptr
  pub seq : ℕ
  pub name : Buffer

pub data Payload : Type 0 where
  dir : (entries : List Dentry) → (parent : Ptr) → (lastseq : ℕ) → Payload
  lnk : (link : Buffer) → Payload
  reg : (bytes : Option Buffer) → (size : ℕ) → Payload
  plain : Payload

-- `struct ramnode`
pub record Ramnode : Type 0 where
  pub prev : Ptr
  pub next : Ptr
  pub vnode : Ptr
  pub kind : Vtype
  pub ramlock : Bool
  pub linkcount : ℕ
  pub payload : Payload

-- `struct ramvfs`
pub record Ramvfs : Type 0 where
  pub root : Ptr
  pub nodes : Ptr

pub record Disk : Type 0 where
  pub nodes : Ptr → Option Ramnode
  pub mounts : Ptr → Option Ramvfs

abbrev pub State : Type 0
State = Fs Disk

unfoldable pub get_node : Ptr → Cmd State Ramnode
get_node p s = and_then (or_fault (s.disk.nodes p)) (λ n. ok (n, s))

unfoldable pub put_node : Ptr → Ramnode → Cmd State (Unit {0})
put_node p n s =
    ok (tt, record s { disk = record (s.disk) { nodes = update s.disk.nodes p (some n) } })

unfoldable pub drop_node : Ptr → Cmd State (Unit {0})
drop_node p s = ok (tt, record s { disk = record (s.disk) { nodes = update s.disk.nodes p none } })

unfoldable pub get_ram : Ptr → Cmd State Ramvfs
get_ram p s = and_then (or_fault (s.disk.mounts p)) (λ r. ok (r, s))

unfoldable pub put_ram : Ptr → Ramvfs → Cmd State (Unit {0})
put_ram p r s =
    ok (tt, record s { disk = record (s.disk) { mounts = update s.disk.mounts p (some r) } })

unfoldable pub drop_ram : Ptr → Cmd State (Unit {0})
drop_ram p s = ok (tt, record s { disk = record (s.disk) { mounts = update s.disk.mounts p none } })

-- `acquire` and `release` on `ramlock`.
unfoldable pub lock_node : Ptr → Cmd State (Unit {0})
unfolding get_node put_node
lock_node p = do
  n ← get_node p
  if n.ramlock then lift stuck else put_node p (record n { ramlock = true })

unfoldable pub unlock_node : Ptr → Cmd State (Unit {0})
unfolding get_node put_node
unlock_node p = do n ← get_node p; put_node p (record n { ramlock = false })

-- The parts of the union.
unfoldable pub entries_of : Payload → Run (List Dentry)
entries_of (Payload.dir es parent lastseq) = ok es
entries_of _ = fault

unfoldable pub parent_of : Payload → Run Ptr
parent_of (Payload.dir es parent lastseq) = ok parent
parent_of _ = fault

unfoldable pub lastseq_of : Payload → Run ℕ
lastseq_of (Payload.dir es parent lastseq) = ok lastseq
lastseq_of _ = fault

unfoldable pub link_of : Payload → Run Buffer
link_of (Payload.lnk link) = ok link
link_of _ = fault

unfoldable pub file_of : Payload → Run (Option Buffer × ℕ)
file_of (Payload.reg bytes size) = ok (bytes, size)
file_of _ = fault

-- `node->linkcount += 1` and `-= 1` on an `int`.
abbrev pub int_incr : ℕ → ℕ
int_incr n = (n + 1) % 2 ^ 32

abbrev pub int_decr : ℕ → ℕ
int_decr n = (n + (2 ^ 32 - 1)) % 2 ^ 32
