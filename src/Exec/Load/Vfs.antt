-- ===== src/Exec/Load/Vfs.antt =====
-- kernel/proc.c, `loadelf`: over the calls of fs/vfs.c, and a file of the memory file system.
use franklin.Base.{
  int_of, ℕ, ◌+◌, ◌≤◌, ◌≡◌, refl, sym, ◌-◌, ltb, ◌∙◌, ap, arith, true, false, some, [], ◌++◌, ◌∷◌,
  take, drop, length, length-drop, ok, pure, ◌>>=◌,
}
use mathlib.Core.List.{append-nil}
use franklin.Text.{Buffer}
use franklin.Fs.State.{Ptr, Fs, Vtype, Vnode, update, is_dir, get_vnode, put_vnode}
use franklin.Fs.Locks.{acquire, release}
use franklin.Fs.Ops.{Ops}
use franklin.Fs.Vfs.Files.{vfs_open, vfs_read}
use franklin.Fs.Ramfs.Table.{ram_ops}
use franklin.Fs.Ramfs.Store.{
  Payload, Ramnode, State, get_node, put_node, lock_node, unlock_node, file_of,
}
use franklin.Fs.Ramfs.Data.{ramfs_read, read_file}
use franklin.Fs.Ramfs.Data.Laws.{memcpy-take}
use franklin.Exec.Load.{Files}
use franklin.Exec.Load.Outcome.{FileAt}

-- The results are dropped.
unfoldable pub vfs_files : {D : Type 0} → Ops D → (rounds junk : ℕ) → Files (Fs D)
unfolding vfs_open vfs_read
vfs_files ops rounds junk = record {
  open_file = λ name vpp. vfs_open ops rounds junk name vpp Vtype.vnon 0 >>= λ r. pure r.1;
  read_file = λ vn buf offset count. vfs_read ops vn buf offset count >>= λ r. pure r.1;
}

-- A regular file that nobody has locked, with these bytes.
pub record FileIn (vn : Ptr) (content : Buffer) (s : State) : Type 0 where
  pub vnode : Vnode
  pub node : Ramnode
  pub has_vnode : s.vnodes vn ≡ some vnode
  pub free_vnode : vnode.lock ≡ false
  pub is_file : is_dir vnode.kind ≡ false
  pub has_node : s.disk.nodes vnode.node ≡ some node
  pub free_node : node.ramlock ≡ false
  pub has_bytes : node.payload ≡ Payload.reg (some content) (length content)

drop-all : (xs : Buffer) → drop (length xs) xs ≡ []
drop-all [] = refl
drop-all (x ∷ xs) = drop-all xs

read_file-slice :
    (content b : Buffer) (offset count : ℕ)
    → offset + count ≤ length content
    → length b ≡ count
    → read_file (some content) (length content) b offset count
      ≡ ok (int_of count, take count (drop offset content))
unfolding read_file
read_file-slice content b offset count inside size =
    let long : length (drop offset content) ≡ length content - offset =
      length-drop offset content in
    let all = memcpy-take b (drop offset content) count (omega arith) (omega arith) in
    let low : ltb (length content) (offset + count) ≡ false = ground (arith, inside) in
    let rest : drop count b ≡ [] = ap (λ k. drop k b) (sym size) ∙ drop-all b in
    let slice : take count (drop offset content) ++ drop count b
        ≡ take count (drop offset content) =
      ap (λ x. take count (drop offset content) ++ x) rest
      ∙ append-nil (take count (drop offset content)) in
    rw (low, all, slice) refl

-- `vfs_read` of such a file.
vfs_read-slice :
    (vn : Ptr) (content b : Buffer) (offset count : ℕ) (s : State)
    → offset + count ≤ length content
    → length b ≡ count
    → FileIn vn content s
    → (t : State) × (vfs_read ram_ops vn b offset count s
        ≡ ok ((int_of count, take count (drop offset content)), t))
      × FileIn vn content t
unfolding vfs_read ram_ops ramfs_read get_vnode get_node put_node lock_node unlock_node file_of
    acquire release put_vnode
vfs_read-slice vn content b offset count s inside size h =
    let r = read_file-slice content b offset count inside size in
    let v = h.vnode in
    let n = h.node in
    let a = v.node in
    let d =
      update (update s.disk.nodes a (some (record n { ramlock = true }))) a
        (some (record n { ramlock = false })) in
    let vs =
      update (update s.vnodes vn (some (record v { lock = true }))) vn
        (some (record v { lock = false })) in
    let has_vnode = h.has_vnode in
    let free_vnode = h.free_vnode in
    let is_file = h.is_file in
    let has_node = h.has_node in
    let free_node = h.free_node in
    let has_bytes = h.has_bytes in
    (
      record s { vnodes = vs; disk = record (s.disk) { nodes = d } },
      ground (arith, r, has_vnode, free_vnode, is_file, has_node, free_node, has_bytes),
      record {
        vnode = record v { lock = false };
        node = record n { ramlock = false };
        has_vnode = ground arith;
        free_vnode = refl;
        is_file = h.is_file;
        has_node = ground arith;
        free_node = refl;
        has_bytes = h.has_bytes;
      },
    )

pub FileIn-FileAt :
    (vn : Ptr) (content : Buffer) (rounds junk : ℕ)
    → FileAt (vfs_files ram_ops rounds junk) vn content (FileIn vn content)
unfolding vfs_files
FileIn-FileAt vn content rounds junk = record {
  reads = λ s h b offset count inside size.
      let (t, e, h') = vfs_read-slice vn content b offset count s inside size h in
      (t, rw e refl, h');
}
