-- ===== src/Fs/Ramfs/Tests.antt =====
-- fs/ramfs/ramfs.c: the laws at concrete files.
use franklin.Base.{
  pure, ◌>>=◌, ◌>>◌, negsuc, ℕ, ◌==◌, if◌then◌else◌, false, List, ◌≡◌, refl, arith, none, some, [],
  ◌∷◌, ◌++◌, take, drop, pos, ok,
}
use franklin.Text.{Buffer, strcmp}
use franklin.Fs.State.{Ptr, Vtype, Vnode}
use franklin.Fs.Vfs.Files.{vfs_read, vfs_write}
use franklin.Fs.Ramfs.Store.{lock_node, unlock_node, Dentry, Payload, Ramnode, State}
use franklin.Fs.Ramfs.Table.{ram_ops}
use franklin.Fs.Ramfs.Data.Files.{vfs_read-vfs_write}
use franklin.Fs.Ramfs.Entries.{attach_entry, detach}
use franklin.Fs.Ramfs.Vnodes.{ramfs_lookup, ramfs_vget}
use franklin.Fs.Ramfs.Names.{begins, ramfs_lookup-first}
use franklin.Fs.Ramfs.Order.{Below, attach_entry-Sorted}

abbrev six : Buffer
six = 1 ∷ 2 ∷ 3 ∷ 4 ∷ 5 ∷ 6 ∷ []

abbrev entry : Ptr → ℕ → Buffer → Dentry
entry addr seq name = record { addr = addr; node = 20; seq = seq; name = name }

abbrev text : Dentry → List ℕ
text d = if d.addr == 1 then b'm' ∷ b'a' ∷ [] else b'm' ∷ b'a' ∷ b'c' ∷ []

abbrev mac : Dentry
mac = entry 2 4 (b'm' ∷ b'a' ∷ b'c' ∷ 0 ∷ [])

abbrev ma : Dentry
ma = entry 1 3 (b'm' ∷ b'a' ∷ 0 ∷ [])

abbrev parent_dir : Ramnode
parent_dir = record {
  prev = 0;
  next = 0;
  vnode = 0;
  kind = Vtype.vdir;
  ramlock = false;
  linkcount = 4;
  payload = Payload.dir (mac ∷ ma ∷ []) 5 5;
}

attach_entry-Sorted_example :
    (fs : List Dentry) × (attach_entry parent_dir (entry 9 0 [])
      ≡ ok (record parent_dir { linkcount = 5; payload = Payload.dir fs 5 6 }))
    × Below 6 fs
    × (detach 9 fs ≡ ok (mac ∷ ma ∷ []))
attach_entry-Sorted_example =
    attach_entry-Sorted parent_dir (mac ∷ ma ∷ []) 5 5 (entry 9 0 []) refl
      (omega arith, (omega arith, tt)) (omega arith)

abbrev file_vnode : Vnode
file_vnode = record {
  vfs = 0;
  mountedhere = 0;
  kind = Vtype.vreg;
  refcount = 1;
  flags = 0;
  lock = false;
  node = 5;
}

abbrev file_node : Ramnode
file_node = record {
  prev = 0;
  next = 0;
  vnode = 3;
  kind = Vtype.vreg;
  ramlock = false;
  linkcount = 1;
  payload = Payload.reg none 0;
}

abbrev one_file : State
one_file = record {
  vnodes = λ p. if p == 3 then some file_vnode else none;
  mounts = λ p. none;
  rootfs = 0;
  rootvn = 0;
  mountedlist = 0;
  fs_types = [];
  vfslist_lock = false;
  brk = 9;
  disk = record { nodes = λ p. if p == 5 then some file_node else none; mounts = λ p. none };
}

vfs_read-vfs_write_example :
    (t u : State) × (vfs_write ram_ops 3 six 2 4 one_file ≡ ok (pos 0, t))
    × (vfs_read ram_ops 3 six 2 4 t ≡ ok ((pos 4, take 4 six ++ drop 4 six), u))
vfs_read-vfs_write_example =
    vfs_read-vfs_write 3 six six 2 4 one_file file_vnode file_node none 0 refl refl refl refl refl
      refl refl (omega arith) (omega arith) (omega arith)

abbrev found_file : Ramnode
found_file = record file_node { vnode = 0 }

abbrev dir_vnode : Vnode
dir_vnode = record {
  vfs = 1;
  mountedhere = 0;
  kind = Vtype.vdir;
  refcount = 1;
  flags = 0;
  lock = false;
  node = 6;
}

abbrev one_dir : State
one_dir = record {
  vnodes = λ p. if p == 3 then some dir_vnode else none;
  mounts = λ p. none;
  rootfs = 0;
  rootvn = 0;
  mountedlist = 0;
  fs_types = [];
  vfslist_lock = false;
  brk = 9;
  disk = record {
    nodes = λ p. if p == 6 then some parent_dir else (if p == 20 then some found_file else none);
    mounts = λ p. none;
  };
}

-- `ma` finds the entry `mac`, which stands in front of `ma`.
ramfs_lookup-first_example :
    ramfs_lookup 3 (b'm' ∷ b'a' ∷ 0 ∷ []) 2 0 one_dir
    ≡ (do lock_node 6; r ← ramfs_vget 1 20; unlock_node 6; pure r) one_dir
unfolding begins strcmp
ramfs_lookup-first_example =
    ramfs_lookup-first text 3 (b'm' ∷ b'a' ∷ []) (0 ∷ []) 0 one_dir dir_vnode parent_dir
      (mac ∷ ma ∷ []) 5 5 (negsuc 0) (negsuc 0) refl refl refl refl refl
      (
        ((λ e. cc, (λ e. cc, (λ e. cc, tt))), (λ e. cc), ([], refl)),
        (((λ e. cc, (λ e. cc, tt)), (λ e. cc), ([], refl)), tt),
      )
      (λ e. cc, (λ e. cc, tt)) refl refl refl refl
