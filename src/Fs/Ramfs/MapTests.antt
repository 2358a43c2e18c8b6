-- ===== src/Fs/Ramfs/MapTests.antt =====
-- fs/ramfs/ramfs.c: the laws of names and nodes at a directory of two entries.
use franklin.Base.{
  ℕ, ◌≡◌, refl, false, if◌then◌else◌, Option, none, some, List, [], ◌∷◌, pos, ok, ◌==◌,
}
use franklin.Text.Laws.{c_string, same}
use franklin.Fs.State.{Vtype}
use franklin.Fs.Ramfs.Store.{Dentry, Payload, Ramnode, State}
use franklin.Fs.Ramfs.Entries.{ramfs_dir_attach, ramfs_dir_detach, ramfs_dir_lookup}
use franklin.Fs.Ramfs.Directory.{text, node_of, found_node}
use franklin.Fs.Ramfs.Maps.{Holds, KeepsOthers, ramfs_dir_attach-node_of, ramfs_dir_detach-node_of}

abbrev ma_text : List ℕ
ma_text = b'm' ∷ b'a' ∷ []

abbrev mac : Dentry
mac = record { addr = 2; node = 20; seq = 4; name = b'm' ∷ b'a' ∷ b'c' ∷ 0 ∷ [] }

abbrev ma : Dentry
ma = record { addr = 1; node = 21; seq = 3; name = b'm' ∷ b'a' ∷ 0 ∷ 9 ∷ [] }

abbrev z : Dentry
z = record { addr = 3; node = 22; seq = 0; name = b'z' ∷ 0 ∷ [] }

abbrev directory : Ramnode
directory = record {
  prev = 0;
  next = 0;
  vnode = 0;
  kind = Vtype.vdir;
  ramlock = false;
  linkcount = 4;
  payload = Payload.dir (mac ∷ ma ∷ []) 5 5;
}

abbrev disk_state : State
disk_state = record {
  vnodes = λ _. none;
  mounts = λ _. none;
  rootfs = 0;
  rootvn = 0;
  mountedlist = 0;
  fs_types = [];
  vfslist_lock = false;
  brk = 30;
  disk = record { nodes = λ a. if a == 5 then some directory else none; mounts = λ _. none };
}

directory-Holds : Holds 5 (mac ∷ ma ∷ []) disk_state
directory-Holds = record {
  node = directory;
  parent = 5;
  last = 5;
  here = refl;
  unlocked = refl;
  directory = refl;
  entries = refl;
  named = (
    ((λ e. cc, (λ e. cc, (λ e. cc, tt))), (λ e. cc), ([], refl)),
    (((λ e. cc, (λ e. cc, tt)), (λ e. cc), (9 ∷ [], refl)), tt),
  );
  apart = (((λ e. cc, λ e. cc), tt), (tt, tt));
}

ramfs_dir_attach-node_of_example :
    (s' s'' : State) × (o : Option Dentry) × (fs : List Dentry) × (ramfs_dir_attach 5 z disk_state
      ≡ ok (pos 0, s'))
    × (ramfs_dir_lookup 5 (c_string ma_text []) s' ≡ ok (o, s''))
    × (found_node o ≡ node_of fs ma_text)
    × Holds 5 fs s''
    × KeepsOthers 5 disk_state s''
    × ((u : List ℕ)
        → node_of fs u ≡ (if same (text z) u then some 22 else node_of (mac ∷ ma ∷ []) u))
ramfs_dir_attach-node_of_example =
    ramfs_dir_attach-node_of 5 (mac ∷ ma ∷ []) disk_state z ma_text [] directory-Holds
      (((λ e. cc, tt), (λ e. cc), ([], refl)), tt) ((λ e. cc, λ e. cc), ((λ e. cc, λ e. cc), tt))
      (λ e. cc, (λ e. cc, tt)) (λ e. cc)

found_ma : node_of (mac ∷ ma ∷ []) ma_text ≡ some 21
unfolding same
found_ma = refl

ramfs_dir_detach-node_of_example :
    (d : Dentry) × (s' s'' : State) × (fs : List Dentry) × (ramfs_dir_lookup 5
        (c_string ma_text [])
        disk_state
      ≡ ok (some d, s'))
    × (d.node ≡ 21)
    × (ramfs_dir_detach 5 d s' ≡ ok (tt, s''))
    × Holds 5 fs s''
    × KeepsOthers 5 disk_state s''
    × ((u : List ℕ) → node_of fs u ≡ (if same ma_text u then none else node_of (mac ∷ ma ∷ []) u))
ramfs_dir_detach-node_of_example =
    ramfs_dir_detach-node_of 5 (mac ∷ ma ∷ []) disk_state ma_text [] 21 directory-Holds
      (λ e. cc, (λ e. cc, tt)) (λ e. cc) found_ma
