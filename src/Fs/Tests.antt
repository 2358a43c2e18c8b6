-- ===== src/Fs/Tests.antt =====
-- Runs of the file system on ramfs, after fs/ramfs/ramfs.c, `ramfs_t`.
use Prim.Native.Char.{code}
use Prim.Native.String.{String}
use franklin.Base.{
  ℕ, ◌≡◌, refl, false, none, some, List, [], ◌∷◌, ◌++◌, ℤ, pos, Run, ok, panicked, fault, and_then,
  Cmd, pure, ◌>>=◌, ◌>>◌,
}
use franklin.Text.{Buffer}
use franklin.Fs.Errors.{enoent, eexist}
use franklin.Fs.State.{Ptr, Vtype, null}
use franklin.Fs.Vfs.Files.{vfs_open, vfs_create, vfs_unlink, vfs_link, vfs_symlink, vfs_readdir}
use franklin.Fs.Vfs.Close.{vfs_close}
use franklin.Fs.Vfs.Dirs.{vfs_mkdir, vfs_rmdir}
use franklin.Fs.Vfs.Mounts.{init_rootfs, init_rootvn, vfs_mount, vfs_unmount}
use franklin.Fs.Ramfs.Store.{State}
use franklin.Fs.Ramfs.Table.{ram_ops}

abbrev codes : String → List ℕ
codes String.[] = []
codes (String.◌∷◌ c s) = code c ∷ codes s

abbrev path : String → Buffer
path s = codes s ++ 0 ∷ []

abbrev blank : State
blank = record {
  vnodes = λ _. none;
  mounts = λ _. none;
  rootfs = null;
  rootvn = null;
  mountedlist = null;
  fs_types = [];
  vfslist_lock = false;
  brk = 1;
  disk = record { nodes = λ _. none; mounts = λ _. none };
}

boot : Cmd State (Unit {0})
unfolding init_rootfs vfs_mount init_rootvn ram_ops
boot = do init_rootfs ram_ops; vfs_mount ram_ops 8 0 none (path "ramfs"); init_rootvn ram_ops

result : {A : Type 0} → Cmd State A → Run A
unfolding boot
result m = and_then ((boot >> m) blank) (λ p. ok p.0)

module _ (s : String) where
  mkdir : Cmd State ℤ
  unfolding vfs_mkdir ram_ops
  mkdir = do r ← vfs_mkdir ram_ops 8 0 (path s) null; pure r.0

  rmdir : Cmd State ℤ
  unfolding vfs_rmdir ram_ops
  rmdir = vfs_rmdir ram_ops 8 0 (path s)

  create : Cmd State (ℤ × Ptr)
  unfolding vfs_create ram_ops
  create = vfs_create ram_ops 8 0 (path s) null Vtype.vreg

  open_file : Cmd State (ℤ × Ptr)
  unfolding vfs_open ram_ops
  open_file = vfs_open ram_ops 8 0 (path s) null Vtype.vnon 0

  unlink : Cmd State ℤ
  unfolding vfs_unlink ram_ops
  unlink = vfs_unlink ram_ops 8 0 (path s)

  mount_ram : Cmd State ℤ
  unfolding vfs_mount ram_ops
  mount_ram = vfs_mount ram_ops 8 0 (some (path s)) (path "ramfs")

  unmount : Cmd State ℤ
  unfolding vfs_unmount ram_ops
  unmount = vfs_unmount ram_ops 8 0 (path s)

  symlink : String → Cmd State ℤ
  unfolding vfs_symlink ram_ops
  symlink t = vfs_symlink ram_ops 8 0 (path s) (path t)

  link : String → Cmd State ℤ
  unfolding vfs_link ram_ops
  link t = vfs_link ram_ops 8 0 (path s) (path t)

close : Ptr → Cmd State (Unit {0})
unfolding vfs_close ram_ops
close = vfs_close ram_ops

list_dir : Ptr → Cmd State (ℤ × ℕ)
unfolding vfs_readdir ram_ops
list_dir p = do r ← vfs_readdir ram_ops p 4096 0; pure (r.0, r.2)

-- Nested directories.
mkdir_nested : result (mkdir "/a" >> (mkdir "/a/b" >> mkdir "/a/b/c")) ≡ ok (pos 0)
unfolding result mkdir
mkdir_nested = refl

mkdir_twice : result (mkdir "/a" >> mkdir "/a") ≡ ok eexist
unfolding result mkdir
mkdir_twice = refl

open_created : result (create "/f" >> open_file "/f") ≡ ok (pos 0, 7)
unfolding result create open_file
open_created = refl

rmdir_empty : result (mkdir "/a" >> rmdir "/a") ≡ ok (pos 0)
unfolding result mkdir rmdir
rmdir_empty = refl

-- A mounted file system, and the way out of it by `..`.
mkdir_above_mount : result (mkdir "/mnt" >> (mount_ram "/mnt" >> mkdir "/mnt/../y")) ≡ ok (pos 0)
unfolding result mkdir mount_ram
mkdir_above_mount = refl

mkdir_above_root : result (mkdir "/../../x") ≡ ok (pos 0)
unfolding result mkdir
mkdir_above_root = refl

unlink_linked : result (create "/f" >> (link "/g" "/f" >> unlink "/f")) ≡ ok (pos 0)
unfolding result create unlink link
unlink_linked = refl

mkdir_by_symlink :
    result (mkdir "/a" >> (mkdir "/a/b" >> (symlink "/a/b/l" "/a" >> mkdir "/a/b/l/q")))
    ≡ ok (pos 0)
unfolding result mkdir symlink
mkdir_by_symlink = refl

-- A file as a directory on the way: the parent is released twice.
create_under_file : result (create "/f" >>= λ r. close r.1 >> create "/f/x") ≡ fault
unfolding result create close
create_under_file = refl

-- The lookup finds `/ma` in `/main.c`, and the removal then does not.
unlink_prefix : result (create "/main.c" >> unlink "/ma") ≡ panicked
unfolding result create unlink
unlink_prefix = refl

-- The list of all nodes still begins with the node that was freed.
create_after_unlink :
    result (create "/f" >>= λ r. close r.1 >> (unlink "/f" >> create "/g")) ≡ fault
unfolding result create unlink close
create_after_unlink = refl

-- The nodes that `ramfs_unmount` frees are read once more.
unmount_used :
    result (mkdir "/mnt" >> (mount_ram "/mnt" >> (mkdir "/mnt/x" >> unmount "/mnt"))) ≡ fault
unfolding result mkdir mount_ram unmount
unmount_used = refl

-- With a slash at its end a path names the parent.
open_trailing_slash : result (mkdir "/a" >> open_file "/a/") ≡ result (open_file "/")
unfolding result mkdir open_file
open_trailing_slash = refl

-- `..` is compared with all that is left of the path.
open_through_dotdot : result (mkdir "/a" >> (open_file "/a/../a" >>= λ r. pure r.0)) ≡ ok enoent
unfolding result mkdir open_file
open_through_dotdot = refl

-- The state that a run leaves.
final : {A : Type 0} → Run (A × State) → State
final (ok p) = p.1
final _ = blank

-- A file `/f`.
one_file : State
unfolding final boot create
one_file = final ((boot >> create "/f") blank)

one_link : State
unfolding final one_file vfs_symlink ram_ops
one_link = final (vfs_symlink ram_ops 8 0 (path "/l") (path "/a") one_file)

-- The link is made, and the call says -ENOENT.
make_link : vfs_symlink ram_ops 8 0 (path "/l") (path "/a") one_file ≡ ok (enoent, one_link)
unfolding one_link
make_link = refl

mkdir_file : State
unfolding final one_file vfs_mkdir ram_ops
mkdir_file = final (vfs_mkdir ram_ops 8 0 (path "/f") 99 one_file)

mkdir_again : vfs_mkdir ram_ops 8 0 (path "/f") 99 one_file ≡ ok ((eexist, 99), mkdir_file)
unfolding mkdir_file
mkdir_again = refl
