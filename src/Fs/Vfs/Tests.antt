-- ===== src/Fs/Vfs/Tests.antt =====
-- fs/vfs.c: the laws at concrete states of a file system on ramfs.
use franklin.Base.{bit_and, ◌≡◌, refl, false, arith, none, some, [], ◌∷◌, ok, out_of_fuel, ◌>>◌}
use franklin.Fs.State.{Ptr, Vtype, Vnode, Mount, Nameidata, null, update}
use franklin.Fs.Vfs.Close.Refs.{vput-vref}
use franklin.Fs.Locks.{vref}
use franklin.Fs.Vfs.Close.{vput}
use franklin.Fs.Vfs.Lookup.{lookup}
use franklin.Fs.Vfs.Lookup.Fuel.{Starved, lookup-enough}
use franklin.Fs.Ramfs.Store.{State}
use franklin.Fs.Ramfs.Table.{ram_ops}

abbrev open_dir : Vnode
open_dir = record {
  vfs = 2;
  mountedhere = null;
  kind = Vtype.vdir;
  refcount = 3;
  flags = 1;
  lock = false;
  node = 5;
}

abbrev loop_mount : Mount
loop_mount = record { next = null; mountpoint = 4; flags = 0; private_data = 3 }

-- The root of a file system that is mounted on itself.
abbrev looping : State
looping = record {
  vnodes = update (λ _. none) 4 (some open_dir);
  mounts = update (λ _. none) 2 (some loop_mount);
  rootfs = 2;
  rootvn = 9;
  mountedlist = 2;
  fs_types = [];
  vfslist_lock = false;
  brk = 2;
  disk = record { nodes = λ _. none; mounts = λ _. none };
}

vput-vref_example :
    (t : State) × ((vref 4 >> vput ram_ops 4) looping ≡ ok (tt, t))
    × ((q : Ptr) → t.vnodes q ≡ looping.vnodes q)
    × (t.mounts ≡ looping.mounts)
    × (t.disk ≡ looping.disk)
unfolding ram_ops
vput-vref_example =
    vput-vref ram_ops 4 looping open_dir refl refl (omega arith) (omega arith) (λ t. refl)

abbrev above : Nameidata
above = record { vdir = 4; vn = null; next = []; flags = 0; name = b'.' ∷ b'.' ∷ 0 ∷ []; len = 0 }

lookup_looping : lookup ram_ops above looping ≡ out_of_fuel
unfolding lookup ram_ops
lookup_looping = refl

lookup-enough_example :
    Starved ram_ops (record above { flags = bit_and above.flags 0xfffffffe }) (above.vdir) looping
lookup-enough_example = lookup-enough ram_ops above looping lookup_looping
