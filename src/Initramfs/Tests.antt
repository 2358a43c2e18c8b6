-- ===== src/Initramfs/Tests.antt =====
-- fs/ramfs/initramfs.c: the laws at concrete fields, and an archive of one file.
use franklin.Base.{◌≡◌, refl, arith, List, [], ◌∷◌, take, replicate, ok, some, pure}
use franklin.Text.{Buffer}
use franklin.Initramfs.Walk.{Calls, initramfs}
use franklin.Initramfs.Archive.{Member, IsMember, archive}
use franklin.Initramfs.Unpack.{store_all, initramfs-store_all}

-- Calls that keep what is written, under the name of the last file that was created.
abbrev Log : Type 0
Log = Buffer × List (Buffer × Buffer)

abbrev log_calls : Calls Log
log_calls = record {
  create = λ name vn s. ok (7, (name, s.1));
  write_all = λ vn buf size s. ok (tt, (s.0, (s.0, take size buf) ∷ s.1));
  close = λ vn. pure tt;
}

abbrev motd : Member
motd = record {
  name = b'm' ∷ b'o' ∷ b't' ∷ b'd' ∷ [];
  name_rest = replicate 95 0;
  ids = replicate 24 b'0';
  times = replicate 20 b'0';
  link = replicate 100 0;
  owner = replicate 250 0;
  content = b'h' ∷ b'i' ∷ [];
  padding = replicate 510 0;
}

motd-IsMember : IsMember motd
motd-IsMember = record {
  is_text = (omega arith, (omega arith, (omega arith, (omega arith, tt))));
  not_empty = λ e. cc;
  fits = omega arith;
  name_field = refl;
  ids_field = refl;
  times_field = refl;
  link_field = refl;
  owner_field = refl;
  size = omega arith;
  blocks = refl;
}

abbrev stack_bytes : Buffer
stack_bytes = replicate 99 5

initramfs-store_all_example :
    initramfs log_calls 2 (some (archive (motd ∷ []) (replicate 1024 0))) stack_bytes 3 ([], [])
    ≡ store_all log_calls (motd ∷ []) (replicate 1024 0) stack_bytes 3 ([], [])
initramfs-store_all_example =
    initramfs-store_all log_calls (motd ∷ []) (replicate 1024 0) (replicate 766 0) stack_bytes 0 3
      ([], []) (motd-IsMember, tt) refl refl

stored :
    store_all log_calls (motd ∷ []) (replicate 1024 0) stack_bytes 3 ([], [])
    ≡ ok (
      tt,
      (
        b'/' ∷ (b'm' ∷ b'o' ∷ b't' ∷ b'd' ∷ 0 ∷ replicate 94 5),
        (b'/' ∷ (b'm' ∷ b'o' ∷ b't' ∷ b'd' ∷ 0 ∷ replicate 94 5), b'h' ∷ b'i' ∷ []) ∷ [],
      ),
    )
unfolding store_all
stored = refl
