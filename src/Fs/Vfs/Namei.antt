-- ===== src/Fs/Vfs/Namei.antt =====
-- fs/vfs.c, `namei`: from a path to a vnode, symbolic links included. Links can lead round in a
-- circle, so `rounds` bounds how many walks are made. `junk` is what the flags of the `nameidata`
-- on the caller's stack happen to hold: no caller sets them.
use franklin.Base.{
  ℕ, zero, suc, ◌+◌, not, [], ◌++◌, ◌==◌, if◌then◌else◌, drop, take, replicate, bit_and, Option,
  none, some, ℤ, is_zero, out_of_fuel, or_fault, Cmd, pure, lift, gets, ◌>>=◌, ◌>>◌,
}
use franklin.Text.{Buffer, read, strlen, strdup, strcpy}
use franklin.Fs.State.{Ptr, null, Nameidata, Fs, issymlink}
use franklin.Fs.Ops.{Ops}
use franklin.Fs.Vfs.Close.{vput}
use franklin.Fs.Vfs.Lookup.{Next, done, again, skip_slashes, lookup}

module _ {D : Type 0} (ops : Ops D) where
  -- A path that begins with a slash starts at the root; `vn` is the directory of an earlier round.
  unfoldable pub from_root : Buffer → Option Ptr → ℕ → Cmd (Fs D) (Buffer × Ptr)
  unfolding skip_slashes vput
  from_root name vn x = do
    if x == 0 then pure tt else lift (or_fault vn) >>= λ p. vput ops p
    m ← gets (λ s. s.rootfs)
    r ← ops.root m
    rest ← lift (skip_slashes name)
    pure (rest, r.1)

  -- Concatenates the link and the rest of the path, in a buffer of 512 bytes.
  unfoldable pub follow_link :
      Nameidata → ℕ → Cmd (Fs D) (Next (ℤ × Nameidata) (Nameidata × Option Ptr × ℕ))
  unfolding strcpy vput
  follow_link nd x = do
    p ← ops.readlink nd.vn (some (replicate 512 0))
    tail ← lift (strcpy (drop p.1 p.0) (drop nd.len nd.name))
    vput ops nd.vn
    pure (again (record nd { name = take p.1 p.0 ++ tail }, some nd.vdir, x))

  unfoldable pub namei_step :
      Nameidata → Option Ptr → ℕ → Cmd (Fs D) (Next (ℤ × Nameidata) (Nameidata × Option Ptr × ℕ))
  unfolding read from_root lookup follow_link
  namei_step nd vn x = do
    c ← lift (read nd.name 0)
    p ← if c == b'/' then from_root nd.name vn x else lift (or_fault vn) >>= λ d. pure (nd.name, d)
    r ← lookup ops (record nd { name = p.0; vdir = p.1 })
    if not (is_zero r.0)
        then pure (done r)
        else (if bit_and r.1.flags issymlink == 0
            then pure (done r)
            else follow_link r.1 (if c == b'/' then x + 1 else x))

  unfoldable pub namei_loop : ℕ → Nameidata → Option Ptr → ℕ → Cmd (Fs D) (ℤ × Nameidata)
  unfolding namei_step
  namei_loop zero nd vn x = lift out_of_fuel
  namei_loop (suc fuel) nd vn x =
      namei_step nd vn x >>= λ r. elim r [ done d ↦ pure d | again t ↦ namei_loop fuel t.0 t.1 t.2 ]

  unfoldable pub namei : (rounds junk : ℕ) → Buffer → Cmd (Fs D) (ℤ × Nameidata)
  unfolding namei_loop strdup strlen
  namei rounds junk name = do
    copy ← lift (strdup name)
    len ← lift (strlen name)
    namei_loop rounds
        (record { vdir = null; vn = null; next = []; flags = junk; name = copy; len = len }) none 0
