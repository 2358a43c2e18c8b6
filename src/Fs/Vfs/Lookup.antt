-- ===== src/Fs/Vfs/Lookup.antt =====
-- fs/vfs.c, `lookup`: the walk along a path, one component a round. A round is a command of its
-- own, which says whether the walk goes on. Each round but the last shortens the path, so the
-- length of the path is fuel enough; the walks across mount points run on one round for each
-- address in use.
pub mod Fuel
use franklin.Base.{
  ℕ, zero, suc, ◌+◌, Bool, true, false, not, ◌&&◌, ◌||◌, [], ◌∷◌, ◌==◌, if◌then◌else◌, drop, length,
  bit_and, bit_or, ℤ, pos, is_zero, Run, ok, fault, out_of_fuel, and_then, Cmd, pure, lift, gets,
  ◌>>=◌, ◌>>◌,
}
use franklin.Text.{Buffer, read, strncmp}
use franklin.Fs.State.{
  Ptr, Nameidata, Fs, is_dir, is_lnk, vroot, issymlink, follow, get_vnode, get_mount,
}
use franklin.Fs.Locks.{acquire, release, vref}
use franklin.Fs.Ops.{Ops}
use franklin.Fs.Vfs.Close.{vput, vrele}

-- `for (cp = name; *cp && *cp != '/'; cp++);`
unfoldable pub component_len : Buffer → Run ℕ
component_len [] = fault
component_len (c ∷ cs) =
    let rest = component_len cs in
    if c == 0 then ok 0 else if c == b'/' then ok 0 else and_then rest (λ n. ok (suc n))

-- `while (*name == '/') name++;`
unfoldable pub skip_slashes : Buffer → Run Buffer
skip_slashes [] = fault
skip_slashes (c ∷ cs) = if c == b'/' then skip_slashes cs else ok (c ∷ cs)

abbrev pub dotdot : Buffer
dotdot = b'.' ∷ b'.' ∷ 0 ∷ []

-- How a round of a walk ends.
pub data Next (A B : Type 0) : Type 0 where
  done : A → Next A B
  again : B → Next A B

module _ {D : Type 0} (ops : Ops D) where
  -- `..` from the root of a mounted file system goes on from its mount point, and stays at the
  -- root of all. The result says whether it was met.
  unfoldable pub climb_step : Ptr → Cmd (Fs D) (Next (Bool × Ptr) Ptr)
  unfolding acquire release vref get_vnode get_mount vrele
  climb_step vdir = do
    root ← gets (λ s. s.rootvn)
    if vdir == root then pure (done (true, vdir)) else do
      acquire vdir
      v ← get_vnode vdir
      if bit_and v.flags vroot == 0
          then release vdir >> pure (done (false, vdir))
          else do m ← get_mount v.vfs; vrele ops vdir; vref m.mountpoint; pure (again m.mountpoint)

  unfoldable pub climb : ℕ → Ptr → Cmd (Fs D) (Bool × Ptr)
  unfolding climb_step
  climb zero vdir = lift out_of_fuel
  climb (suc fuel) vdir =
      climb_step vdir >>= λ r. elim r [ done d ↦ pure d | again vdir' ↦ climb fuel vdir' ]

  -- Into the file system that is mounted on `vdir`.
  unfoldable pub enter_mount : Ptr → Ptr → Ptr → Cmd (Fs D) (Next (ℤ × Ptr × Ptr) (Ptr × Ptr))
  unfolding acquire vrele
  enter_mount m vdir vn = do
    vrele ops vdir
    r ← ops.root m
    if is_zero r.0 then acquire r.1 >> pure (again (r.1, r.1)) else pure (done (r.0, r.1, vn))

  -- `while (vdir->type == VDIR && (vfs = vdir->mountedhere))`, with `vdir` locked. The result is
  -- the error, `vdir` and `ndp->vn`.
  unfoldable pub cross_step : Ptr → Ptr → Cmd (Fs D) (Next (ℤ × Ptr × Ptr) (Ptr × Ptr))
  unfolding get_vnode enter_mount
  cross_step vdir vn = do
    v ← get_vnode vdir
    if is_dir v.kind && not (v.mountedhere == 0)
        then enter_mount v.mountedhere vdir vn
        else pure (done (pos 0, vdir, vn))

  unfoldable pub cross : ℕ → Ptr → Ptr → Cmd (Fs D) (ℤ × Ptr × Ptr)
  unfolding cross_step
  cross zero vdir vn = lift out_of_fuel
  cross (suc fuel) vdir vn =
      cross_step vdir vn >>= λ r. elim r [ done d ↦ pure d | again p ↦ cross fuel p.0 p.1 ]

  -- `nextname`, with `vdir` the vnode that was found. The vnode of the last component is
  -- unlocked, and any other takes the place of its parent.
  unfoldable pub next_name : Nameidata → Ptr → Cmd (Fs D) (Next (ℤ × Nameidata) (Nameidata × Ptr))
  unfolding skip_slashes read release vput
  next_name nd vdir = do
    c ← lift (read nd.next 0)
    if c == 0 then release vdir >> pure (done (pos 0, nd)) else do
      name ← lift (skip_slashes nd.next)
      vput ops nd.vdir
      release vdir
      pure (again (record nd { name = name }, vdir))

  -- What follows the walk into the mounted file systems, with its result. A symbolic link ends
  -- the lookup, which `namei` goes on from.
  unfoldable pub found_in :
      Nameidata → ℤ × Ptr × Ptr → Cmd (Fs D) (Next (ℤ × Nameidata) (Nameidata × Ptr))
  unfolding get_vnode next_name read
  found_in nd x =
      let nd' = record nd { vn = x.2 } in
      if not (is_zero x.0) then pure (done (x.0, nd')) else do
        v ← get_vnode x.1
        c ← lift (read nd'.next 0)
        if is_lnk v.kind && (not (bit_and nd'.flags follow == 0) || c == b'/')
            then pure (done (pos 0, record nd' { flags = bit_or nd'.flags issymlink }))
            else next_name nd' x.1

  -- The search in directory `vdir`, and what follows it.
  unfoldable pub walk_in : Nameidata → Ptr → Cmd (Fs D) (Next (ℤ × Nameidata) (Nameidata × Ptr))
  unfolding acquire release cross found_in
  walk_in nd vdir = do
    acquire vdir
    r ← ops.lookup vdir nd.name nd.len nd.vn
    release vdir
    let nd' = record nd { vn = r.1 }
    if not (is_zero r.0)
        then pure (done (r.0, nd'))
        else do acquire r.1; fuel ← gets (λ s. s.brk); x ← cross fuel r.1 r.1; found_in nd' x

  -- A component that begins with two dots.
  unfoldable pub walk_up : Nameidata → Ptr → Cmd (Fs D) (Next (ℤ × Nameidata) (Nameidata × Ptr))
  unfolding vref climb next_name walk_in
  walk_up nd vdir = do
    fuel ← gets (λ s. s.brk)
    r ← climb fuel vdir
    if r.0
        then vref r.1 >> next_name (record nd { vdir = r.1; vn = r.1 }) r.1
        else walk_in (record nd { vdir = r.1 }) r.1

  -- One round of the loop.
  unfoldable pub lookup_step : Nameidata → Ptr → Cmd (Fs D) (Next (ℤ × Nameidata) (Nameidata × Ptr))
  unfolding component_len strncmp read vref walk_up walk_in
  lookup_step nd vdir = do
    len ← lift (component_len nd.name)
    let nd' = record nd { len = len; next = drop len nd.name }
    c ← lift (read nd.name 0)
    if c == 0 then vref nd'.vdir >> pure (done (pos 0, record nd' { vn = nd'.vdir })) else do
      differs ← lift (strncmp nd.name dotdot 2)
      if is_zero differs then walk_up nd' vdir else walk_in (record nd' { vdir = vdir }) vdir

  unfoldable pub lookup_loop : ℕ → Nameidata → Ptr → Cmd (Fs D) (ℤ × Nameidata)
  unfolding lookup_step
  lookup_loop zero nd vdir = lift out_of_fuel
  lookup_loop (suc fuel) nd vdir =
      lookup_step nd vdir >>= λ r. elim r [ done d ↦ pure d | again p ↦ lookup_loop fuel p.0 p.1 ]

  unfoldable pub lookup : Nameidata → Cmd (Fs D) (ℤ × Nameidata)
  unfolding lookup_loop
  lookup nd =
      lookup_loop (length nd.name + 1) (record nd { flags = bit_and nd.flags 0xfffffffe }) nd.vdir
