-- ===== src/Fs/Vfs/Close/Refs.antt =====
-- References to vnodes: `vref` and `vput` over any file system.
use franklin.Base.{
  ◌+◌, ◌-◌, ◌%◌, ◌^◌, ◌<◌, ◌≡◌, refl, ◌∙◌, true, false, arith, ◌==◌, if◌then◌else◌, Option, some,
  ok, ◌>>◌,
}
use franklin.Fs.State.{Ptr, Vnode, Fs, update, get_vnode, put_vnode}
use franklin.Fs.Locks.{acquire, release, vref, vref_locked}
use franklin.Fs.Ops.{Ops}
use franklin.Fs.Vfs.Close.{vput}

module _ {D : Type 0} where
  -- `t` is `s` with `v` at address `p`, and nothing else changed but the store of vnodes.
  pub record Stores (s : Fs D) (p : Ptr) (v : Option Vnode) (t : Fs D) : Type 0 where
    pub vnodes : (q : Ptr) → t.vnodes q ≡ (if p == q then v else s.vnodes q)
    pub mounts : t.mounts ≡ s.mounts
    pub disk : t.disk ≡ s.disk
    pub rootfs : t.rootfs ≡ s.rootfs
    pub rootvn : t.rootvn ≡ s.rootvn
    pub brk : t.brk ≡ s.brk

  -- `vref` of an unlocked vnode adds one reference, leaves it unlocked and changes nothing else.
  pub vref-Stores :
      (p : Ptr) (s : Fs D) (v : Vnode)
      → s.vnodes p ≡ some v
      → v.lock ≡ false
      → (t : Fs D) × (vref p s ≡ ok (tt, t))
        × Stores s p (some (record v { refcount = (v.refcount + 1) % 2 ^ 32 })) t
  unfolding vref acquire release vref_locked get_vnode put_vnode
  vref-Stores p s v e unlocked =
      let n = (v.refcount + 1) % 2 ^ 32 in
      let s1 = update s.vnodes p (some (record v { lock = true })) in
      let s2 = update s1 p (some (record v { lock = true; refcount = n })) in
      let s3 = update s2 p (some (record v { lock = false; refcount = n })) in
      (
        record s { vnodes = s3 },
        ground arith,
        record {
          vnodes = λ q. ground arith;
          mounts = refl;
          disk = refl;
          rootfs = refl;
          rootvn = refl;
          brk = refl;
        },
      )

module _ {D : Type 0} (ops : Ops D) (p : Ptr) (s : Fs D) (v : Vnode) where
  -- While other references are left, `vput` drops one and leaves the vnode unlocked, whether or
  -- not the caller held its lock.
  pub vput-Stores :
      s.vnodes p ≡ some v
      → 1 < v.refcount
      → v.refcount < 2 ^ 32
      → ((t : Fs D) → ops.close p t ≡ ok (tt, t))
      → (t : Fs D) × (vput ops p s ≡ ok (tt, t))
        × Stores s p (some (record v { refcount = v.refcount - 1; lock = false })) t
  unfolding vput acquire release get_vnode put_vnode
  vput-Stores e many fits quiet =
      let n = (v.refcount + (2 ^ 32 - 1)) % 2 ^ 32 in
      let s1 = if v.lock then s.vnodes else update s.vnodes p (some (record v { lock = true })) in
      let s2 = update s1 p (some (record v { lock = true; refcount = n })) in
      let s3 = update s2 p (some (record v { lock = false; refcount = n })) in
      (
        record s { vnodes = s3 },
        ground (arith, quiet (record s { vnodes = s1 }), quiet s),
        record {
          vnodes = λ q. ground arith;
          mounts = refl;
          disk = refl;
          rootfs = refl;
          rootvn = refl;
          brk = refl;
        },
      )

module _ {D : Type 0} (ops : Ops D) (p : Ptr) (s : Fs D) (v : Vnode) where
  -- A reference that is taken and dropped again leaves every vnode as it was.
  pub vput-vref :
      s.vnodes p ≡ some v
      → v.lock ≡ false
      → 0 < v.refcount
      → v.refcount + 1 < 2 ^ 32
      → ((t : Fs D) → ops.close p t ≡ ok (tt, t))
      → (t : Fs D) × ((vref p >> vput ops p) s ≡ ok (tt, t))
        × ((q : Ptr) → t.vnodes q ≡ s.vnodes q)
        × (t.mounts ≡ s.mounts)
        × (t.disk ≡ s.disk)
  vput-vref e unlocked pos' fits quiet =
      let (t, e', a) = vref-Stores p s v e unlocked in
      let w = record v { refcount = (v.refcount + 1) % 2 ^ 32 } in
      let here : t.vnodes p ≡ some w = ground (arith, a.vnodes p) in
      let (u, e'', b) = vput-Stores ops p t w here (omega arith) (omega arith) quiet in
      (
        u,
        rw e' e'',
        λ q. ground (arith, a.vnodes q, b.vnodes q),
        b.mounts ∙ a.mounts,
        b.disk ∙ a.disk,
      )
