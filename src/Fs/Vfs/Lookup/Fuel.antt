-- ===== src/Fs/Vfs/Lookup/Fuel.antt =====
-- fs/vfs.c, `lookup`: every round that goes on has made the path shorter, so the loop ends.
use franklin.Base.{
  ℕ, zero, suc, ◌+◌, ◌<◌, ◌≤◌, ◌≡◌, refl, ◌≢◌, ◌⊎◌, ap, ◌∙◌, Bool, true, false, not, ◌&&◌, ◌||◌,
  arith, ◌==◌, if◌then◌else◌, [], ◌∷◌, drop, length, length-drop, bit_and, bit_or, ℤ, pos, is_zero,
  Run, ok, panicked, fault, stuck, out_of_fuel, and_then, Cmd, pure, lift, gets, ◌>>=◌, ◌>>◌,
  Bool-cases, inl, inr,
}
use franklin.Text.{Buffer, read, strncmp}
use franklin.Fs.State.{Ptr, Nameidata, Fs, is_lnk, follow, issymlink, get_vnode}
use franklin.Fs.Locks.{acquire, release, vref}
use franklin.Fs.Ops.{Ops}
use franklin.Fs.Vfs.Close.{vput}
use franklin.Fs.Vfs.Lookup.{
  Next, done, again, dotdot, found_in, component_len, skip_slashes, climb, cross, next_name,
  walk_in, walk_up, lookup_step, lookup_loop, lookup,
}

-- The slashes at the front are gone, at least one if there was one.
skip_slashes-le : (b : Buffer) {b' : Buffer} → skip_slashes b ≡ ok b' → length b' ≤ length b
unfolding skip_slashes
skip_slashes-le [] h = cc
skip_slashes-le (c ∷ cs) {b'} h = elim (Bool-cases (c == b'/')) [
  | inl slash ↦
      (let h' : skip_slashes cs ≡ ok b' = rw slash at h in omega (arith, skip_slashes-le cs h'))
  | inr other ↦ ground arith
]

-- What follows a component is the end or a slash.
component_len-end :
    (b : Buffer) {n c : ℕ} → component_len b ≡ ok n → read (drop n b) 0 ≡ ok c → c ≢ 0 → c ≡ b'/'
unfolding component_len read
component_len-end [] h r ne = cc
component_len-end (x ∷ b) {n} {c} h r ne = elim (Bool-cases (x == 0)) [
  | inl end ↦
      (let z : n ≡ 0 = ground arith in
        let r' : read (drop 0 (x ∷ b)) 0 ≡ ok c = rw z at r in ground arith)
  | inr more ↦ elim (Bool-cases (x == b'/')) [
    | inl slash ↦
        (let z : n ≡ 0 = ground arith in
          let r' : read (drop 0 (x ∷ b)) 0 ≡ ok c = rw z at r in ground arith)
    | inr other ↦
        (let h' : and_then (component_len b) (λ n. ok (suc n)) ≡ ok n = rw (more, other) at h in
          later (λ m e r'. component_len-end b e r' ne) (component_len b) refl h')
  ]
]
  where
    later :
        ((m : ℕ) → component_len b ≡ ok m → read (drop m b) 0 ≡ ok c → c ≡ b'/')
        → (q : Run ℕ) → component_len b ≡ q
        → and_then q (λ n. ok (suc n)) ≡ ok n
        → c ≡ b'/'
    later ih (ok m) e h' =
        let z : n ≡ suc m = cc in
        let r' : read (drop (suc m) (x ∷ b)) 0 ≡ ok c = rw z at r in ih m e r'
    later ih panicked e h' = cc
    later ih fault e h' = cc
    later ih stuck e h' = cc
    later ih out_of_fuel e h' = cc

skip_slashes-lt :
    (b : Buffer) {b' : Buffer} → read b 0 ≡ ok b'/' → skip_slashes b ≡ ok b' → length b' < length b
unfolding skip_slashes read
skip_slashes-lt [] r h = cc
skip_slashes-lt (c ∷ cs) {b'} r h =
    let slash : (c == b'/') ≡ true = ground arith in
    let h' : skip_slashes cs ≡ ok b' = rw slash at h in omega (arith, skip_slashes-le cs h')

and_then-starved :
    {A B : Type 0} (r : Run A) (k : A → Run B)
    → and_then r k ≡ out_of_fuel
    → (r ≡ out_of_fuel) ⊎ ((a : A) × (r ≡ ok a) × (k a ≡ out_of_fuel))
and_then-starved (ok a) k e = inr (a, refl, e)
and_then-starved panicked k e = cc
and_then-starved fault k e = cc
and_then-starved stuck k e = cc
and_then-starved out_of_fuel k e = inl refl

abbrev Round : Type 0 → Type 0
Round D = Cmd (Fs D) (Next (ℤ × Nameidata) (Nameidata × Ptr))

-- Where the round goes on, the path is shorter than `bound`.
record Shortens {D : Type 0} (bound : ℕ) (c : Round D) : Type 0 where
  shortens :
      (s : Fs D) (p : Nameidata × Ptr) (t : Fs D)
      → c s ≡ ok (again p, t)
      → length (p.0.name) < bound

-- Behind the component at hand there is a slash, or the end of the path.
record AtComponent (nd : Nameidata) (bound : ℕ) : Type 0 where
  ends : (c : ℕ) → read nd.next 0 ≡ ok c → c ≢ 0 → c ≡ b'/'
  within : length nd.next ≤ bound

module _ {D : Type 0} where
  Shortens-bind :
      {X : Type 0} (bound : ℕ) (c : Cmd (Fs D) X) (k : X → Round D)
      → ((x : X) → Shortens bound (k x))
      → Shortens bound (c >>= k)
  Shortens-bind {X} bound c k h = record { shortens = λ s p t e. go (c s) p t e }
    where
      go :
          (r : Run (X × Fs D)) (p : Nameidata × Ptr) (t : Fs D)
          → and_then r (λ q. k q.0 q.1) ≡ ok (again p, t)
          → length (p.0.name) < bound
      go (ok q) p t e = (h q.0).shortens q.1 p t e
      go panicked p t e = cc
      go fault p t e = cc
      go stuck p t e = cc
      go out_of_fuel p t e = cc

  Shortens-then :
      (bound : ℕ) (c : Cmd (Fs D) Unit) (d : Round D) → Shortens bound d → Shortens bound (c >> d)
  Shortens-then bound c d h = Shortens-bind bound c (λ _. d) (λ _. h)

  Shortens-lift :
      {X : Type 0} (bound : ℕ) (r : Run X) (k : X → Round D)
      → ((x : X) → r ≡ ok x → Shortens bound (k x))
      → Shortens bound (lift r >>= k)
  Shortens-lift bound (ok x) k h = record { shortens = λ s p t e. (h x refl).shortens s p t e }
  Shortens-lift bound panicked k h = record { shortens = λ s p t e. cc }
  Shortens-lift bound fault k h = record { shortens = λ s p t e. cc }
  Shortens-lift bound stuck k h = record { shortens = λ s p t e. cc }
  Shortens-lift bound out_of_fuel k h = record { shortens = λ s p t e. cc }

  Shortens-if :
      (bound : ℕ) (b : Bool) (c d : Round D)
      → (b ≡ true → Shortens bound c)
      → (b ≡ false → Shortens bound d)
      → Shortens bound (if b then c else d)
  Shortens-if bound true c d h k = h refl
  Shortens-if bound false c d h k = k refl

  Shortens-done : (bound : ℕ) (d : ℤ × Nameidata) → Shortens {D = D} bound (pure (done d))
  Shortens-done bound d = record { shortens = λ s p t e. cc }

  Shortens-again :
      (bound : ℕ) (p : Nameidata × Ptr)
      → length (p.0.name) < bound
      → Shortens {D = D} bound (pure (again p))
  Shortens-again bound p lt = record {
    shortens = λ s q t e. (let e' : p ≡ q = cc in omega (arith, ap (λ x. length (x.0.name)) e'));
  }

  module _ (ops : Ops D) (bound : ℕ) where
    next_name-Shortens :
        (nd : Nameidata) (vdir : Ptr)
        → AtComponent nd bound
        → Shortens bound (next_name ops nd vdir)
    unfolding next_name
    next_name-Shortens nd vdir at' = Shortens-lift bound (read nd.next 0) _ λ c r.
        Shortens-if bound (c == 0) (release vdir >> pure (done (pos 0, nd))) _
          (λ _. Shortens-then bound (release vdir) _ (Shortens-done bound (pos 0, nd)))
          λ more. Shortens-lift bound (skip_slashes nd.next) _ λ name e.
            Shortens-then bound (vput ops nd.vdir) _ (
              Shortens-then bound (release vdir) _ (
                Shortens-again bound (record nd { name = name }, vdir)
                  (let slash : c ≡ b'/' = at'.ends c r (ground arith) in
                    omega (arith, at'.within, skip_slashes-lt nd.next (r ∙ ap ok slash) e))))

    found_in-Shortens :
        (nd : Nameidata) (x : ℤ × Ptr × Ptr)
        → AtComponent nd bound
        → Shortens bound (found_in ops nd x)
    unfolding found_in
    found_in-Shortens nd x at' =
        let nd' : Nameidata = record nd { vn = x.2 } in
        Shortens-if bound (not (is_zero x.0)) (pure (done (x.0, nd'))) _
          (λ _. Shortens-done bound (x.0, nd'))
          λ _. Shortens-bind bound (get_vnode x.1) _ λ v.
            Shortens-bind bound (lift (read nd'.next 0)) _ λ c.
              let stop : Bool =
                is_lnk v.kind && (not (bit_and nd'.flags follow == 0) || c == b'/') in
              let link : ℤ × Nameidata =
                (pos 0, record nd' { flags = bit_or nd'.flags issymlink }) in
              Shortens-if bound stop (pure (done link)) (next_name ops nd' x.1)
                (λ _. Shortens-done bound link)
                (λ _. next_name-Shortens nd' x.1 (record { ends = at'.ends; within = at'.within }))

    walk_in-Shortens :
        (nd : Nameidata) (vdir : Ptr) → AtComponent nd bound → Shortens bound (walk_in ops nd vdir)
    unfolding walk_in
    walk_in-Shortens nd vdir at' = Shortens-then bound (acquire vdir) _ (
        Shortens-bind bound (ops.lookup vdir nd.name nd.len nd.vn) _ λ r.
          Shortens-then bound (release vdir) _ (
            Shortens-if bound (not (is_zero r.0)) (pure (done (r.0, record nd { vn = r.1 }))) _
              (λ _. Shortens-done bound (r.0, record nd { vn = r.1 }))
              λ _. Shortens-then bound (acquire r.1) _ (
                Shortens-bind bound (gets (λ s. s.brk)) _ λ fuel.
                  Shortens-bind bound (cross ops fuel r.1 r.1) _ λ x.
                    found_in-Shortens (record nd { vn = r.1 }) x
                      (record { ends = at'.ends; within = at'.within }))))

    walk_up-Shortens :
        (nd : Nameidata) (vdir : Ptr) → AtComponent nd bound → Shortens bound (walk_up ops nd vdir)
    unfolding walk_up
    walk_up-Shortens nd vdir at' = Shortens-bind bound (gets (λ s. s.brk)) _ λ fuel.
        Shortens-bind bound (climb ops fuel vdir) _ λ r.
          let up : Nameidata = record nd { vdir = r.1; vn = r.1 } in
          let in' : Nameidata = record nd { vdir = r.1 } in
          Shortens-if bound r.0 (vref r.1 >> next_name ops up r.1) (walk_in ops in' r.1)
            (λ _.
              Shortens-then bound (vref r.1) (next_name ops up r.1)
                (next_name-Shortens up r.1 (record { ends = at'.ends; within = at'.within })))
            (λ _. walk_in-Shortens in' r.1 (record { ends = at'.ends; within = at'.within }))

module _ {D : Type 0} (ops : Ops D) where
  lookup_step-Shortens :
      (nd : Nameidata) (vdir : Ptr) → Shortens (length nd.name) (lookup_step ops nd vdir)
  unfolding lookup_step
  lookup_step-Shortens nd vdir =
      let bound : ℕ = length nd.name in
      Shortens-lift bound (component_len nd.name) _ λ len e.
        let nd' : Nameidata = record nd { len = len; next = drop len nd.name } in
        let at' : AtComponent nd' bound = at_component len e in
        let last : ℤ × Nameidata = (pos 0, record nd' { vn = nd'.vdir }) in
        let in' : Nameidata = record nd' { vdir = vdir } in
        Shortens-bind bound (lift (read nd.name 0)) _ λ c.
          Shortens-if bound (c == 0) (vref nd'.vdir >> pure (done last)) _
            (λ _. Shortens-then bound (vref nd'.vdir) _ (Shortens-done bound last))
            λ _. Shortens-bind bound (lift (strncmp nd.name dotdot 2)) _ λ differs.
              Shortens-if bound (is_zero differs) (walk_up ops nd' vdir) (walk_in ops in' vdir)
                (λ _. walk_up-Shortens ops bound nd' vdir at')
                (λ _.
                  walk_in-Shortens ops bound in' vdir
                    (record { ends = at'.ends; within = at'.within }))
    where
      at_component :
          (len : ℕ)
          → component_len nd.name ≡ ok len
          → AtComponent (record nd { len = len; next = drop len nd.name }) (length nd.name)
      at_component len e = record {
        ends = λ c r ne. component_len-end nd.name e r ne;
        within = omega (arith, length-drop len nd.name);
      }

  -- The arguments of the rounds, from the first one on: each goes on from where the one before it
  -- has come to.
  pub data Rounds (nd : Nameidata) (vdir : Ptr) (s : Fs D) : Nameidata → Ptr → Fs D → Type 0 where
    first : Rounds nd vdir s nd vdir s
    onward :
        {nd' : Nameidata} {vdir' : Ptr} {s' : Fs D} (p : Nameidata × Ptr) (t : Fs D)
        → Rounds nd vdir s nd' vdir' s'
        → lookup_step ops nd' vdir' s' ≡ ok (again p, t)
        → Rounds nd vdir s (p.0) (p.1) t

  -- A round from there on is out of fuel.
  pub record Starved (nd : Nameidata) (vdir : Ptr) (s : Fs D) : Type 0 where
    pub nd' : Nameidata
    pub vdir' : Ptr
    pub s' : Fs D
    pub reached : Rounds nd vdir s nd' vdir' s'
    pub starved : lookup_step ops nd' vdir' s' ≡ out_of_fuel

  -- What the loop does behind a round.
  abbrev rest : ℕ → Next (ℤ × Nameidata) (Nameidata × Ptr) → Cmd (Fs D) (ℤ × Nameidata)
  rest fuel (done d) = pure d
  rest fuel (again p) = lookup_loop ops fuel p.0 p.1

  lookup_loop-enough :
      (fuel : ℕ) (nd0 : Nameidata) (vdir0 : Ptr) (s0 : Fs D) (nd : Nameidata) (vdir : Ptr)
      (s : Fs D)
      → Rounds nd0 vdir0 s0 nd vdir s
      → length nd.name < fuel
      → lookup_loop ops fuel nd vdir s ≡ out_of_fuel
      → Starved nd0 vdir0 s0
  unfolding lookup_loop
  lookup_loop-enough zero nd0 vdir0 s0 nd vdir s r lt e = absurd (omega arith)
  lookup_loop-enough (suc fuel) nd0 vdir0 s0 nd vdir s reached lt e =
      go
        (λ p t onward' shorter e'.
          lookup_loop-enough fuel nd0 vdir0 s0 p.0 p.1 t onward' shorter e')
        (and_then-starved (lookup_step ops nd vdir s) _ e)
    where
      go :
          ((p : Nameidata × Ptr) (t : Fs D)
            → Rounds nd0 vdir0 s0 (p.0) (p.1) t
            → length (p.0.name) < fuel
            → lookup_loop ops fuel p.0 p.1 t ≡ out_of_fuel
            → Starved nd0 vdir0 s0)
          → (lookup_step ops nd vdir s ≡ out_of_fuel)
            ⊎ ((q : Next (ℤ × Nameidata) (Nameidata × Ptr) × Fs D) × (lookup_step ops nd vdir s
                  ≡ ok q)
                × (rest fuel q.0 q.1 ≡ out_of_fuel))
          → Starved nd0 vdir0 s0
      go ih (inl short) = record {
        nd' = nd;
        vdir' = vdir;
        s' = s;
        reached = reached;
        starved = short;
      }
      go ih (inr ((done d, t), r, e')) = cc
      go ih (inr ((again p, t), r, e')) =
          ih p t (Rounds.onward p t reached r)
            (omega (arith, (lookup_step-Shortens nd vdir).shortens s p t r)) e'

  -- `lookup` gives itself rounds enough for every path: where it is out of fuel, a round that it
  -- has come to, with the arguments that the rounds before it have left, is out of fuel by
  -- itself.
  pub lookup-enough :
      (nd : Nameidata) (s : Fs D)
      → lookup ops nd s ≡ out_of_fuel
      → Starved (record nd { flags = bit_and nd.flags 0xfffffffe }) nd.vdir s
  unfolding lookup
  lookup-enough nd s e =
      lookup_loop-enough (length nd.name + 1) (record nd { flags = bit_and nd.flags 0xfffffffe })
        nd.vdir s (record nd { flags = bit_and nd.flags 0xfffffffe }) nd.vdir s Rounds.first
        (omega arith) e
