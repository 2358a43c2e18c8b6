-- ===== src/Proc/Timer.antt =====
-- kernel/apic.c, `apic_timer`: who runs after a tick.
use franklin.Base.{
  ℕ, zero, suc, ◌<◌, ◌≡◌, refl, sym, ◌∙◌, ap, Bool, true, false, arith, ◌==◌, if◌then◌else◌, some,
  List, [], ◌∷◌, get_elem?, set, length, drop, get_elem?-set_self, ok, or_fault,
}
use franklin.Base.Commands.{and_then-ok}
use franklin.Proc.{
  Procstate, Proc, Ptable, is_state, scan_procs, getproc, pick, change, with_state, scheduler,
  apic_timer,
}

drop-get_elem? :
    {A : Type 0} (xs : List A) (i : ℕ) (x : A)
    → get_elem? xs i ≡ some x
    → (rest : List A) × (drop i xs ≡ x ∷ rest)
drop-get_elem? [] i x h = cc
drop-get_elem? (y ∷ xs) zero x h = (xs, (let e : y ≡ x = cc in rw e))
drop-get_elem? (y ∷ xs) (suc i) x h = drop-get_elem? xs i x h

pick-here :
    (rounds : ℕ) (table : List Proc) (i : ℕ) (p : Proc)
    → get_elem? table i ≡ some p
    → is_state p.state Procstate.runnable ≡ true
    → pick (suc rounds) table i ≡ ok i
unfolding pick getproc scan_procs
pick-here rounds table i p h st = let (rest, e) = drop-get_elem? table i p h in rw e (rw st)

set-set : {A : Type 0} (xs : List A) (i : ℕ) (x y : A) → set (set xs i x) i y ≡ set xs i y
set-set [] i x y = refl
set-set (z ∷ xs) zero x y = refl
set-set (z ∷ xs) (suc i) x y = ap (◌∷◌ z) (set-set xs i x y)

get_elem?-lt : {A : Type 0} (xs : List A) (i : ℕ) (x : A) → get_elem? xs i ≡ some x → i < length xs
get_elem?-lt [] i x h = cc
get_elem?-lt (y ∷ xs) zero x h = omega arith
get_elem?-lt (y ∷ xs) (suc i) x h = omega (arith, get_elem?-lt xs i x h)

-- Where the scheduler's index is at the running process, as every call of the scheduler leaves it,
-- a tick with the lock free gives the processor to the same process again, whatever the states of
-- the others are, and changes nothing but this process's state.
pub apic_timer-stays :
    (rounds save : ℕ) (s : Ptable) (p : Proc)
    → s.lock ≡ false
    → s.i ≡ s.current
    → get_elem? s.proc s.current ≡ some p
    → apic_timer (suc rounds) save s
      ≡ ok (record s { proc = set s.proc s.current (with_state Procstate.running p) })
unfolding apic_timer scheduler change
apic_timer-stays rounds save s p free at' here =
    let c = s.current in
    let p1 = with_state Procstate.runnable p in
    let p2 = with_state Procstate.running p in
    let lt : c < length s.proc = get_elem?-lt s.proc c p here in
    let first : get_elem? (set s.proc c p1) c ≡ some p1 = get_elem?-set_self s.proc c p1 lt in
    let again : get_elem? (set s.proc c p2) c ≡ some p2 = get_elem?-set_self s.proc c p2 lt in
    let picked : pick (suc rounds) (set s.proc c p1) c ≡ ok c =
      pick-here rounds (set s.proc c p1) c p1 first refl in
    let same : (p.pid == p.pid) ≡ true = ground arith in
    rw (free, here)
      (rw at' (rw picked (rw first (rw (set-set s.proc c p1 p2) (rw again (rw same refl))))))

change-i : (p : ℕ) (f : Proc → Proc) (s t : Ptable) → change p f s ≡ ok t → t.i ≡ s.i
unfolding change
change-i p f s t h =
    let (q, e, h') =
      and_then-ok (or_fault (get_elem? s.proc p)) (λ q. ok (record s { proc = set s.proc p (f q) }))
        t h in
    cc

-- The switch keeps the index.
save-i :
    (b : Bool) (c : ℕ) (f : Proc → Proc) (t u : Ptable)
    → (if b then ok t else change c f t) ≡ ok u
    → u.i ≡ t.i
save-i true c f t u h = cc
save-i false c f t u h = change-i c f t u h

-- Wherever the scheduler returns, its index is at the process that runs then.
pub scheduler-current :
    (rounds save : ℕ) (s t : Ptable) → scheduler rounds save s ≡ ok t → t.i ≡ t.current
unfolding scheduler
scheduler-current rounds save s t h =
    let (p, e, h1) = and_then-ok (pick rounds s.proc s.i) _ t h in
    let (prev, e1, h2) = and_then-ok (or_fault (get_elem? s.proc s.current)) _ t h1 in
    let (t1, e2, h3) =
      and_then-ok (change p (with_state Procstate.running) (record s { i = p })) _ t h2 in
    let (next, e3, h4) = and_then-ok (or_fault (get_elem? t1.proc p)) _ t h3 in
    let (u, e4, h5) =
      and_then-ok
        (if prev.pid == next.pid
          then ok t1
          else change s.current (λ q. record q { stack = save }) t1)
        _ t h4 in
    let at' : t1.i ≡ p = change-i p (with_state Procstate.running) (record s { i = p }) t1 e2 in
    let kept : u.i ≡ t1.i = save-i (prev.pid == next.pid) s.current _ t1 u e4 in
    let w : Ptable = record u { current = p } in
    let h6 : ok w ≡ ok t = h5 in
    let same : w ≡ t = cc in sym (ap (λ x. x.i) same) ∙ kept ∙ at' ∙ ap (λ x. x.current) same
