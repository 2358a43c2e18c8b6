-- ===== src/Proc/Slots.antt =====
-- kernel/proc.c, `allocproc`: which slot it takes.
use franklin.Base.{
  ℕ, zero, suc, ◌+◌, ◌≡◌, refl, sym, ◌∙◌, ap, true, false, if◌then◌else◌, Option, none, some, List,
  [], ◌∷◌, get_elem?, set, Bool, ok, stuck, or_fault,
}
use franklin.Base.Commands.{and_then-ok}
use franklin.Pmm.{Pmm, palloc}
use franklin.Proc.{
  Procstate, Proc, Ptable, is_state, scan_procs, getproc, change, fill_slot, use_slot, allocproc,
}

-- A change of the process that the scan has found does not change what it finds, if the process
-- keeps its state.
scan_procs-set :
    (st : Procstate) (ps : List Proc) (i k : ℕ) (q q' : Proc)
    → get_elem? ps k ≡ some q
    → q'.state ≡ q.state
    → scan_procs st (set ps k q') i ≡ scan_procs st ps i
unfolding scan_procs
scan_procs-set st [] i k q q' h e = refl
scan_procs-set st (p ∷ ps) i zero q q' h e =
    let same : p ≡ q = cc in let e' : q'.state ≡ p.state = e ∙ sym (ap (λ x. x.state) same) in rw e'
scan_procs-set st (p ∷ ps) i (suc k) q q' h e =
    ap (λ r. if is_state p.state st then (some i, i) else r)
      (scan_procs-set st ps (i + 1) k q q' h e)

change-getproc :
    (st : Procstate) (p : ℕ) (f : Proc → Proc) (s t : Ptable)
    → ((q : Proc) → (f q).state ≡ q.state)
    → change p f s ≡ ok t
    → getproc st t.proc 0 ≡ getproc st s.proc 0
unfolding change getproc
change-getproc st p f s t keeps h =
    let (q, e, h') =
      and_then-ok (or_fault (get_elem? s.proc p)) (λ q. ok (record s { proc = set s.proc p (f q) }))
        t h in
    let w : Ptable = record s { proc = set s.proc p (f q) } in
    let h'' : ok w ≡ ok t = h' in
    let same : w ≡ t = cc in
    let at' : get_elem? s.proc p ≡ some q = found (get_elem? s.proc p) e in
    ap (λ x. scan_procs st x.proc 0) (sym same) ∙ scan_procs-set st s.proc 0 p q (f q) at' (keeps q)
  where
    found : (o : Option Proc) {q : Proc} → or_fault o ≡ ok q → o ≡ some q
    found none e = cc
    found (some q) e = cc

fill_slot-getproc :
    (hhdm ret entry p : ℕ) (s t : Ptable) (pages pages' : Pmm) (r : Option ℕ)
    → fill_slot hhdm ret entry p s pages ≡ ok (r, t, pages')
    → (r ≡ some p) × (getproc Procstate.unused t.proc 0 ≡ getproc Procstate.unused s.proc 0)
unfolding fill_slot
fill_slot-getproc hhdm ret entry p s t pages pages' r h =
    let (a, e, h1) = and_then-ok (palloc 1 pages) _ (r, t, pages') h in
    let (u, e', h2) = and_then-ok (change p _ _) _ (r, t, pages') h1 in
    let x : Option ℕ × Ptable × Pmm = (some p, u, a.1) in
    let y : Option ℕ × Ptable × Pmm = (r, t, pages') in
    let h3 : ok x ≡ ok y = h2 in
    let same : x ≡ y = cc in
    (
      sym (ap (λ z. z.0) same),
      ap (λ z. getproc Procstate.unused z.1.proc 0) (sym same)
          ∙ change-getproc Procstate.unused p _ _ u (λ q. refl) e',
    )

-- `allocproc` returns the first unused slot, and leaves it unused: the next call returns it again.
pub allocproc-getproc :
    (hhdm ret entry : ℕ) (s t : Ptable) (pages pages' : Pmm) (r : Option ℕ)
    → allocproc hhdm ret entry s pages ≡ ok (r, t, pages')
    → (r ≡ (getproc Procstate.unused s.proc 0).0)
      × (getproc Procstate.unused t.proc 0 ≡ getproc Procstate.unused s.proc 0)
unfolding allocproc
allocproc-getproc hhdm ret entry s t pages pages' r h =
    go s.lock ((getproc Procstate.unused s.proc 0).0) h
  where
    go :
        (lock : Bool) (o : Option ℕ)
        → (if lock then stuck else use_slot hhdm ret entry o s pages) ≡ ok (r, t, pages')
        → (r ≡ o) × (getproc Procstate.unused t.proc 0 ≡ getproc Procstate.unused s.proc 0)
    go true o h = cc
    go false none h =
        let x : Option ℕ × Ptable × Pmm = (none, s, pages) in
        let y : Option ℕ × Ptable × Pmm = (r, t, pages') in
        let h' : ok x ≡ ok y = h in
        let same : x ≡ y = cc in
        (sym (ap (λ z. z.0) same), ap (λ z. getproc Procstate.unused z.1.proc 0) (sym same))
    go false (some p) h = fill_slot-getproc hhdm ret entry p s t pages pages' r h
