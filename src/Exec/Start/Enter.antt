-- ===== src/Exec/Start/Enter.antt =====
-- kernel/proc.c, `exec`: what is done behind the stack.
use franklin.Base.{
  true, ℕ, zero, suc, ◌+◌, ◌-◌, ◌%◌, ◌^◌, ◌<◌, ◌≡◌, refl, false, arith, List, [], ◌∷◌, length,
  get_elem?, set, get_elem?-set_self, some, ok, fault,
}
use franklin.Text.{Buffer}
use franklin.Pmm.{Pmm, page_size, palloc}
use franklin.Vmm.{p2v, v2p}
use franklin.Proc.{Proc, Procstate, change, with_state, startproc}
use franklin.Gdt.{load_tss}
use franklin.Exec.Words.{Memory}
use franklin.Exec.Args.{Auxval, copyargs}
use franklin.Exec.Load.{alloc_pages}
use franklin.Exec.Start.{
  System, stack_bytes, pass_args, set_current, run_current, with_regs, lower_rsp, enter,
}

elem-lt : (ps : List Proc) (i : ℕ) (q : Proc) → get_elem? ps i ≡ some q → i < length ps
elem-lt [] i q e = absurd (cc)
elem-lt (p ∷ ps) zero q e = omega arith
elem-lt (p ∷ ps) (suc i) q e = (let ih = elem-lt ps i q e in omega (arith, ih))

module _ {F : Type 0} (s : System F) (tss vmap frame sp : ℕ) (argv : List Buffer) (aux : Auxval)
    (ram : Memory) (p : Proc) where
  abbrev slot_of : ℕ
  slot_of = s.ptable.current

  abbrev pub used_bytes : ℕ
  used_bytes = (p2v (frame + stack_bytes) + (2 ^ 64 - sp)) % 2 ^ 64

  abbrev pub as_set : Proc
  as_set = with_regs aux.at_entry vmap p

  abbrev pub as_lowered : Proc
  as_lowered = lower_rsp used_bytes as_set

  -- The process that runs at the end.
  abbrev pub as_run : Proc
  as_run = with_state Procstate.running as_lowered

  abbrev procs : List Proc
  procs = set (set s.ptable.proc slot_of as_set) slot_of as_lowered

  -- The state at the end; `page` and `pages` are what `palloc` gives.
  abbrev pub end_state : (page : ℕ) → Pmm → System F
  end_state page pages = record {
    machine = record {
      vm = record { mem = s.machine.vm.mem; pages = pages };
      ram = ram;
      files = s.machine.files;
    };
    ptable = record (s.ptable) { lock = true; proc = set procs slot_of as_run; current = slot_of };
    gdt = load_tss tss s.gdt;
    cr3 = v2p vmap;
    rsp0 = p2v (page + page_size);
  }

  module _ (here : get_elem? s.ptable.proc slot_of ≡ some p) where
    here1 : get_elem? (set s.ptable.proc slot_of as_set) slot_of ≡ some as_set
    here1 = get_elem?-set_self s.ptable.proc slot_of as_set (elem-lt _ _ _ here)

    here2 : get_elem? procs slot_of ≡ some as_lowered
    here2 = get_elem?-set_self _ slot_of as_lowered (elem-lt _ _ _ here1)

    pub runs_here : get_elem? (set procs slot_of as_run) slot_of ≡ some as_run
    runs_here = get_elem?-set_self _ slot_of as_run (elem-lt _ _ _ here2)

    module _ (unlocked : s.ptable.lock ≡ false)
        (args : copyargs (p2v (frame + stack_bytes)) argv aux s.machine.ram ≡ ok (sp, ram)) where
      pub enter-ok :
          (page : ℕ) (pages : Pmm)
          → palloc 1 s.machine.vm.pages ≡ ok (page, pages)
          → enter tss vmap frame argv aux s ≡ ok (tt, end_state page pages)
      unfolding enter set_current change pass_args alloc_pages run_current startproc
      enter-ok page pages e = rw here (rw args (rw here1 (rw e (rw unlocked (rw here2 refl)))))

      pub enter-fault :
          palloc 1 s.machine.vm.pages ≡ fault → enter tss vmap frame argv aux s ≡ fault
      unfolding enter set_current change pass_args alloc_pages
      enter-fault e = rw here (rw args (rw here1 (rw e refl)))
