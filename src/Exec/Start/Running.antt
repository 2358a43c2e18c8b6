-- ===== src/Exec/Start/Running.antt =====
-- kernel/proc.c, `exec`: the process when it runs its new program.
use franklin.Base.{
  true, ℕ, ◌+◌, ◌-◌, ◌*◌, ◌%◌, ◌^◌, ◌≤◌, ◌<◌, ◌≡◌, refl, sym, ◌∙◌, ◌⊎◌, inl, inr, false, arith,
  List, [], length, get_elem?, some, none, Run, ok, fault,
}
use mathlib.Core.Path.{subst}
use franklin.Bitmap.Laws.{pages_of}
use franklin.Pmm.{Pmm, page_size, palloc}
use franklin.Pmm.Alloc.{Alloc, got, none_free, palloc-Alloc}
use franklin.Vmm.{Vm, p2v, v2p}
use franklin.Vmm.Tree.{page_at}
use franklin.Vmm.View.{view}
use franklin.Proc.{Proc, Procstate}
use franklin.Exec.Words.{Memory}
use franklin.Exec.Args.{Auxval, copyargs}
use franklin.Exec.Layout.{Arg, strings, AllTexts, total}
use franklin.Exec.Passed.{Passed, IsAux, copyargs-Passed}
use franklin.Exec.Load.{Machine}
use franklin.Exec.Load.Outcome.{Starved, SegmentLoaded}
use franklin.Exec.Load.Segment.{Starved-none}
use franklin.Exec.Load.Holds.{peek, byte_by, Holds, apart, loaded-peek}
use franklin.Exec.Start.{System, stack_bytes, stackva, enter}
use franklin.Exec.Start.Stack.{stack_segment, stack-IsSegment}
use franklin.Exec.Start.Enter.{as_run, runs_here, enter-ok, enter-fault}

-- The bytes that `copyargs` puts on the stack.
abbrev pub args_size : List Arg → ℕ
args_size ps = total ps + 8 * (length ps + 12)

-- The process in `slot` is the one that runs. It begins at the address `aux.at_entry`, finds the
-- byte `c` at `v`, and at its stack pointer what `copyargs` leaves.
pub record Running {F : Type 0} (ps : List Arg) (aux : Auxval) (v c slot : ℕ) (t : System F)
    : Type 0 where
  pub proc : Proc
  pub here : get_elem? t.ptable.proc slot ≡ some proc
  pub current : t.ptable.current ≡ slot
  pub locked : t.ptable.lock ≡ true
  pub runs : proc.state ≡ Procstate.running
  pub entry : proc.entry ≡ aux.at_entry
  pub segments : (proc.cs ≡ 0x43) × (proc.ss ≡ 0x3b)
  pub tables : t.cr3 ≡ v2p proc.vmap
  pub code : peek t.machine proc.vmap v ≡ some c
  pub stack : proc.rsp + args_size ps ≡ stackva + stack_bytes
  pub sp : ℕ
  pub before : Memory
  pub passed : Passed (sp + args_size ps) ps aux before sp t.machine.ram
  pub window :
      (i : ℕ)
      → i < args_size ps
      → peek t.machine proc.vmap (proc.rsp + i) ≡ some (t.machine.ram (sp + i))

-- How `exec` ends: the program runs, or pages are short.
pub data Started {F : Type 0} (ps : List Arg) (aux : Auxval) (v c slot n : ℕ) (vm : Vm)
    : Run (Unit {0} × System F) → Type 0 where
  started : {t : System F} → Running ps aux v c slot t → Started ps aux v c slot n vm (ok (tt, t))
  no_memory : Starved vm n → Started ps aux v c slot n vm fault

-- `enter`, with the stack in place: `m` is the machine before the stack.
module _ {F : Type 0} (s : System F) (tss top v c : ℕ) (ps : List Arg) (aux : Auxval) (p : Proc)
    (m : Machine F) (l : SegmentLoaded [] stack_segment top m s.machine)
    (small : pages_of m.vm.pages.bitmap < 2 ^ 35) (held : Holds (m.vm) (m.ram) top v c)
    (unmapped : (o : ℕ) → o < stack_bytes → view m.vm.mem 3 top (stackva + o) ≡ none)
    (here : get_elem? s.ptable.proc s.ptable.current ≡ some p) (unlocked : s.ptable.lock ≡ false)
    (texts : AllTexts ps) (room : args_size ps ≤ stack_bytes) (fits : IsAux aux) where
  abbrev frame : ℕ
  frame = l.page * page_size

  -- The end of the stack, where the kernel has it.
  stack_end : p2v (frame + stack_bytes) ≡ page_at l.page + stack_bytes
  unfolding p2v
  stack_end = omega (arith, small, l.free.inside)

  stack_end_small : p2v (frame + stack_bytes) < 2 ^ 64
  unfolding p2v
  stack_end_small = omega arith

  module _ (sp : ℕ) (ram : Memory)
      (args : copyargs (p2v (frame + stack_bytes)) (strings ps) aux s.machine.ram ≡ ok (sp, ram))
      (passed : Passed (p2v (frame + stack_bytes)) ps aux s.machine.ram sp ram) where
    abbrev last : Proc
    last = as_run s tss top frame sp (strings ps) aux ram p

    sp_end : sp + args_size ps ≡ page_at l.page + stack_bytes
    sp_end = omega (arith, passed.size, stack_end, room)

    rsp_end : last.rsp + args_size ps ≡ stackva + stack_bytes
    rsp_end = omega (arith, sp_end, stack_end, room, stack_end_small)

    code : byte_by ram v (view s.machine.vm.mem 3 top v) ≡ some c
    code =
        let b : ℕ = page_at held.page + v % page_size in
        let mapped : view s.machine.vm.mem 3 top v ≡ some held.word =
          l.entries v ∙ rw held.mapped refl in
        let away : (b < sp) ⊎ (p2v (frame + stack_bytes) ≤ b) =
          elim (apart [] stack_segment top m s.machine stack-IsSegment (omega arith) l held.page
            (v % page_size) held.inside held.in_use (omega arith)) [
              | inl before ↦ inl (omega (arith, sp_end, room))
              | inr behind ↦ inr (omega (arith, stack_end))
            ] in
        let address = held.address in
        let same : ram b ≡ c = passed.outside b away ∙ l.outside b (omega arith) ∙ held.byte in
        rw (mapped, address, same) refl

    window :
        (i : ℕ)
        → i < args_size ps
        → byte_by ram (last.rsp + i) (view s.machine.vm.mem 3 top (last.rsp + i))
          ≡ some (ram (sp + i))
    window i lt =
        let o : ℕ = stack_bytes - args_size ps + i in
        let place : last.rsp + i ≡ stackva + o = omega (arith, rsp_end, room) in
        let byte : sp + i ≡ page_at l.page + o = omega (arith, sp_end, room) in
        rw (place, byte)
          (loaded-peek [] stack_segment top m s.machine stack-IsSegment (omega arith) l o
            (omega arith) ram (unmapped o (omega arith)))

    page-Started :
        (n : ℕ)
        → 1 ≤ n
        → {r : Run (ℕ × Pmm)} → Alloc 1 s.machine.vm.pages r
        → palloc 1 s.machine.vm.pages ≡ r
        → Started ps aux v c s.ptable.current n s.machine.vm
            (enter tss top frame (strings ps) aux s)
    page-Started n one (none_free taken) e =
        rw (enter-fault s tss top frame sp (strings ps) aux ram p here unlocked args e)
          (no_memory (Starved-none s.machine.vm 1 n one taken))
    page-Started n one (got {p = q} {t} f marks same) e =
        rw
          (enter-ok s tss top frame sp (strings ps) aux ram p here unlocked args (q * page_size) t
            e)
          (started (record {
            proc = last;
            here = runs_here s tss top frame sp (strings ps) aux ram p here;
            current = refl;
            locked = refl;
            runs = refl;
            entry = refl;
            segments = (refl, refl);
            tables = refl;
            code = code;
            stack = rsp_end;
            sp = sp;
            before = s.machine.ram;
            passed =
                subst (λ (a : ℕ). Passed a ps aux s.machine.ram sp ram) (stack_end ∙ sym sp_end)
                  passed;
            window = window;
          }))

  pub enter-Started :
      (n : ℕ)
      → 1 ≤ n
      → Started ps aux v c s.ptable.current n s.machine.vm (enter tss top frame (strings ps) aux s)
  enter-Started n one =
      let (r, args, passed) =
        copyargs-Passed ps (p2v (frame + stack_bytes)) aux s.machine.ram texts
          (omega (arith, stack_end, room)) stack_end_small fits in
      page-Started r.0 r.1 args passed n one (palloc-Alloc 1 s.machine.vm.pages) refl
