-- ===== src/Exec/Start.antt =====
-- kernel/proc.c, `exec`: the program in place of the one that the current process runs. `kalloc`
-- is not part of it: the address of the new task state segment is an argument.
pub mod Stack
pub mod Enter
pub mod Running
pub mod Whole
use franklin.Base.{pure, ℕ, ◌+◌, ◌-◌, ◌/◌, ◌%◌, ◌^◌, ok, and_then, Cmd, ◌>>=◌, ◌>>◌, List}
use franklin.Text.{Buffer}
use franklin.Pmm.{page_size}
use franklin.Vmm.{p2v, v2p, newvm_map}
use franklin.Proc.{Proc, Ptable, change, startproc}
use franklin.Gdt.{load_tss}
use franklin.Exec.Words.{Memory}
use franklin.Exec.Args.{Auxval, copyargs}
use franklin.Exec.Load.{Machine, Files, alloc_pages, map_pages, loadelf}

-- The memory and the files, the process table, the bytes of the descriptor table, the register
-- for the page tables (`switchvm`), and the field `rsp0` of the new task state segment.
pub record System (F : Type 0) : Type 0 where
  pub machine : Machine F
  pub ptable : Ptable
  pub gdt : Memory
  pub cr3 : ℕ
  pub rsp0 : ℕ

-- `STACKSIZE`
abbrev pub stack_bytes : ℕ
stack_bytes = 0x40000

abbrev pub stackva : ℕ
stackva = 0x70000000000

abbrev pub with_regs : (rip vmap : ℕ) → Proc → Proc
with_regs rip vmap p = record p {
  rsp = stackva + stack_bytes;
  entry = rip;
  cs = 0x43;
  ss = 0x3b;
  eflags = 0x202;
  vmap = vmap;
}

abbrev pub lower_rsp : ℕ → Proc → Proc
lower_rsp n p = record p { rsp = (p.rsp + (2 ^ 64 - n)) % 2 ^ 64 }

module _ {F : Type 0} where
  abbrev pub on_machine : {A : Type 0} → Cmd (Machine F) A → Cmd (System F) A
  on_machine c s = and_then (c s.machine) (λ r. ok (r.0, record s { machine = r.1 }))

  unfoldable pub fork_map : ℕ → Cmd (Machine F) ℕ
  unfolding newvm_map
  fork_map kernel_top m =
      and_then (newvm_map kernel_top m.vm) (λ r. ok (r.0, record m { vm = r.1 }))

  -- `copyargs` to a stack that ends at an address; the result is the new `stack`.
  unfoldable pub pass_args : (stack : ℕ) → List Buffer → Auxval → Cmd (Machine F) ℕ
  unfolding copyargs
  pass_args stack argv aux m =
      and_then (copyargs stack argv aux m.ram) (λ r. ok (r.0, record m { ram = r.1 }))

  -- A change of the current process.
  unfoldable pub set_current : (Proc → Proc) → Cmd (System F) (Unit {0})
  unfolding change
  set_current f s =
      and_then (change s.ptable.current f s.ptable) (λ t. ok (tt, record s { ptable = t }))

  unfoldable pub run_current : Cmd (System F) (Unit {0})
  unfolding startproc
  run_current s =
      and_then (startproc s.ptable.current s.ptable) (λ t. ok (tt, record s { ptable = t }))

  -- The stack of the program; the result is the frame.
  unfoldable pub place_stack : ℕ → Cmd (Machine F) ℕ
  unfolding alloc_pages map_pages
  place_stack vmap = do
    frame ← alloc_pages (stack_bytes / page_size)
    map_pages vmap stackva frame stack_bytes 7
    pure frame

  -- `exec` behind the stack: the registers, the arguments, and the processor.
  unfoldable pub enter : (tss vmap frame : ℕ) → List Buffer → Auxval → Cmd (System F) (Unit {0})
  unfolding alloc_pages pass_args set_current run_current p2v v2p load_tss
  enter tss vmap frame argv aux = do
    set_current (with_regs aux.at_entry vmap)
    stack ← on_machine (pass_args (p2v (frame + stack_bytes)) argv aux)
    set_current (lower_rsp ((p2v (frame + stack_bytes) + (2 ^ 64 - stack)) % 2 ^ 64))
    (λ s. ok (tt, record s { cr3 = v2p vmap }))
    page ← on_machine (alloc_pages 1)
    (λ s. ok (tt, record s { rsp0 = p2v (page + page_size); gdt = load_tss tss s.gdt }))
    run_current

  -- `kernel_top` is the table of `kernel_vm_map`, `tss` what `kalloc` gives. The other arguments
  -- are what local variables hold at the start.
  unfoldable pub exec :
      Files F
      → (kernel_top tss : ℕ) → (name : Buffer) → (argv : List Buffer) → Auxval
      → (vn : ℕ) → (elf phdr : Buffer) → Cmd (System F) (Unit {0})
  unfolding fork_map loadelf place_stack enter
  exec calls kernel_top tss name argv aux vn elf phdr = do
    vmap ← on_machine (fork_map kernel_top)
    aux' ← on_machine (loadelf calls name vmap aux vn elf phdr)
    frame ← on_machine (place_stack vmap)
    enter tss vmap frame argv aux'
