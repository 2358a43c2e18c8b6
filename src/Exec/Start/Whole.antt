-- ===== src/Exec/Start/Whole.antt =====
-- kernel/proc.c, `exec` as a whole.
use franklin.Base.{
  ℕ, ◌+◌, ◌^◌, ◌≤◌, ◌<◌, ◌≡◌, refl, ◌∙◌, false, arith, ltb, if◌then◌else◌, List, length, get_elem?,
  some, none, Option, Run, ok, and_then, Cmd, ◌>>=◌,
}
use franklin.Text.{Buffer}
use franklin.Bitmap.Laws.{pages_of}
use franklin.Vmm.{Vm, index, newvm_map}
use franklin.Vmm.Tree.{Label, IsTree}
use franklin.Vmm.View.{view}
use franklin.Vmm.Refines.{Takes}
use franklin.Vmm.Series.{Takes-refl}
use franklin.Vmm.Fork.{LowerClear, Forked, new_map, no_page, newvm_map-Forked}
use franklin.Proc.{Proc}
use franklin.Exec.Args.{Auxval}
use franklin.Exec.Layout.{Arg, strings, AllTexts}
use franklin.Exec.Passed.{IsAux}
use franklin.Exec.Load.{Machine, Files, ehdr_size, phdr_size, loadelf}
use franklin.Exec.Load.Outcome.{FileAt}
use franklin.Exec.Load.Segment.{Starved-Takes, Starved-none}
use franklin.Exec.Load.Holds.{Covers, Holds}
use franklin.Exec.Load.Program.{header, IsLoad, budget}
use franklin.Exec.Load.Loaded.{
  elf, program_aux, IsElf, LoadsElf, elf_loaded, elf_starved, loadelf-LoadsElf, ByteOf,
  HeadersLoaded-Holds,
}
use franklin.Exec.Start.{
  System, stack_bytes, stackva, place_stack, fork_map, on_machine, enter, exec,
}
use franklin.Exec.Start.Stack.{Placed, placed, no_stack, place_stack-Placed}
use franklin.Exec.Start.Running.{args_size, Started, started, no_memory, enter-Started}

-- The pages that `exec` can need.
abbrev pub exec_pages : Buffer → ℕ
exec_pages content = 1 + (budget content (elf content).e_phoff (elf content).e_phnum 0 + 258)

-- No segment of the file is in the pages of the stack.
pub record StackFree (content : Buffer) : Type 0 where
  pub apart :
      (k o : ℕ)
      → k < (elf content).e_phnum
      → IsLoad content (elf content).e_phoff k
      → o < stack_bytes
      → ¬ Covers (header content (elf content).e_phoff k) (stackva + o)

-- What `exec` is given, and that it can be used: a file, arguments and a current process.
pub record Given {F : Type 0} (calls : Files F) (name content : Buffer) (I : F → Type 0) (vn : ℕ)
    (ps : List Arg) (aux : Auxval) (s : System F) : Type 0 where
  pub vnode : ℕ
  pub opened : F
  pub opens : calls.open_file name vn s.machine.files ≡ ok (vnode, opened)
  pub holds : I opened
  pub file : FileAt calls vnode content I
  pub is_elf : IsElf content
  pub stack_free : StackFree content
  pub proc : Proc
  pub here : get_elem? s.ptable.proc s.ptable.current ≡ some proc
  pub unlocked : s.ptable.lock ≡ false
  pub texts : AllTexts ps
  pub room : args_size ps ≤ stack_bytes
  pub words : IsAux (program_aux content aux)

lower_none : (i : ℕ) (x : Option ℕ) → i < 256 → (if ltb i 256 then none else x) ≡ none
lower_none i x lt = ground arith

Started-Takes :
    {F : Type 0} {ps : List Arg} {aux : Auxval} {v c slot : ℕ} {s t : Vm} (m n k : ℕ)
    {r : Run (Unit {0} × System F)}
    → m + n ≤ k
    → Takes s t m
    → Started ps aux v c slot n t r
    → Started ps aux v c slot k s r
Started-Takes m n k le takes (started running) = started running
Started-Takes m n k le takes (no_memory few) = no_memory (Starved-Takes m n k le takes few)

module _ {F : Type 0} (calls : Files F) (kernel_top tss : ℕ) (name content : Buffer)
    (I : F → Type 0) (ps : List Arg) (aux : Auxval) (vn : ℕ) (elf_junk phdr_junk : Buffer) (v c : ℕ)
    (s : System F) (given : Given calls name content I vn ps aux s) where
  abbrev Ended : ℕ → Vm → Run (Unit {0} × System F) → Type 0
  Ended n vm r = Started ps (program_aux content aux) v c s.ptable.current n vm r

  abbrev budget_of : ℕ
  budget_of = budget content (elf content).e_phoff (elf content).e_phnum 0

  abbrev with_machine : Machine F → System F
  with_machine m = record s { machine = m }

  abbrev after_load : (top : ℕ) → Auxval → Cmd (System F) (Unit {0})
  after_load top aux' =
      on_machine (place_stack top) >>= λ frame. enter tss top frame (strings ps) aux'

  abbrev after_fork : (top : ℕ) → Cmd (System F) (Unit {0})
  after_fork top =
      on_machine (loadelf calls name top aux vn elf_junk phdr_junk) >>= λ aux'. after_load top aux'

  after-Placed :
      (top : ℕ) (m : Machine F) {r : Run (ℕ × Machine F)}
      → pages_of m.vm.pages.bitmap < 2 ^ 35
      → Holds (m.vm) (m.ram) top v c
      → ((o : ℕ) → o < stack_bytes → view m.vm.mem 3 top (stackva + o) ≡ none)
      → Placed top m r
      → Ended 258 m.vm (
          and_then {A = ℕ × System F}
            (and_then r (λ q. ok (q.0, with_machine q.1)))
            (λ w. enter tss top w.0 (strings ps) (program_aux content aux) w.1))
  after-Placed top m small held unmapped (no_stack few) =
      no_memory (Starved-Takes 0 257 258 (omega arith) (Takes-refl m.vm) few)
  after-Placed top m small held unmapped (placed {vm} at tree root l) =
      Started-Takes 257 1 258 (omega arith) l.takes (
        enter-Started (with_machine (record m { vm = vm })) tss top v c ps (program_aux content aux)
          given.proc m l small held unmapped given.here given.unlocked given.texts given.room
          given.words 1 (omega arith))

  after-LoadsElf :
      (top : ℕ) (m : Machine F) {r : Run (Auxval × Machine F)}
      → pages_of m.vm.pages.bitmap < 2 ^ 35
      → ByteOf content v c
      → ((a : ℕ) → index 3 a < 256 → view m.vm.mem 3 top a ≡ none)
      → index 3 v < 256
      → LoadsElf content I top aux m r
      → Ended (budget_of + 258) m.vm (
          and_then {A = Auxval × System F}
            (and_then r (λ q. ok (q.0, with_machine q.1)))
            (λ w. after_load top w.0 w.1))
  after-LoadsElf top m small byte low low_v (elf_starved few) =
      no_memory (Starved-Takes 0 budget_of (budget_of + 258) (omega arith) (Takes-refl m.vm) few)
  after-LoadsElf top m small byte low low_v (elf_loaded {t} at tree root inv l) =
      let free = given.stack_free in
      Started-Takes budget_of 258 (budget_of + 258) (omega arith) l.takes (
        after-Placed top t (omega (arith, small, l.takes.size))
          (HeadersLoaded-Holds content top v c m t l byte (low v low_v))
          (λ o lt.
            l.uncovered (stackva + o) (low (stackva + o) (omega arith))
              (λ k lo hi load. free.apart k o (omega (arith, hi)) load lt))
          (place_stack-Placed top t at tree root))

  after-Forked :
      {r : Run (ℕ × Vm)}
      → pages_of s.machine.vm.pages.bitmap < 2 ^ 35
      → ByteOf content v c
      → index 3 v < 256
      → length elf_junk ≡ ehdr_size
      → length phdr_junk ≡ phdr_size
      → Forked s.machine.vm kernel_top r
      → newvm_map kernel_top s.machine.vm ≡ r
      → Ended
          (exec_pages content)
          s.machine.vm
          (exec calls kernel_top tss name (strings ps) aux vn elf_junk phdr_junk s)
  unfolding exec fork_map
  after-Forked small byte low_v size size' (no_page taken) e =
      rw e (no_memory (Starved-none s.machine.vm 1 _ (omega arith) taken))
  after-Forked small byte low_v size size' (new_map {top} {t} at tree root same kernel fresh takes)
        e =
      let m : Machine F = record (s.machine) { vm = t } in
      rw e (
        Started-Takes 1 (budget_of + 258) _ (omega arith) takes (
          after-LoadsElf top m (omega (arith, small, takes.size)) byte
            (λ a lt. same a ∙ lower_none (index 3 a) _ lt) low_v
            (loadelf-LoadsElf calls name content I top m vn given.vnode aux elf_junk phdr_junk
              given.opened at given.opens given.holds given.file given.is_elf size size' tree
              root)))

  -- For a file, arguments and a current process as `exec` can use them (the headers and segments
  -- lie in the file and leave the pages of the stack free, the arguments are texts that leave
  -- room on the stack, the lock of the process table is free), over tables of the kernel that are
  -- a tree and free pages with no entry in their lower half, fewer than 2 ^ 35 in all: after
  -- `exec` the same process runs, with the selectors of programs and page tables of its own in
  -- the register, at the entry of the file, and the lock of the process table is taken; a byte of
  -- a segment, in the lower half and in no earlier segment, is what it finds at its address; and
  -- from its stack pointer to the end of the stack it finds, by its page tables, the bytes that
  -- `copyargs` has left there. Or `exec` faults, and then there are a length and a list of pages,
  -- neither of them more than the pages that `exec` can take, such that every run of free pages
  -- of that length has a page of the list in it.
  pub exec-Started :
      (at : ℕ → Label)
      → IsTree s.machine.vm at
      → at kernel_top ≡ some (3, 0)
      → LowerClear s.machine.vm
      → pages_of s.machine.vm.pages.bitmap < 2 ^ 35
      → ByteOf content v c
      → index 3 v < 256
      → length elf_junk ≡ ehdr_size
      → length phdr_junk ≡ phdr_size
      → Started ps
          (program_aux content aux)
          v
          c
          s.ptable.current
          (exec_pages content)
          s.machine.vm
          (exec calls kernel_top tss name (strings ps) aux vn elf_junk phdr_junk s)
  exec-Started at tree root lower small byte low_v size size' =
      after-Forked small byte low_v size size'
        (newvm_map-Forked s.machine.vm at kernel_top tree root lower) refl
