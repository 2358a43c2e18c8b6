-- ===== src/Exec/Tests.antt =====
-- kernel/proc.c: `copyargs` on a stack that has one argument, and `loadelf` of a file with one
-- segment of two bytes.
use franklin.Base.{
  false, ◌+◌, ℕ, zero, suc, ◌%◌, ◌/◌, ◌++◌, refl, sym, take, drop, ◌≡◌, arith, List, [], ◌∷◌, ok,
}
use franklin.Exec.Words.{Memory}
use franklin.Exec.Args.{Auxval, copyargs}
use franklin.Exec.Layout.{Arg, strings}
use franklin.Text.{Buffer}
use franklin.Exec.Words.{load_bytes}
use franklin.Exec.Load.{Machine, Files, ehdr_of, phdr_of, field, loadelf}
use franklin.Exec.Load.Outcome.{FileAt, IsSegment}
use franklin.Exec.Load.Program.{header}
use franklin.Exec.Load.Loaded.{program_aux, IsElf, ByteOf, FindsByte, loadelf-FindsByte}
use mathlib.Core.Path.{subst}
use franklin.Vmm.View.{view}
use franklin.Vmm.Sample.{top, empty, alone, empty-IsTree, roomy, roomy-IsTree}
use franklin.Proc.{Proc, Procstate}
use franklin.Exec.Load.Holds.{Covers}
use franklin.Exec.Start.{System, stackva, exec}
use franklin.Exec.Start.Running.{Started}
use franklin.Exec.Start.Whole.{exec_pages, StackFree, Given, exec-Started}
use franklin.Exec.Passed.{Passed, copyargs-Passed}

abbrev clean : Memory
clean = λ b. 7

abbrev start_values : Auxval
start_values = record { at_entry = 4194304; at_phdr = 64; at_phent = 56; at_phnum = 2 }

abbrev hi : List Arg
hi = (104 ∷ 105 ∷ [], []) ∷ []

copyargs-Passed_example :
    (r : ℕ × Memory) × (copyargs 4096 (strings hi) start_values clean ≡ ok r)
    × Passed 4096 hi start_values clean r.0 r.1
copyargs-Passed_example =
    copyargs-Passed hi 4096 start_values clean (((omega arith, (omega arith, tt)), λ e. cc), tt)
      (omega arith) (omega arith) (omega arith, omega arith, omega arith, omega arith)

-- `n` bytes of a number, the lowest first.
abbrev little : (n w : ℕ) → Buffer
little zero w = []
little (suc n) w = (w % 256) ∷ little n (w / 256)

abbrev tiny_header : Buffer
tiny_header =
    little 24 0
    ++ (little 8 0x400000
        ++ (little 8 64 ++ (little 14 0 ++ (little 2 56 ++ (little 2 1 ++ little 6 0)))))

abbrev tiny_segment : Buffer
tiny_segment =
    little 4 1
    ++ (little 4 5
        ++ (little 8 120 ++ (little 16 0x400000 ++ (little 8 2 ++ (little 8 2 ++ little 8 0)))))

abbrev tiny : Buffer
tiny = tiny_header ++ (tiny_segment ++ (0x90 ∷ 0xc3 ∷ []))

-- A file system that has one file, and no state.
abbrev one_file : Files (Unit {0})
one_file = record {
  open_file = λ name vn f. ok (7, f);
  read_file = λ vn b offset count f. ok (take count (drop offset tiny), f);
}

one_file-FileAt : FileAt one_file 7 tiny (λ f. Unit {0})
one_file-FileAt = record { reads = λ f i b offset count inside size. (f, refl, tt) }

tiny-IsSegment : IsSegment tiny (header tiny 64 0)
unfolding phdr_of field load_bytes
tiny-IsSegment = record {
  in_file = omega arith;
  sizes = omega arith;
  bounded = omega arith;
  aligned = omega arith;
  low = omega arith;
}

tiny-IsElf : IsElf tiny
unfolding ehdr_of phdr_of field load_bytes
tiny-IsElf = record {
  small = omega arith;
  has_header = omega arith;
  has_headers = omega arith;
  segments = λ i lt load.
      (let e : i ≡ 0 = omega arith in
        subst (λ (i : ℕ). IsSegment tiny (header tiny 64 i)) (sym e) tiny-IsSegment);
}

abbrev start_machine : Machine (Unit {0})
start_machine = record { vm = empty; ram = clean; files = tt }

second-ByteOf : ByteOf tiny 0x400001 0xc3
unfolding ehdr_of phdr_of field load_bytes view
second-ByteOf = record {
  k = 0;
  j = 1;
  is_header = omega arith;
  is_load = refl;
  inside = omega arith;
  place = refl;
  byte = refl;
  first = λ k' lt load cover. omega arith;
}

-- The second byte of the segment.
loadelf-FindsByte_example :
    FindsByte tiny empty top start_values 0x400001 0xc3
      (loadelf one_file [] top start_values 0 (little 64 0) (little 56 0) start_machine)
unfolding ehdr_of phdr_of field load_bytes view
loadelf-FindsByte_example =
    loadelf-FindsByte one_file [] tiny (λ f. Unit {0}) top 0x400001 0xc3 start_machine 0 7
      start_values (little 64 0) (little 56 0) tt alone refl tt one_file-FileAt tiny-IsElf refl refl
      empty-IsTree refl second-ByteOf refl

abbrev shell : Proc
shell = record {
  state = Procstate.running;
  pid = 1;
  regs = 0;
  stack = 0;
  entry = 0;
  cs = 0x28;
  eflags = 0x202;
  rsp = 0;
  ss = 0;
  resume = 0;
  vmap = 0;
}

abbrev start_system : System (Unit {0})
start_system = record {
  machine = record { vm = roomy; ram = clean; files = tt };
  ptable = record { lock = false; proc = shell ∷ []; i = 0; nextpid = 1; current = 0 };
  gdt = clean;
  cr3 = 0;
  rsp0 = 0;
}

tiny-StackFree : StackFree tiny
unfolding ehdr_of phdr_of field load_bytes
tiny-StackFree = record {
  apart = λ k o lt load low cover.
      let e : k ≡ 0 = omega arith in
      let here = subst (λ (k : ℕ). Covers (header tiny 64 k) (stackva + o)) e cover in
      omega (arith, here.0, here.1, low);
}

tiny-Given : Given one_file [] tiny (λ f. Unit {0}) 0 hi start_values start_system
unfolding ehdr_of phdr_of field load_bytes
tiny-Given = record {
  vnode = 7;
  opened = tt;
  opens = refl;
  holds = tt;
  file = one_file-FileAt;
  is_elf = tiny-IsElf;
  stack_free = tiny-StackFree;
  proc = shell;
  here = refl;
  unlocked = refl;
  texts = (((omega arith, (omega arith, tt)), λ e. cc), tt);
  room = omega arith;
  words = (omega arith, omega arith, omega arith, omega arith);
}

exec-Started_example :
    Started hi (program_aux tiny start_values) 0x400001 0xc3 0 (exec_pages tiny) roomy (
      exec one_file top 0x5000 []
        (strings hi)
        start_values
        0
        (little 64 0)
        (little 56 0)
        start_system)
exec-Started_example =
    exec-Started one_file top 0x5000 [] tiny (λ f. Unit {0}) hi start_values 0 (little 64 0)
      (little 56 0) 0x400001 0xc3 start_system tiny-Given alone roomy-IsTree refl
      (record { clear = λ q j inside free low. refl }) (omega arith) second-ByteOf (omega arith)
      refl refl
