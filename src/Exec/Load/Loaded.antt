-- ===== src/Exec/Load/Loaded.antt =====
-- kernel/proc.c, `loadelf` as a whole.
use franklin.Base.{
  ℕ, ◌+◌, ◌*◌, ◌^◌, ◌≤◌, ◌<◌, ◌≡◌, refl, arith, length, take, get_elem?, none, some, Run, ok, fault,
  and_then,
}
use franklin.Text.{Buffer}
use franklin.Vmm.{Vm}
use franklin.Vmm.Tree.{Label, IsTree}
use franklin.Vmm.View.{view}
use franklin.Exec.Args.{Auxval}
use franklin.Exec.Load.{
  Machine, Files, Ehdr, ehdr_of, ehdr_size, phdr_size, read_struct, load_segments, loadelf,
}
use franklin.Exec.Load.Outcome.{FileAt, IsSegment, Starved}
use franklin.Exec.Load.Holds.{Holds, peek, peek-Holds, Covers}
use franklin.Exec.Load.Loop.{load_segments-Loads, with_files}
use franklin.Exec.Load.Program.{
  header, IsLoad, budget, phdr_aux, HeadersLoaded, LoadsHeaders, headers_loaded, headers_starved,
}

module _ (content : Buffer) where
  abbrev pub elf : Ehdr
  elf = ehdr_of (take ehdr_size content)

  -- `*aux` at the end.
  abbrev pub program_aux : Auxval → Auxval
  program_aux aux = record (phdr_aux content elf.e_phoff elf.e_phnum 0 aux) {
    at_entry = elf.e_entry;
    at_phent = elf.e_phentsize;
    at_phnum = elf.e_phnum;
  }

  -- A file in whose bytes the headers and the segments lie.
  pub record IsElf : Type 0 where
    pub small : length content < 2 ^ 64
    pub has_header : ehdr_size ≤ length content
    pub has_headers : elf.e_phoff + elf.e_phnum * phdr_size ≤ length content
    pub segments :
        (i : ℕ)
        → i < elf.e_phnum
        → IsLoad content elf.e_phoff i
        → IsSegment content (header content elf.e_phoff i)

-- How `loadelf` ends: with `*aux`, and the segments in memory, or where pages are short.
pub data LoadsElf {F : Type 0} (content : Buffer) (I : F → Type 0) (top : ℕ) (aux : Auxval)
    (s : Machine F) : Run (Auxval × Machine F) → Type 0 where
  elf_loaded :
      {t : Machine F} (at : ℕ → Label)
      → IsTree t.vm at
      → at top ≡ some (3, 0)
      → I t.files
      → HeadersLoaded content (elf content).e_phoff (elf content).e_phnum 0 top s t
      → LoadsElf content I top aux s (ok (program_aux content aux, t))
  elf_starved :
      Starved s.vm (budget content (elf content).e_phoff (elf content).e_phnum 0)
      → LoadsElf content I top aux s fault

module _ {F : Type 0} (calls : Files F) (name content : Buffer) (I : F → Type 0) (top : ℕ)
    (s : Machine F) where
  -- The fields that are set behind the loop.
  abbrev filled : Auxval → Auxval
  filled aux = record aux {
    at_entry = (elf content).e_entry;
    at_phent = (elf content).e_phentsize;
    at_phnum = (elf content).e_phnum;
  }

  LoadsHeaders-LoadsElf :
      (aux : Auxval) {r : Run (Auxval × Machine F)}
      → LoadsHeaders content (elf content).e_phoff I (elf content).e_phnum 0 top aux s r
      → LoadsElf content I top aux s (and_then r (λ p. ok (filled p.0, p.1)))
  LoadsHeaders-LoadsElf aux (headers_starved few) = elf_starved few
  LoadsHeaders-LoadsElf aux (headers_loaded at tree root inv l) = elf_loaded at tree root inv l

  -- The two reads of the header, and the loop.
  loadelf-step :
      (vn vn' : ℕ) (aux : Auxval) (elf_junk phdr_junk : Buffer) (f1 f2 : F)
      → calls.open_file name vn s.files ≡ ok (vn', f1)
      → calls.read_file vn' elf_junk 0 ehdr_size f1 ≡ ok (take ehdr_size content, f2)
      → loadelf calls name top aux vn elf_junk phdr_junk s
        ≡ and_then
            (load_segments calls
              (elf content).e_phnum
              0
              top
              vn'
              (elf content).e_phoff
              phdr_junk
              aux
              (record s { files = f2 }))
            (λ p. ok (filled p.0, p.1))
  unfolding loadelf read_struct
  loadelf-step vn vn' aux elf_junk phdr_junk f1 f2 e1 e2 = rw e1 (rw e2 refl)

  pub loadelf-LoadsElf :
      (vn vn' : ℕ) (aux : Auxval) (elf_junk phdr_junk : Buffer) (f1 : F) (at : ℕ → Label)
      → calls.open_file name vn s.files ≡ ok (vn', f1)
      → I f1
      → FileAt calls vn' content I
      → IsElf content
      → length elf_junk ≡ ehdr_size
      → length phdr_junk ≡ phdr_size
      → IsTree s.vm at
      → at top ≡ some (3, 0)
      → LoadsElf content I top aux s (loadelf calls name top aux vn elf_junk phdr_junk s)
  loadelf-LoadsElf vn vn' aux elf_junk phdr_junk f1 at e1 inv file is_elf size size' tree root =
      let (f2, e2, inv') =
        file.reads f1 inv elf_junk 0 ehdr_size (omega (arith, is_elf.has_header)) size in
      rw (loadelf-step vn vn' aux elf_junk phdr_junk f1 f2 e1 e2) (
        LoadsHeaders-LoadsElf aux (
          with_files content (elf content).e_phoff calls vn' I file top (elf content).e_phnum
            is_elf.segments (elf content).e_phnum 0 aux s f2
            (load_segments-Loads content (elf content).e_phoff calls vn' I file top
              (elf content).e_phnum is_elf.segments (elf content).e_phnum 0 phdr_junk aux
              (record s { files = f2 }) at (omega arith) is_elf.small
              (omega (arith, is_elf.has_headers)) size' tree root inv')))

-- A byte `c` of the file that a segment has at an address `v`, whose page is in no earlier segment.
pub record ByteOf (content : Buffer) (v c : ℕ) : Type 0 where
  pub k : ℕ
  pub j : ℕ
  pub is_header : k < (elf content).e_phnum
  pub is_load : IsLoad content (elf content).e_phoff k
  pub inside : j < (header content (elf content).e_phoff k).p_filesz
  pub place : v ≡ (header content (elf content).e_phoff k).p_vaddr + j
  pub byte : get_elem? content ((header content (elf content).e_phoff k).p_offset + j) ≡ some c
  pub first :
      (k' : ℕ)
      → k' < k
      → IsLoad content (elf content).e_phoff k'
      → ¬ Covers (header content (elf content).e_phoff k') v

pub HeadersLoaded-Holds :
    {F : Type 0} (content : Buffer) (top v c : ℕ) (s t : Machine F)
    → HeadersLoaded content (elf content).e_phoff (elf content).e_phnum 0 top s t
    → ByteOf content v c
    → view s.vm.mem 3 top v ≡ none
    → Holds (t.vm) (t.ram) top v c
HeadersLoaded-Holds content top v c s t l b free =
    let at_place = b.place in
    let first = b.first in
    rw at_place (
      l.bytes b.k b.j c (omega arith) (omega (arith, b.is_header)) b.is_load b.inside b.byte
        (rw at_place at free) (λ k' lo hi load cover. first k' hi load (rw at_place cover)))

-- How `loadelf` ends, for such a byte.
pub data FindsByte {F : Type 0} (content : Buffer) (vm : Vm) (top : ℕ) (aux : Auxval) (v c : ℕ)
    : Run (Auxval × Machine F) → Type 0 where
  finds :
      {t : Machine F} (at : ℕ → Label)
      → IsTree t.vm at
      → at top ≡ some (3, 0)
      → peek t top v ≡ some c
      → FindsByte content vm top aux v c (ok (program_aux content aux, t))
  out_of_pages :
      Starved vm (budget content (elf content).e_phoff (elf content).e_phnum 0)
      → FindsByte content vm top aux v c fault

LoadsElf-FindsByte :
    {F : Type 0} (content : Buffer) (I : F → Type 0) (top v c : ℕ) (aux : Auxval) (s : Machine F)
    → ByteOf content v c
    → view s.vm.mem 3 top v ≡ none
    → {r : Run (Auxval × Machine F)} → LoadsElf content I top aux s r
    → FindsByte content s.vm top aux v c r
LoadsElf-FindsByte content I top v c aux s b free (elf_starved few) = out_of_pages few
LoadsElf-FindsByte content I top v c aux s b free (elf_loaded {t} at tree root inv l) =
    finds at tree root (peek-Holds t top v c (HeadersLoaded-Holds content top v c s t l b free))

-- For a file whose program headers lie in it and whose segments to load lie in it, at the start
-- of a page, below the end of the addresses that the tables can tell apart and with no more bytes
-- in the file than in memory, on a tree of page tables, over calls that open the file and whose
-- reads inside it give its bytes: a byte of such a segment, at an address that was not mapped
-- before and whose page is in no earlier segment, is after `loadelf` what the program finds at
-- its address by the page tables, and `*aux` has the values of the headers. Or `loadelf` faults,
-- and then there are a length and a list of pages, neither of them more than the pages that the
-- headers can take (for each segment one page and four for each of its pages), such that every
-- run of free pages of that length has a page of the list in it.
pub loadelf-FindsByte :
    {F : Type 0} (calls : Files F) (name content : Buffer) (I : F → Type 0) (top v c : ℕ)
    (s : Machine F) (vn vn' : ℕ) (aux : Auxval) (elf_junk phdr_junk : Buffer) (f1 : F)
    (at : ℕ → Label)
    → calls.open_file name vn s.files ≡ ok (vn', f1)
    → I f1
    → FileAt calls vn' content I
    → IsElf content
    → length elf_junk ≡ ehdr_size
    → length phdr_junk ≡ phdr_size
    → IsTree s.vm at
    → at top ≡ some (3, 0)
    → ByteOf content v c
    → view s.vm.mem 3 top v ≡ none
    → FindsByte content s.vm top aux v c (loadelf calls name top aux vn elf_junk phdr_junk s)
loadelf-FindsByte calls name content I top v c s vn vn' aux elf_junk phdr_junk f1 at e inv file
      is_elf size size' tree root b free =
    LoadsElf-FindsByte content I top v c aux s b free (
      loadelf-LoadsElf calls name content I top s vn vn' aux elf_junk phdr_junk f1 at e inv file
        is_elf size size' tree root)
