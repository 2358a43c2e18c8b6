-- ===== src/Exec/Load.antt =====
-- kernel/proc.c, `loadelf`: a program from a file, over the calls of fs/vfs.c and the page tables.
pub mod Flags
pub mod Outcome
pub mod Segment
pub mod Holds
pub mod Program
pub mod Loop
pub mod Loaded
pub mod Vfs
use franklin.Base.{
  ℕ, zero, suc, ◌+◌, ◌-◌, ◌*◌, ◌/◌, ◌%◌, ◌^◌, ◌==◌, ltb, if◌then◌else◌, bit_and, bit_or, List, [],
  ◌∷◌, fault, ok, and_then, Cmd, pure, ◌>>=◌, ◌>>◌,
}
use franklin.Text.{Buffer}
use franklin.Pmm.{page_size, palloc}
use franklin.Vmm.{Vm, p2v, mappages}
use franklin.Exec.Words.{Memory, load_bytes}
use franklin.Exec.Args.{Auxval}
use franklin.Gdt.{put_bytes}

-- The page tables with the page allocator, the bytes of the pages of programs, by the address
-- where `P2V` maps them, and the state of the file system.
pub record Machine (F : Type 0) : Type 0 where
  pub vm : Vm
  pub ram : Memory
  pub files : F

-- The calls of fs/vfs.c: `vfs_open` without flags, which gets `*vpp` and gives the new one, and
-- `vfs_read` of `count` bytes from `offset` on, which gets what the buffer holds and gives the new
-- bytes. The errors that they return are dropped.
pub record Files (F : Type 0) : Type 0 where
  pub open_file : Buffer → ℕ → Cmd F ℕ
  pub read_file : (vn : ℕ) → Buffer → (offset count : ℕ) → Cmd F Buffer

-- `Elf64_Ehdr` and `Elf64_Phdr`, the fields that are used.
pub record Ehdr : Type 0 where
  pub e_entry : ℕ
  pub e_phoff : ℕ
  pub e_phentsize : ℕ
  pub e_phnum : ℕ

pub record Phdr : Type 0 where
  pub p_type : ℕ
  pub p_flags : ℕ
  pub p_offset : ℕ
  pub p_vaddr : ℕ
  pub p_filesz : ℕ
  pub p_memsz : ℕ

abbrev pub byte_at : Buffer → ℕ → ℕ
byte_at [] i = 0
byte_at (c ∷ cs) zero = c
byte_at (c ∷ cs) (suc i) = byte_at cs i

-- A field of `width` bytes of a structure, the lowest byte first.
unfoldable pub field : (offset width : ℕ) → Buffer → ℕ
unfolding load_bytes
field offset width b = load_bytes width offset (byte_at b)

unfoldable pub ehdr_of : Buffer → Ehdr
unfolding field
ehdr_of b = record {
  e_entry = field 24 8 b;
  e_phoff = field 32 8 b;
  e_phentsize = field 54 2 b;
  e_phnum = field 56 2 b;
}

unfoldable pub phdr_of : Buffer → Phdr
unfolding field
phdr_of b = record {
  p_type = field 0 4 b;
  p_flags = field 4 4 b;
  p_offset = field 8 8 b;
  p_vaddr = field 16 8 b;
  p_filesz = field 32 8 b;
  p_memsz = field 40 8 b;
}

abbrev pub ehdr_size : ℕ
ehdr_size = 64

abbrev pub phdr_size : ℕ
phdr_size = 56

-- `PT_LOAD` and `PT_PHDR`
abbrev pub pt_load : ℕ
pt_load = 1

abbrev pub pt_phdr : ℕ
pt_phdr = 6

-- `PTE_PRESENT | PTE_USER`, with `PTE_RW` for `PF_W` and `PTE_NX` without `PF_X`.
unfoldable pub segment_flags : ℕ → ℕ
segment_flags p_flags =
    let flags = if bit_and p_flags 2 == 0 then 5 else bit_or 5 2 in
    if bit_and p_flags 1 == 0 then bit_or flags (2 ^ 63) else flags

-- `DIV_ROUNDUP(phdr.p_memsz, PGSIZE)`
abbrev pub page_count : Phdr → ℕ
page_count h = (h.p_memsz + page_size - 1) % 2 ^ 64 / page_size

-- The bytes of memory from an address on.
abbrev pub get_bytes : (count a : ℕ) → Memory → Buffer
get_bytes zero a m = []
get_bytes (suc count) a m = m a ∷ get_bytes count (a + 1) m

module _ {F : Type 0} where
  unfoldable pub alloc_pages : ℕ → Cmd (Machine F) ℕ
  alloc_pages n s =
      and_then (palloc n s.vm.pages)
        (λ r. ok (r.0, record s { vm = record (s.vm) { pages = r.1 } }))

  unfoldable pub map_pages : (top_level vaddr paddr size flags : ℕ) → Cmd (Machine F) (Unit {0})
  unfolding mappages
  map_pages top_level vaddr paddr size flags s =
      and_then (mappages top_level vaddr paddr size flags s.vm)
        (λ r. ok (tt, record s { vm = r.1 }))

  module _ (calls : Files F) where
    -- `vfs_read` into a local variable.
    unfoldable pub read_struct : (vn : ℕ) → Buffer → (offset count : ℕ) → Cmd (Machine F) Buffer
    read_struct vn b offset count s =
        and_then (calls.read_file vn b offset count s.files)
          (λ r. ok (r.0, record s { files = r.1 }))

    -- `vfs_read` into pages at address `a`, of `room` bytes.
    unfoldable pub read_pages : (vn a room offset count : ℕ) → Cmd (Machine F) (Unit {0})
    unfolding put_bytes
    read_pages vn a room offset count s =
        if ltb room count
        then fault
        else and_then (calls.read_file vn (get_bytes count a s.ram) offset count s.files)
            (λ r. ok (tt, record s { ram = put_bytes a r.0 s.ram; files = r.1 }))

    -- The case `PT_LOAD`.
    unfoldable pub load_segment : (top_level vn : ℕ) → Phdr → Cmd (Machine F) (Unit {0})
    unfolding alloc_pages map_pages read_pages p2v segment_flags
    load_segment top_level vn h = do
      paddr ← alloc_pages (page_count h)
      map_pages top_level h.p_vaddr paddr (page_count h * page_size) (segment_flags h.p_flags)
      read_pages vn (p2v paddr) (page_count h * page_size) h.p_offset h.p_filesz

    -- The `switch`.
    unfoldable pub on_header : (top_level vn : ℕ) → Phdr → Auxval → Cmd (Machine F) Auxval
    unfolding load_segment
    on_header top_level vn h aux =
        if h.p_type == pt_load
        then (load_segment top_level vn h >> pure aux)
        else if h.p_type == pt_phdr
        then pure (record aux { at_phdr = h.p_vaddr })
        else pure aux

    -- The loop over the program headers, from header `i` on.
    unfoldable pub load_segments :
        (left i top_level vn phoff : ℕ) → (phdr : Buffer) → Auxval → Cmd (Machine F) Auxval
    unfolding read_struct phdr_of on_header
    load_segments zero i top_level vn phoff phdr aux = pure aux
    load_segments (suc left) i top_level vn phoff phdr aux = do
      phdr' ← read_struct vn phdr ((phoff + i * phdr_size) % 2 ^ 64) phdr_size
      aux' ← on_header top_level vn (phdr_of phdr') aux
      load_segments left (i + 1) top_level vn phoff phdr' aux'

    -- The arguments `vn`, `elf` and `phdr` are what the local variables hold at the start. The
    -- result is `*aux`.
    unfoldable pub loadelf :
        Buffer → (top_level : ℕ) → Auxval → (vn : ℕ) → (elf phdr : Buffer) → Cmd (Machine F) Auxval
    unfolding read_struct ehdr_of load_segments
    loadelf name top_level aux vn elf phdr = do
      vn' ← (λ s.
          and_then (calls.open_file name vn s.files) (λ r. ok (r.0, record s { files = r.1 })))
      elf' ← read_struct vn' elf 0 ehdr_size
      aux' ← load_segments (ehdr_of elf').e_phnum 0 top_level vn' (ehdr_of elf').e_phoff phdr aux
      pure (record aux' {
        at_entry = (ehdr_of elf').e_entry;
        at_phent = (ehdr_of elf').e_phentsize;
        at_phnum = (ehdr_of elf').e_phnum;
      })
