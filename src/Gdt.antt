-- ===== src/Gdt.antt =====
-- kernel/gdt.c and include/franklin/gdt.h: the descriptors of segments. The table is a memory of
-- bytes from its first one on; a structure is the list of its bytes.
pub mod Segments
pub mod Tss
pub mod Init
mod Tests
use franklin.Text.{◌>>=◌}
use franklin.Pmm.{Pmm, palloc}
use franklin.Base.{
  bit_or, Run, ok, ℕ, ◌+◌, ◌-◌, ◌*◌, ◌/◌, ◌%◌, ◌^◌, ◌==◌, ltb, if◌then◌else◌, List, [], ◌∷◌, ◌++◌,
}
use franklin.Exec.Words.{Memory, put_byte}

-- `struct gdtdesc`; `base_addr` is an array of three bytes.
pub record Gdtdesc : Type 0 where
  pub segment_limit : ℕ
  pub base_addr_0 : ℕ
  pub base_addr_1 : ℕ
  pub base_addr_2 : ℕ
  pub attributes_1 : ℕ
  pub segment_limit2 : ℕ
  pub attributes_2 : ℕ
  pub base_addr2 : ℕ

-- `struct tssdesc`
pub record Tssdesc : Type 0 where
  pub desc : Gdtdesc
  pub base_high : ℕ

-- The bytes of the structures. The two fields of four bits share a byte.
unfoldable pub desc_bytes : Gdtdesc → List ℕ
desc_bytes d =
    (d.segment_limit % 2 ^ 8)
    ∷ (d.segment_limit / 2 ^ 8)
    ∷ d.base_addr_0
    ∷ d.base_addr_1
    ∷ d.base_addr_2
    ∷ d.attributes_1
    ∷ (d.segment_limit2 + 2 ^ 4 * d.attributes_2)
    ∷ d.base_addr2
    ∷ []

unfoldable pub tss_bytes : Tssdesc → List ℕ
tss_bytes t =
    desc_bytes (t.desc)
    ++ ((t.base_high % 2 ^ 8)
        ∷ (t.base_high / 2 ^ 8 % 2 ^ 8)
        ∷ (t.base_high / 2 ^ 16 % 2 ^ 8)
        ∷ (t.base_high / 2 ^ 24)
        ∷ [])

unfoldable pub put_bytes : ℕ → List ℕ → Memory → Memory
put_bytes a [] m = m
put_bytes a (x ∷ xs) m = put_byte a x (put_bytes (a + 1) xs m)

-- `gdt` and `gdt_index`
pub record Gdt : Type 0 where
  pub bytes : Memory
  pub gdt_index : ℕ

-- `gdt[++gdt_index] = …`
unfoldable pub add_desc : List ℕ → Gdt → Gdt
add_desc d g =
    let i = (g.gdt_index + 1) % 2 ^ 8 in
    record { bytes = put_bytes (8 * i) d g.bytes; gdt_index = i }

-- Segments for programs: the descriptor privilege level is 3, and the bits S and P are set.
abbrev pub userdata : Gdtdesc
userdata = record {
  segment_limit = 0;
  base_addr_0 = 0;
  base_addr_1 = 0;
  base_addr_2 = 0;
  attributes_1 = 2 + 3 * 2 ^ 5 + 2 ^ 7 + 2 ^ 4;
  segment_limit2 = 0;
  attributes_2 = 0;
  base_addr2 = 0;
}

abbrev pub usercode : Gdtdesc
usercode = record {
  segment_limit = 0;
  base_addr_0 = 0;
  base_addr_1 = 0;
  base_addr_2 = 0;
  attributes_1 = 8 + 3 * 2 ^ 5 + 2 ^ 7 + 2 ^ 4;
  segment_limit2 = 0;
  attributes_2 = 2;
  base_addr2 = 0;
}

-- The descriptor of `alloc_tss`, which leaves `base_addr2` to be 0.
unfoldable pub tss_desc : ℕ → Tssdesc
tss_desc tss = record {
  desc = record {
    segment_limit = 0x67;
    base_addr_0 = tss % 2 ^ 8;
    base_addr_1 = tss / 2 ^ 8 % 2 ^ 8;
    base_addr_2 = tss / 2 ^ 16 % 2 ^ 8;
    attributes_1 = 9 + 2 ^ 7;
    segment_limit2 = 0;
    attributes_2 = 0;
    base_addr2 = 0;
  };
  base_high = tss / 2 ^ 32 % 2 ^ 32;
}

-- `tss` is the address of the local structure, which holds the address of the page for the stack.
unfoldable pub alloc_tss : ℕ → Pmm → Run (Tssdesc × Pmm)
unfolding tss_desc
alloc_tss tss pages = do r ← palloc 1 pages; ok (tss_desc tss, r.1)

-- `init_tss`: the table, and the selector for the task register.
unfoldable pub init_tss : ℕ → Gdt → Pmm → Run ((Gdt × ℕ) × Pmm)
unfolding alloc_tss
init_tss tss g pages = do
  d ← alloc_tss tss pages
  let g' = add_desc (tss_bytes d.0) g
  ok ((g', 8 * g'.gdt_index % 2 ^ 16), d.1)

-- `ltr` of a selector: the processor marks the task state segment in the table as busy.
unfoldable pub ltr : ℕ → Memory → Memory
ltr tr m = put_byte (tr / 8 * 8 + 5) (bit_or (m (tr / 8 * 8 + 5)) 2) m

-- `init_gdt`: `old` and `size` are what the register of the processor has, the bytes at its
-- address and its limit, and `page` is what the page that `palloc` gives holds. The result is
-- also the limit that is loaded.
unfoldable pub init_gdt :
    (old : Memory) (size : ℕ) (page : Memory) (tss : ℕ) → Pmm → Run (((Gdt × ℕ) × ℕ) × Pmm)
unfolding init_tss ltr
init_gdt old size page tss pages =
    let cleared : Memory = λ b. if ltb b 4096 then 0 else page b in
    let copied : Memory = λ b. if ltb b size then old b else cleared b in
    let g : Gdt = record { bytes = copied; gdt_index = size / 8 % 2 ^ 8 } in
    let filled = add_desc (desc_bytes usercode) (add_desc (desc_bytes userdata) g) in
    do
      r ← palloc 1 pages
      t ← init_tss tss filled r.1
      let g' = record (t.0.0) { bytes = ltr t.0.1 t.0.0.bytes }
      ok (((g', t.0.1), 4096), t.1)

-- `load_tss`, at the descriptor of index 9.
unfoldable pub load_tss : ℕ → Memory → Memory
unfolding ltr
load_tss addr m =
    let limit = put_byte 73 0 (put_byte 72 0x67 m) in
    let limit2 = put_byte 78 (limit 78 / 2 ^ 4 * 2 ^ 4) limit in
    let base =
      put_byte 76 (addr / 2 ^ 16 % 2 ^ 8)
        (put_byte 75 (addr / 2 ^ 8 % 2 ^ 8) (put_byte 74 (addr % 2 ^ 8) limit2)) in
    let attributes = put_byte 77 (9 + 2 ^ 7) base in
    let attributes2 = put_byte 78 (attributes 78 % 2 ^ 4) attributes in
    let high = put_byte 83 (addr / 2 ^ 56 % 2 ^ 8) (
      put_byte 82 (addr / 2 ^ 48 % 2 ^ 8)
        (put_byte 81 (addr / 2 ^ 40 % 2 ^ 8) (put_byte 80 (addr / 2 ^ 32 % 2 ^ 8) attributes2))) in
    ltr (9 * 8) high
