-- ===== src/Exec/Load/Holds.antt =====
-- kernel/proc.c, `loadelf`: the bytes that the new program finds.
use franklin.Base.{
  ℕ, ◌+◌, ◌*◌, ◌/◌, ◌%◌, ◌^◌, ◌≤◌, ◌<◌, ◌≡◌, refl, ap, ◌∙◌, ◌⊎◌, inl, inr, true, arith, bit_and,
  bit_or, Option, none, some, get_elem?,
}
use franklin.Text.{Buffer}
use franklin.Bitmap.Laws.{used, pages_of}
use franklin.Pmm.{page_size}
use franklin.Vmm.{Vm, p2v, pte_addr_mask}
use franklin.Vmm.Tree.{page_at}
use franklin.Vmm.View.{view}
use franklin.Vmm.Refines.{page_of}
use franklin.Vmm.Range.{range_entry-get, range_entry-outside}
use franklin.Exec.Words.{Memory}
use franklin.Exec.Load.{Machine, Phdr, page_count, segment_flags}
use franklin.Exec.Load.Flags.{entry_address}
use franklin.Exec.Load.Outcome.{IsSegment, SegmentLoaded}

-- The byte at an address of the program, as the processor finds it by the entry for the page.
abbrev pub byte_by : Memory → (v : ℕ) → Option ℕ → Option ℕ
byte_by ram v none = none
byte_by ram v (some w) = some (ram (p2v (bit_and w pte_addr_mask) + v % page_size))

abbrev pub peek : {F : Type 0} → Machine F → (top v : ℕ) → Option ℕ
peek s top v = byte_by s.ram v (view s.vm.mem 3 top v)

-- An address leads to a byte `c` in a page that is in use.
pub record Holds (vm : Vm) (ram : Memory) (top v c : ℕ) : Type 0 where
  pub word : ℕ
  pub page : ℕ
  pub mapped : view vm.mem 3 top v ≡ some word
  pub address : bit_and word pte_addr_mask ≡ page * page_size
  pub inside : page < pages_of vm.pages.bitmap
  pub in_use : used vm.pages.bitmap page ≡ true
  pub byte : ram (page_at page + v % page_size) ≡ c

pub peek-Holds :
    {F : Type 0} (s : Machine F) (top v c : ℕ)
    → Holds (s.vm) (s.ram) top v c
    → peek s top v ≡ some c
peek-Holds s top v c h = rw (h.mapped, h.address, h.byte) refl

module _ {F : Type 0} (content : Buffer) (h : Phdr) (top : ℕ) (s t : Machine F)
    (segment : IsSegment content h) (small : pages_of s.vm.pages.bitmap ≤ 2 ^ 35)
    (l : SegmentLoaded content h top s t) where
  -- The pages of a segment are apart from those that were in use.
  pub apart :
      (page i : ℕ)
      → page < pages_of s.vm.pages.bitmap
      → used s.vm.pages.bitmap page ≡ true
      → i < page_size
      → (page_at page + i < page_at l.page)
        ⊎ (page_at l.page + page_count h * page_size ≤ page_at page + i)
  unfolding p2v
  apart page i inside u lt = elim (where_is page l.page (page_count h)) [
    | inl before ↦ omega (arith, small, l.free.inside)
    | inr (inl run) ↦ absurd (let f = l.free.free page run.0 run.1 in cc)
    | inr (inr behind) ↦ inr (omega (arith, small, l.free.inside))
  ]
    where
      where_is : (q p n : ℕ) → (q < p) ⊎ (((p ≤ q) × (q < p + n)) ⊎ (p + n ≤ q))
      where_is q p n = omega arith

  -- The bytes that are read fill no more than these pages.
  fits_pages : h.p_filesz ≤ page_count h * page_size
  fits_pages = omega (arith, segment.sizes, segment.bounded)

  pub keeps-Holds : (v c : ℕ) → Holds s.vm s.ram top v c → Holds t.vm t.ram top v c
  keeps-Holds v c k = record {
    word = k.word;
    page = k.page;
    mapped = l.entries v ∙ rw k.mapped refl;
    address = k.address;
    inside = omega (arith, k.inside, l.takes.size);
    in_use = l.takes.keeps k.page k.in_use;
    byte =
        l.outside (page_at k.page + v % page_size)
          (elim (apart k.page (v % page_size) k.inside k.in_use (omega arith)) [
            | inl before ↦ inl before
            | inr behind ↦ inr (omega (arith, fits_pages))
          ])
        ∙ k.byte;
  }

  -- Where byte `j` of the pages is.
  module _ (j : ℕ) (few : j / page_size < page_count h) where
    abbrev pub word_at : ℕ
    word_at = bit_or ((l.page + j / page_size) * page_size) (segment_flags h.p_flags)

    pub loaded-view :
        view s.vm.mem 3 top (h.p_vaddr + j) ≡ none
        → view t.vm.mem 3 top (h.p_vaddr + j) ≡ some word_at
    loaded-view free =
        let k : ℕ = j / page_size in
        let page : page_of (h.p_vaddr + j) ≡ page_of h.p_vaddr + k =
          omega (arith, segment.aligned, segment.low, few) in
        let frame : (l.page * page_size + k * page_size) % 2 ^ 64 ≡ (l.page + k) * page_size =
          omega (arith, small, l.free.inside, few) in
        l.entries (h.p_vaddr + j)
        ∙ rw free (
            range_entry-get (page_count h) h.p_vaddr (l.page * page_size) (segment_flags h.p_flags)
              (h.p_vaddr + j) k page few
            ∙ ap (λ a. some (bit_or a (segment_flags h.p_flags))) frame)

    pub word_address : bit_and word_at pte_addr_mask ≡ (l.page + j / page_size) * page_size
    word_address =
        entry_address (l.page + j / page_size) h.p_flags (omega (arith, small, l.free.inside, few))

    pub byte_place :
        page_at (l.page + j / page_size) + (h.p_vaddr + j) % page_size ≡ page_at l.page + j
    unfolding p2v
    byte_place = omega (arith, small, l.free.inside, few, segment.aligned)

    pub loaded-peek :
        (ram : Memory)
        → view s.vm.mem 3 top (h.p_vaddr + j) ≡ none
        → byte_by ram (h.p_vaddr + j) (view t.vm.mem 3 top (h.p_vaddr + j))
          ≡ some (ram (page_at l.page + j))
    loaded-peek ram free = rw (loaded-view free, word_address, byte_place) refl

  pub loaded-Holds :
      (j c : ℕ)
      → j < h.p_filesz
      → get_elem? content (h.p_offset + j) ≡ some c
      → view s.vm.mem 3 top (h.p_vaddr + j) ≡ none
      → Holds t.vm t.ram top (h.p_vaddr + j) c
  loaded-Holds j c lt e free =
      let few : j / page_size < page_count h = omega (arith, fits_pages) in
      record {
        word = word_at j few;
        page = l.page + j / page_size;
        mapped = loaded-view j few free;
        address = word_address j few;
        inside = omega (arith, l.free.inside, few, l.takes.size);
        in_use = l.in_use (l.page + j / page_size) (omega arith) (omega (arith, few));
        byte = (let same = byte_place j few in rw same (l.bytes j c lt e));
      }

-- The pages of a segment.
abbrev pub Covers : Phdr → (v : ℕ) → Type 0
Covers h v = (page_of h.p_vaddr ≤ page_of v) × (page_of v < page_of h.p_vaddr + page_count h)

pub still_none :
    {F : Type 0} (content : Buffer) (h : Phdr) (top : ℕ) (s t : Machine F)
    → SegmentLoaded content h top s t
    → (v : ℕ) → ¬ Covers h v
    → view s.vm.mem 3 top v ≡ none
    → view t.vm.mem 3 top v ≡ none
still_none content h top s t l v out free =
    l.entries v
    ∙ rw free (
        range_entry-outside (page_count h) h.p_vaddr (l.page * page_size) (segment_flags h.p_flags)
          v out)
