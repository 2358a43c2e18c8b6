-- ===== src/Exec/Load/Program.antt =====
-- kernel/proc.c, `loadelf`: what the loop over the program headers leaves.
use franklin.Base.{
  ℕ, zero, suc, ◌+◌, ◌*◌, ◌%◌, ◌^◌, ◌≤◌, ◌<◌, ◌≡◌, true, false, arith, ◌==◌, if◌then◌else◌, take,
  drop, get_elem?, none, some, Run, ok, fault, ==_iff, ℕ_discrete,
}
use franklin.Text.{Buffer}
use franklin.Bitmap.Laws.{pages_of}
use franklin.Vmm.Tree.{Label, IsTree}
use franklin.Vmm.View.{view}
use franklin.Vmm.Refines.{Takes}
use franklin.Vmm.Series.{Takes-refl, Takes-trans}
use franklin.Exec.Args.{Auxval}
use franklin.Exec.Load.{Machine, Phdr, phdr_of, phdr_size, pt_load, pt_phdr, page_count}
use franklin.Exec.Load.Outcome.{IsSegment, Starved, SegmentLoaded}
use franklin.Exec.Load.Holds.{Holds, keeps-Holds, loaded-Holds, Covers, still_none}

module _ (content : Buffer) (phoff : ℕ) where
  -- The bytes of program header `i`, and the header.
  abbrev pub header_bytes : ℕ → Buffer
  header_bytes i = take phdr_size (drop ((phoff + i * phdr_size) % 2 ^ 64) content)

  abbrev pub header : ℕ → Phdr
  header i = phdr_of (header_bytes i)

  abbrev pub IsLoad : ℕ → Type 0
  IsLoad i = (header i).p_type ≡ pt_load

  -- The pages that `left` headers from header `i` on can need.
  abbrev pub budget : (left i : ℕ) → ℕ
  budget zero i = 0
  budget (suc left) i =
      (if (header i).p_type == pt_load then 4 * page_count (header i) + 1 else 0)
      + budget left (i + 1)

  -- `*aux` behind these headers.
  abbrev pub phdr_aux : (left i : ℕ) → Auxval → Auxval
  phdr_aux zero i aux = aux
  phdr_aux (suc left) i aux =
      phdr_aux left (i + 1)
        (if (header i).p_type == pt_phdr then record aux { at_phdr = (header i).p_vaddr } else aux)

  -- What the load of these headers does: what the program had is there as before, and each byte of
  -- the file that a segment names is at its address, unless the page was mapped already or an
  -- earlier segment has it.
  pub record HeadersLoaded {F : Type 0} (left i top : ℕ) (s t : Machine F) : Type 0 where
    pub keep : (v c : ℕ) → Holds (s.vm) (s.ram) top v c → Holds (t.vm) (t.ram) top v c
    pub bytes :
        (k j c : ℕ)
        → i ≤ k
        → k < i + left
        → IsLoad k
        → j < (header k).p_filesz
        → get_elem? content ((header k).p_offset + j) ≡ some c
        → view s.vm.mem 3 top ((header k).p_vaddr + j) ≡ none
        → ((k' : ℕ) → i ≤ k' → k' < k → IsLoad k' → ¬ Covers (header k') ((header k).p_vaddr + j))
        → Holds (t.vm) (t.ram) top ((header k).p_vaddr + j) c
    pub uncovered :
        (v : ℕ)
        → view s.vm.mem 3 top v ≡ none
        → ((k : ℕ) → i ≤ k → k < i + left → IsLoad k → ¬ Covers (header k) v)
        → view t.vm.mem 3 top v ≡ none
    pub takes : Takes s.vm t.vm (budget left i)

  pub data LoadsHeaders {F : Type 0} (I : F → Type 0) (left i top : ℕ) (aux : Auxval)
      (s : Machine F) : Run (Auxval × Machine F) → Type 0 where
    headers_loaded :
        {t : Machine F} (at : ℕ → Label)
        → IsTree t.vm at
        → at top ≡ some (3, 0)
        → I t.files
        → HeadersLoaded left i top s t
        → LoadsHeaders I left i top aux s (ok (phdr_aux left i aux, t))
    headers_starved : Starved s.vm (budget left i) → LoadsHeaders I left i top aux s fault

  pub HeadersLoaded-refl : {F : Type 0} (i top : ℕ) (s : Machine F) → HeadersLoaded 0 i top s s
  HeadersLoaded-refl i top s = record {
    keep = λ v c h. h;
    bytes = λ k j c lo hi. absurd (omega arith);
    uncovered = λ v free out. free;
    takes = Takes-refl s.vm;
  }

  -- Behind a segment.
  pub segment-HeadersLoaded :
      {F : Type 0} (left i top : ℕ) (s t u : Machine F)
      → IsLoad i
      → IsSegment content (header i)
      → pages_of s.vm.pages.bitmap ≤ 2 ^ 35
      → SegmentLoaded content (header i) top s t
      → HeadersLoaded left (i + 1) top t u
      → HeadersLoaded (suc left) i top s u
  segment-HeadersLoaded left i top s t u load segment small l rest =
      let is_load : ((header i).p_type == pt_load) ≡ true = (==_iff _ _).1 load in
      record {
        keep =
            λ v c h. rest.keep v c (keeps-Holds content (header i) top s t segment small l v c h);
        bytes = λ k j c lo hi load' lt e free first. elim (ℕ_discrete k i) [
          | yes same ↦ rw same (
              rest.keep _ c (
                loaded-Holds content (header i) top s t segment small l j c (rw same at lt)
                  (rw same at e) (rw same at free)))
          | no other ↦
              rest.bytes k j c (omega arith) (omega arith) load' lt e
                (still_none content (header i) top s t l ((header k).p_vaddr + j)
                  (first i (omega arith) (omega arith) load) free)
                (λ k' lo' hi'. first k' (omega arith) hi')
        ];
        uncovered = λ v free out.
            rest.uncovered v
              (still_none content (header i) top s t l v (out i (omega arith) (omega arith) load)
                free)
              (λ k lo hi. out k (omega arith) (omega arith));
        takes = rw is_load (
            Takes-trans (4 * page_count (header i) + 1) (budget left (i + 1)) _ (omega arith)
              l.takes rest.takes);
      }

  -- Behind a header of another type.
  pub other-HeadersLoaded :
      {F : Type 0} (left i top : ℕ) (s u : Machine F)
      → ((header i).p_type == pt_load) ≡ false
      → HeadersLoaded left (i + 1) top s u
      → HeadersLoaded (suc left) i top s u
  other-HeadersLoaded left i top s u other rest = record {
    keep = rest.keep;
    bytes = λ k j c lo hi load lt e free first. elim (ℕ_discrete k i) [
      | yes same ↦ absurd (
          let load_i : IsLoad i = rw same at load in
          let yes_load : ((header i).p_type == pt_load) ≡ true = (==_iff _ _).1 load_i in cc)
      | no ne ↦
          rest.bytes k j c (omega arith) (omega arith) load lt e free
            (λ k' lo' hi'. first k' (omega arith) hi')
    ];
    uncovered = λ v free out. rest.uncovered v free (λ k lo hi. out k (omega arith) (omega arith));
    takes =
        rw other (Takes-trans 0 (budget left (i + 1)) _ (omega arith) (Takes-refl s.vm) rest.takes);
  }
