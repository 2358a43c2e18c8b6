-- ===== src/Exec/Load/Loop.antt =====
-- kernel/proc.c, `loadelf`: the loop over the program headers.
use franklin.Base.{
  ℕ, zero, suc, ◌+◌, ◌*◌, ◌%◌, ◌^◌, ◌≤◌, ◌<◌, ◌≡◌, refl, inl, inr, true, false, arith, ◌==◌,
  if◌then◌else◌, length, drop, some, Run, ok, Bool-cases, and_then, length-take, length-drop,
  ==_iff,
}
use mathlib.Core.Path.{subst}
use franklin.Text.{Buffer}
use franklin.Bitmap.Laws.{pages_of}
use franklin.Vmm.Tree.{Label, IsTree}
use franklin.Vmm.Series.{Takes-refl}
use franklin.Exec.Args.{Auxval}
use franklin.Exec.Load.{
  Machine, Files, phdr_size, pt_load, pt_phdr, page_count, read_struct, load_segment, on_header,
  load_segments,
}
use franklin.Exec.Load.Outcome.{FileAt, IsSegment, SegmentLoaded, LoadsSegment, loaded, starved}
use franklin.Exec.Load.Segment.{load_segment-Loads, Starved-Takes}
use franklin.Exec.Load.Program.{
  header_bytes, header, IsLoad, budget, phdr_aux, LoadsHeaders, headers_loaded, headers_starved,
  HeadersLoaded-refl, segment-HeadersLoaded, other-HeadersLoaded,
}

module _ (content : Buffer) (phoff : ℕ) where
  module _ {F : Type 0} (calls : Files F) (vn : ℕ) (I : F → Type 0)
      (file : FileAt calls vn content I) (top n : ℕ)
      (segments : (i : ℕ)
        → i < n
        → IsLoad content phoff i
        → IsSegment content (header content phoff i)) where
    read_header :
        (i : ℕ) (phdr : Buffer) (s : Machine F) (f' : F)
        → calls.read_file vn phdr ((phoff + i * phdr_size) % 2 ^ 64) phdr_size s.files
          ≡ ok (header_bytes content phoff i, f')
        → read_struct calls vn phdr ((phoff + i * phdr_size) % 2 ^ 64) phdr_size s
          ≡ ok (header_bytes content phoff i, record s { files = f' })
    unfolding read_struct
    read_header i phdr s f' e = rw e refl

    on_load :
        (i : ℕ) (aux : Auxval) (s : Machine F)
        → ((header content phoff i).p_type == pt_load) ≡ true
        → on_header calls top vn (header content phoff i) aux s
          ≡ and_then (load_segment calls top vn (header content phoff i) s) (λ r. ok (aux, r.1))
    unfolding on_header
    on_load i aux s e = rw e refl

    on_other :
        (i : ℕ) (aux : Auxval) (s : Machine F)
        → ((header content phoff i).p_type == pt_load) ≡ false
        → on_header calls top vn (header content phoff i) aux s
          ≡ ok (
            if (header content phoff i).p_type == pt_phdr
                then record aux { at_phdr = (header content phoff i).p_vaddr }
                else aux,
            s,
          )
    unfolding on_header
    on_other i aux s e = rw e (elim (Bool-cases ((header content phoff i).p_type == pt_phdr)) [
      | inl p ↦ rw p refl
      | inr p ↦ rw p refl
    ])

    -- The rest of the loop behind a header content phoff.
    abbrev Rest : (left i : ℕ) → (Auxval → Machine F → Run (Auxval × Machine F)) → Type 0
    Rest left i k =
        (aux : Auxval) (t : Machine F) (at : ℕ → Label)
        → IsTree t.vm at
        → at top ≡ some (3, 0)
        → I t.files
        → LoadsHeaders content phoff I left i top aux t (k aux t)

    behind-segment :
        (left i : ℕ) (aux : Auxval) (s t : Machine F) {r : Run (Auxval × Machine F)}
        → i < n
        → IsLoad content phoff i
        → pages_of s.vm.pages.bitmap ≤ 2 ^ 35
        → SegmentLoaded content (header content phoff i) top s t
        → LoadsHeaders content phoff I left (i + 1) top aux t r
        → LoadsHeaders content phoff I (suc left) i top aux s r
    behind-segment left i aux s t lt load small l (headers_starved few) =
        let is_load : ((header content phoff i).p_type == pt_load) ≡ true = (==_iff _ _).1 load in
        headers_starved (
          rw is_load (
            Starved-Takes (4 * page_count (header content phoff i) + 1)
              (budget content phoff left (i + 1)) _ (omega arith) l.takes few))
    behind-segment left i aux s t lt load small l (headers_loaded {t = u} at tree root inv rest) =
        let no_phdr : ((header content phoff i).p_type == pt_phdr) ≡ false = ground (arith, load) in
        let same : (if (header content phoff i).p_type == pt_phdr
              then record aux { at_phdr = (header content phoff i).p_vaddr }
              else aux)
            ≡ aux =
          rw no_phdr refl in
        subst
          (λ (a : Auxval).
            LoadsHeaders content phoff I (suc left) i top aux s
              (ok (phdr_aux content phoff left (i + 1) a, u)))
          same
          (headers_loaded at tree root inv (
            segment-HeadersLoaded content phoff left i top s t u load (segments i lt load) small l
              rest))

    after-segment :
        (left i : ℕ) (aux : Auxval) (s : Machine F) {r : Run (Unit {0} × Machine F)}
        (k : Auxval → Machine F → Run (Auxval × Machine F))
        → i < n
        → IsLoad content phoff i
        → pages_of s.vm.pages.bitmap ≤ 2 ^ 35
        → LoadsSegment I content (header content phoff i) top s r
        → Rest left (i + 1) k
        → LoadsHeaders content phoff I
            (suc left)
            i
            top
            aux
            s
            (and_then {A = Auxval × Machine F} (and_then r (λ p. ok (aux, p.1))) (λ p. k p.0 p.1))
    after-segment left i aux s k lt load small (starved few) next =
        let is_load : ((header content phoff i).p_type == pt_load) ≡ true = (==_iff _ _).1 load in
        headers_starved (
          rw is_load (
            Starved-Takes 0 (4 * page_count (header content phoff i) + 1) _ (omega arith)
              (Takes-refl s.vm) few))
    after-segment left i aux s k lt load small (loaded {t} at tree root inv l) next =
        behind-segment left i aux s t lt load small l (next aux t at tree root inv)

    behind-other :
        (left i : ℕ) (aux : Auxval) (s : Machine F) {r : Run (Auxval × Machine F)}
        → ((header content phoff i).p_type == pt_load) ≡ false
        → LoadsHeaders content phoff I left
            (i + 1)
            top
            (if (header content phoff i).p_type == pt_phdr
              then record aux { at_phdr = (header content phoff i).p_vaddr }
              else aux)
            s
            r
        → LoadsHeaders content phoff I (suc left) i top aux s r
    behind-other left i aux s other (headers_starved few) = headers_starved (
        rw other (
          Starved-Takes 0 (budget content phoff left (i + 1)) _ (omega arith) (Takes-refl s.vm)
            few))
    behind-other left i aux s other (headers_loaded {t = u} at tree root inv rest) =
        headers_loaded at tree root inv
          (other-HeadersLoaded content phoff left i top s u other rest)

    on_header-Loads :
        (left i : ℕ) (aux : Auxval) (s : Machine F) (at : ℕ → Label)
        (k : Auxval → Machine F → Run (Auxval × Machine F))
        → i < n
        → IsTree s.vm at
        → at top ≡ some (3, 0)
        → I s.files
        → Rest left (i + 1) k
        → LoadsHeaders content phoff I
            (suc left)
            i
            top
            aux
            s
            (and_then (on_header calls top vn (header content phoff i) aux s) (λ p. k p.0 p.1))
    on_header-Loads left i aux s at k lt tree root inv next =
        elim (Bool-cases ((header content phoff i).p_type == pt_load)) [
          | inl is_load ↦
              (let load : IsLoad content phoff i = (==_iff _ _).0 is_load in
                rw (on_load i aux s is_load) (
                  after-segment left i aux s k lt load tree.small
                    (load_segment-Loads calls vn content I file (header content phoff i)
                      (segments i lt load) top s at tree root inv)
                    next))
          | inr other ↦
              rw (on_other i aux s other)
                (behind-other left i aux s other (next _ s at tree root inv))
        ]

    -- The state of the file system is no part of what is said of the program.
    pub with_files :
        (left i : ℕ) (aux : Auxval) (s : Machine F) (f' : F) {r : Run (Auxval × Machine F)}
        → LoadsHeaders content phoff I left i top aux (record s { files = f' }) r
        → LoadsHeaders content phoff I left i top aux s r
    with_files left i aux s f' (headers_starved few) = headers_starved few
    with_files left i aux s f' (headers_loaded at tree root inv l) =
        headers_loaded at tree root inv
          (record { keep = l.keep; bytes = l.bytes; uncovered = l.uncovered; takes = l.takes })

    pub load_segments-Loads :
        (left i : ℕ) (phdr : Buffer) (aux : Auxval) (s : Machine F) (at : ℕ → Label)
        → i + left ≤ n
        → length content < 2 ^ 64
        → phoff + (i + left) * phdr_size ≤ length content
        → length phdr ≡ phdr_size
        → IsTree s.vm at
        → at top ≡ some (3, 0)
        → I s.files
        → LoadsHeaders content phoff I left i top aux s
            (load_segments calls left i top vn phoff phdr aux s)
    unfolding load_segments
    load_segments-Loads zero i phdr aux s at le small inside size tree root inv =
        headers_loaded at tree root inv (HeadersLoaded-refl content phoff i top s)
    load_segments-Loads (suc left) i phdr aux s at le small inside size tree root inv =
        let (f', e, inv') =
          file.reads s.files inv phdr ((phoff + i * phdr_size) % 2 ^ 64) phdr_size (omega arith)
            size in
        let full : length (header_bytes content phoff i) ≡ phdr_size = omega (
          arith,
          length-take phdr_size (drop ((phoff + i * phdr_size) % 2 ^ 64) content),
          length-drop ((phoff + i * phdr_size) % 2 ^ 64) content,
        ) in
        with_files (suc left) i aux s f' (
          rw (read_header i phdr s f' e) (
            on_header-Loads left i aux (record s { files = f' }) at
              (load_segments calls left (i + 1) top vn phoff (header_bytes content phoff i))
              (omega arith) tree root inv'
              (λ aux' t at' tree' root' inv''.
                load_segments-Loads left (i + 1) (header_bytes content phoff i) aux' t at'
                  (omega arith) small (omega arith) full tree' root' inv'')))
