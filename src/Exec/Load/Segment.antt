-- ===== src/Exec/Load/Segment.antt =====
-- kernel/proc.c, `loadelf`: the case `PT_LOAD`.
use franklin.Base.{
  ℕ, ◌+◌, ◌*◌, ◌/◌, ◌≤◌, ◌<◌, ◌≡◌, refl, ◌∙◌, inl, inr, true, false, arith, ltb, [], ◌++◌, length,
  length-append, take, drop, get_elem?, some, Run, ok, fault, pos, ℤ, Bool-cases, length-take,
  length-drop,
}
use mathlib.Core.Path.{subst}
use franklin.Text.{Buffer}
use franklin.Bitmap.Laws.{used}
use franklin.Pmm.{Pmm, page_size, palloc}
use franklin.Pmm.Scan.{Fits}
use franklin.Pmm.Alloc.{MarksRun, Alloc, got, none_free, palloc-Alloc}
use franklin.Vmm.{Vm, mappages}
use franklin.Vmm.Tree.{Label, IsTree, page_at}
use franklin.Vmm.Refines.{Takes}
use franklin.Vmm.Series.{Scarce, Takes-trans, IsIn-left, IsIn-right}
use franklin.Vmm.Range.{Ranged, all_mapped, too_few, mappages-Ranged}
use franklin.Gdt.Tss.{put_bytes-outside, put_bytes-get}
use franklin.Gdt.{put_bytes}
use franklin.Exec.Load.{
  Machine, Files, Phdr, get_bytes, page_count, segment_flags, alloc_pages, map_pages, read_pages,
  load_segment,
}
use franklin.Exec.Load.Flags.{segment_flags-present}
use franklin.Exec.Load.Outcome.{
  FileAt, IsSegment, Starved, LoadsSegment, loaded, starved, get_elem?-take, get_elem?-drop,
  length-get_bytes, IsTree-pages, alloc-Takes,
}

-- Pages that are taken already stay out of reach.
pub Starved-Takes : {s t : Vm} (m n k : ℕ) → m + n ≤ k → Takes s t m → Starved t n → Starved s k
Starved-Takes {s} {t} m n k le a b =
    let (xs, few, old) = a.pages in
    let (l, ys, small, few', none) = b.run in
    record {
      run = (
        l,
        xs ++ ys,
        omega arith,
        omega (arith, length-append xs ys),
        λ q fits avoid.
            none q
              (record {
                inside = omega (arith, fits.inside, a.size);
                free = λ i lo hi. elim (Bool-cases (used t.pages.bitmap i)) [
                  | inr f ↦ f
                  | inl u ↦ elim (old i u) [
                    | inl o ↦ (let f = fits.free i lo hi in absurd (cc))
                    | inr x ↦ absurd (avoid i lo hi (IsIn-left i xs ys x))
                  ]
                ];
              })
              (λ i lo hi x. avoid i lo hi (IsIn-right i xs ys x)),
      );
    }

pub Starved-none : (s : Vm) (k n : ℕ) → k ≤ n → ((q : ℕ) → ¬ Fits s.pages.bitmap k q) → Starved s n
Starved-none s k n le none = record { run = (k, [], le, omega arith, λ q fits avoid. none q fits) }

pub Starved-Scarce : (s : Vm) (n m : ℕ) → n ≤ m → 1 ≤ m → Scarce s n → Starved s m
Starved-Scarce s n m le one few =
    let (xs, small, all) = few.pages in
    record {
      run = (
        1,
        xs,
        one,
        omega arith,
        λ q fits avoid.
            avoid q (omega arith) (omega arith)
              (all q (omega (arith, fits.inside)) (fits.free q (omega arith) (omega arith))),
      );
    }

module _ {F : Type 0} (calls : Files F) (vn : ℕ) (content : Buffer) (I : F → Type 0)
    (file : FileAt calls vn content I) (h : Phdr) (segment : IsSegment content h) (top : ℕ)
    (s : Machine F) where
  no_pages : palloc (page_count h) s.vm.pages ≡ fault → load_segment calls top vn h s ≡ fault
  unfolding load_segment alloc_pages
  no_pages e = simp e refl

  module _ (p : ℕ) (pages : Pmm)
      (e : palloc (page_count h) s.vm.pages ≡ ok (p * page_size, pages)) where
    abbrev taken : Vm
    taken = record (s.vm) { pages = pages }

    abbrev mapping : Run (ℤ × Vm)
    mapping =
        mappages top h.p_vaddr (p * page_size) (page_count h * page_size) (segment_flags h.p_flags)
          taken

    no_tables : mapping ≡ fault → load_segment calls top vn h s ≡ fault
    unfolding load_segment alloc_pages map_pages
    no_tables e' = rw e (rw e' refl)

    all_read :
        (vm : Vm) (bs : Buffer) (f' : F)
        → mapping ≡ ok (pos 0, vm)
        → calls.read_file vn (get_bytes h.p_filesz (page_at p) s.ram) h.p_offset h.p_filesz s.files
          ≡ ok (bs, f')
        → ltb (page_count h * page_size) h.p_filesz ≡ false
        → load_segment calls top vn h s
          ≡ ok (tt, record { vm = vm; ram = put_bytes (page_at p) bs s.ram; files = f' })
    unfolding load_segment alloc_pages map_pages read_pages
    all_read vm bs f' e' r room = rw e (rw e' (rw (room, r) refl))

    module _ (fits : Fits s.vm.pages.bitmap (page_count h) p)
        (marks : MarksRun s.vm.pages.bitmap p (page_count h) true pages.bitmap) where
      -- The pages have the bytes of the file.
      file_bytes :
          (j c : ℕ)
          → j < h.p_filesz
          → get_elem? content (h.p_offset + j) ≡ some c
          → put_bytes (page_at p) (take h.p_filesz (drop h.p_offset content)) s.ram (page_at p + j)
            ≡ c
      file_bytes j c lt e' =
          put_bytes-get (page_at p) (take h.p_filesz (drop h.p_offset content)) s.ram j c (
            get_elem?-take h.p_filesz j (drop h.p_offset content) lt
            ∙ get_elem?-drop h.p_offset j content
            ∙ e')

      slice-length : length (take h.p_filesz (drop h.p_offset content)) ≡ h.p_filesz
      slice-length = omega (
        arith,
        length-take h.p_filesz (drop h.p_offset content),
        length-drop h.p_offset content,
        segment.in_file,
      )

      all_mapped-Loads :
          (at : ℕ → Label)
          → I s.files
          → {r : Run (ℤ × Vm)}
          → Ranged taken top (page_count h) h.p_vaddr (p * page_size) (segment_flags h.p_flags) r
          → mapping ≡ r
          → LoadsSegment I content h top s (load_segment calls top vn h s)
      all_mapped-Loads at inv (too_few few) e' = rw (no_tables e') (
          starved (
            Starved-Takes (page_count h) (3 * page_count h + 1) _ (omega arith)
              (alloc-Takes s.vm pages p (page_count h) marks)
              (Starved-Scarce taken (3 * page_count h) (3 * page_count h + 1) (omega arith)
                (omega arith) few)))
      all_mapped-Loads at inv (all_mapped {t} at' tree root same takes) e' =
          let (f', r, inv') =
            file.reads s.files inv (get_bytes h.p_filesz (page_at p) s.ram) h.p_offset h.p_filesz
              segment.in_file (length-get_bytes h.p_filesz (page_at p) s.ram) in
          let room : ltb (page_count h * page_size) h.p_filesz ≡ false =
            ground (arith, segment.sizes, segment.bounded) in
          let bs : Buffer = take h.p_filesz (drop h.p_offset content) in
          rw (all_read t bs f' e' r room) (
            loaded at' tree root inv' (record {
              page = p;
              free = fits;
              in_use = λ q lo hi. takes.keeps q (ground (arith, marks.bits q));
              entries = same;
              outside = λ b out.
                  put_bytes-outside (page_at p) bs s.ram b (omega (arith, out, slice-length));
              bytes = file_bytes;
              takes =
                  Takes-trans (page_count h) (3 * page_count h) _ (omega arith)
                    (alloc-Takes s.vm pages p (page_count h) marks) takes;
            }))

  after_palloc :
      (at : ℕ → Label)
      → IsTree s.vm at
      → at top ≡ some (3, 0)
      → I s.files
      → {r : Run (ℕ × Pmm)} → Alloc (page_count h) s.vm.pages r
      → palloc (page_count h) s.vm.pages ≡ r
      → LoadsSegment I content h top s (load_segment calls top vn h s)
  after_palloc at tree root inv (none_free none) e =
      rw (no_pages e) (starved (Starved-none s.vm (page_count h) _ (omega arith) none))
  after_palloc at tree root inv (got {p} {t} f marks same) e =
      let size : page_count h * page_size / page_size ≡ page_count h = omega arith in
      all_mapped-Loads p t e f.fits marks at inv
        (subst
          (λ (n : ℕ).
            Ranged (taken p t e) top n h.p_vaddr (p * page_size) (segment_flags h.p_flags)
              (mapping p t e))
          size
          (mappages-Ranged (taken p t e) top h.p_vaddr (p * page_size) (page_count h * page_size)
            (segment_flags h.p_flags) at (segment_flags-present h.p_flags)
            (omega (arith, segment.low)) (IsTree-pages t p (page_count h) marks tree) root))
        refl

  pub load_segment-Loads :
      (at : ℕ → Label)
      → IsTree s.vm at
      → at top ≡ some (3, 0)
      → I s.files
      → LoadsSegment I content h top s (load_segment calls top vn h s)
  load_segment-Loads at tree root inv =
      after_palloc at tree root inv (palloc-Alloc (page_count h) s.vm.pages) refl
