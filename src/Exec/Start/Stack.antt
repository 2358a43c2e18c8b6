-- ===== src/Exec/Start/Stack.antt =====
-- kernel/proc.c, `exec`: the stack of the program.
use franklin.Base.{ℕ, ◌*◌, ◌≡◌, refl, true, arith, [], some, Run, ok, fault, pos, ℤ}
use franklin.Base.Bits.{bit}
use franklin.Pmm.{Pmm, page_size, palloc}
use franklin.Pmm.Scan.{Fits}
use franklin.Pmm.Alloc.{MarksRun, Alloc, got, none_free, palloc-Alloc}
use franklin.Vmm.{Vm, mappages}
use franklin.Vmm.Tree.{Label, IsTree}
use franklin.Vmm.Series.{Takes-trans}
use franklin.Vmm.Range.{Ranged, all_mapped, too_few, mappages-Ranged}
use franklin.Exec.Load.{Machine, Phdr, segment_flags, alloc_pages, map_pages}
use franklin.Exec.Load.Outcome.{IsSegment, Starved, SegmentLoaded, IsTree-pages, alloc-Takes}
use franklin.Exec.Load.Segment.{Starved-Takes, Starved-none, Starved-Scarce}
use franklin.Exec.Start.{stack_bytes, stackva, place_stack}

-- The stack as a segment that has no bytes in a file.
abbrev pub stack_segment : Phdr
stack_segment = record {
  p_type = 1;
  p_flags = 3;
  p_offset = 0;
  p_vaddr = stackva;
  p_filesz = 0;
  p_memsz = stack_bytes;
}

pub stack-IsSegment : IsSegment [] stack_segment
stack-IsSegment = record {
  in_file = omega arith;
  sizes = omega arith;
  bounded = omega arith;
  aligned = refl;
  low = omega arith;
}

-- How `place_stack` ends.
pub data Placed {F : Type 0} (top : ℕ) (s : Machine F) : Run (ℕ × Machine F) → Type 0 where
  placed :
      {vm : Vm} (at : ℕ → Label)
      → IsTree vm at
      → at top ≡ some (3, 0)
      → (l : SegmentLoaded [] stack_segment top s (record s { vm = vm }))
      → Placed top s (ok (l.page * page_size, record s { vm = vm }))
  no_stack : Starved s.vm 257 → Placed top s fault

module _ {F : Type 0} (top : ℕ) (s : Machine F) where
  no_pages : palloc 64 s.vm.pages ≡ fault → place_stack top s ≡ fault
  unfolding place_stack alloc_pages
  no_pages e = rw e refl

  module _ (p : ℕ) (pages : Pmm) (e : palloc 64 s.vm.pages ≡ ok (p * page_size, pages)) where
    abbrev taken : Vm
    taken = record (s.vm) { pages = pages }

    abbrev mapping : Run (ℤ × Vm)
    mapping = mappages top stackva (p * page_size) stack_bytes 7 taken

    no_tables : mapping ≡ fault → place_stack top s ≡ fault
    unfolding place_stack alloc_pages map_pages
    no_tables e' = rw e (rw e' refl)

    all_done :
        (vm : Vm)
        → mapping ≡ ok (pos 0, vm)
        → place_stack top s ≡ ok (p * page_size, record s { vm = vm })
    unfolding place_stack alloc_pages map_pages
    all_done vm e' = rw e (rw e' refl)

    Ranged-Placed :
        Fits s.vm.pages.bitmap 64 p
        → MarksRun s.vm.pages.bitmap p 64 true pages.bitmap
        → {r : Run (ℤ × Vm)} → Ranged taken top 64 stackva (p * page_size) 7 r
        → mapping ≡ r
        → Placed top s (place_stack top s)
    unfolding segment_flags
    Ranged-Placed fits marks (too_few few) e' = rw (no_tables e') (
        no_stack (
          Starved-Takes 64 193 257 (omega arith) (alloc-Takes s.vm pages p 64 marks)
            (Starved-Scarce taken 192 193 (omega arith) (omega arith) few)))
    Ranged-Placed fits marks (all_mapped {t} at tree root same takes) e' = rw (all_done t e') (
        placed at tree root (record {
          page = p;
          free = fits;
          in_use = λ q lo hi. takes.keeps q (ground (arith, marks.bits q));
          entries = same;
          outside = λ b out. refl;
          bytes = λ j c lt got_byte. absurd (omega arith);
          takes = Takes-trans 64 192 257 (omega arith) (alloc-Takes s.vm pages p 64 marks) takes;
        }))

  after_palloc :
      (at : ℕ → Label)
      → IsTree s.vm at
      → at top ≡ some (3, 0)
      → {r : Run (ℕ × Pmm)} → Alloc 64 s.vm.pages r
      → palloc 64 s.vm.pages ≡ r
      → Placed top s (place_stack top s)
  unfolding bit
  after_palloc at tree root (none_free taken_all) e =
      rw (no_pages e) (no_stack (Starved-none s.vm 64 257 (omega arith) taken_all))
  after_palloc at tree root (got {p} {t} f marks same) e =
      Ranged-Placed p t e f.fits marks
        (mappages-Ranged (taken p t e) top stackva (p * page_size) stack_bytes 7 at refl
          (omega arith) (IsTree-pages t p 64 marks tree) root)
        refl

  pub place_stack-Placed :
      (at : ℕ → Label) → IsTree s.vm at → at top ≡ some (3, 0) → Placed top s (place_stack top s)
  place_stack-Placed at tree root = after_palloc at tree root (palloc-Alloc 64 s.vm.pages) refl
