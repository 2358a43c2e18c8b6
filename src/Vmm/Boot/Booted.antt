-- ===== src/Vmm/Boot/Booted.antt =====
-- kernel/vmm.c, `init_vm`: the map that it leaves.
use franklin.Base.{
  ℕ, ◌+◌, ◌-◌, ◌*◌, ◌^◌, ◌≤◌, ◌≡◌, refl, ◌∙◌, arith, ap, Option, none, some, Run, ok, fault,
  and_then,
}
use franklin.Base.Bits.{bit}
use franklin.Bitmap.Laws.{pages_of}
use franklin.Pmm.{Pmm, page_size, palloc}
use franklin.Pmm.Alloc.{Alloc, got, none_free, palloc-Alloc}
use franklin.Vmm.{Vm}
use franklin.Vmm.Tree.{Label, IsTree, page_at}
use franklin.Vmm.View.{view}
use franklin.Vmm.Refines.{Takes}
use franklin.Vmm.Series.{
  or_else, Adds, done, short, Scarce, Scarce-Takes, Takes-trans, Adds-then, Adds-weaken,
}
use franklin.Vmm.Boot.{
  Kernel, pte_nx, align_up_page, align_down_page, map_segment, map_lower, make_levels, map_kernel,
  init_vm,
}
use franklin.Vmm.Boot.Blank.{
  blank, alone, blank-IsTree, blank-view, blank-Takes, alone-top, blank-start, blank-fault,
}
use franklin.Vmm.Boot.Laws.{
  full-Scarce, make_levels-Adds, segment_pages, segment_map, Placed, segment-Adds, lower_map,
  lower-Adds,
}

-- The entries that the kernel gives itself: the first that is there counts.
abbrev pub kernel_map : Kernel → ℕ → Option ℕ
kernel_map k v = or_else (segment_map k k.text_start k.text_end 5 v) (
    or_else (segment_map k k.rodata_start k.rodata_end (pte_nx + 5) v)
      (or_else (segment_map k k.data_start k.data_end (pte_nx + 7) v) (lower_map (2 ^ 19 - 1) v)))

-- The pages that the tables can need.
abbrev pub kernel_pages : Kernel → ℕ
kernel_pages k =
    257
    + 3 * segment_pages k.text_start k.text_end
    + 3 * segment_pages k.rodata_start k.rodata_end
    + 3 * segment_pages k.data_start k.data_end
    + 6 * (2 ^ 19 - 1)

-- How `init_vm` ends.
pub data Booted (s : Vm) (k : Kernel) : Run (ℕ × Vm) → Type 0 where
  booted :
      {top : ℕ} {t : Vm} (at : ℕ → Label)
      → IsTree t at
      → at top ≡ some (3, 0)
      → ((v : ℕ) → view t.mem 3 top v ≡ kernel_map k v)
      → Takes s t (kernel_pages k)
      → Booted s k (ok (top, t))
  no_room : Scarce s (kernel_pages k) → Booted s k fault

pub record KernelPlaced (k : Kernel) : Type 0 where
  pub text : Placed k.text_start k.text_end
  pub rodata : Placed k.rodata_start k.rodata_end
  pub data_pages : Placed k.data_start k.data_end

module _ (k : Kernel) (place : KernelPlaced k) where
  -- The calls, with `n` pages in each half of the last loop.
  calls-Adds :
      (n rounds top : ℕ) (s : Vm) (at : ℕ → Label)
      → page_size + n * page_size ≡ 0x80000000
      → 2 ^ 52 ≤ rounds
      → IsTree s at
      → at top ≡ some (3, 0)
      → Adds s top
          (256
            + (3 * segment_pages k.text_start k.text_end
                + (3 * segment_pages k.rodata_start k.rodata_end
                    + (3 * segment_pages k.data_start k.data_end + 6 * n))))
          (λ v. or_else none (
            or_else (segment_map k k.text_start k.text_end 5 v) (
              or_else
                (segment_map k k.rodata_start k.rodata_end (pte_nx + 5) v)
                (or_else (segment_map k k.data_start k.data_end (pte_nx + 7) v) (lower_map n v)))))
          (and_then (make_levels 256 256 top s) (λ p.
            and_then
              (map_segment rounds
                (align_down_page k.text_start)
                (align_up_page k.text_end)
                k
                5
                top
                p.1)
              (λ p.
                and_then
                  (map_segment rounds
                    (align_down_page k.rodata_start)
                    (align_up_page k.rodata_end)
                    k
                    (pte_nx + 5)
                    top
                    p.1)
                  (λ p.
                    and_then
                      (map_segment rounds
                        (align_down_page k.data_start)
                        (align_up_page k.data_end)
                        k
                        (pte_nx + 7)
                        top
                        p.1)
                      (λ p. map_lower rounds page_size top p.1)))))
  unfolding bit
  calls-Adds n rounds top s at e enough tree root =
      Adds-then _ _ _ _ _ (make_levels-Adds 256 256 top s at (omega arith) tree root)
        (λ _ s1 at1 tree1 root1.
          Adds-then _ _ _ _ _
            (segment-Adds rounds k.text_start k.text_end 5 top k s1 at1 place.text enough refl tree1
              root1)
            (λ _ s2 at2 tree2 root2.
              Adds-then _ _ _ _ _
                (segment-Adds rounds k.rodata_start k.rodata_end (pte_nx + 5) top k s2 at2
                  place.rodata enough refl tree2 root2)
                (λ _ s3 at3 tree3 root3.
                  Adds-then _ _ _ _ _
                    (segment-Adds rounds k.data_start k.data_end (pte_nx + 7) top k s3 at3
                      place.data_pages enough refl tree3 root3)
                    (λ _ s4 at4 tree4 root4.
                      lower-Adds n rounds top s4 at4 e (omega arith) tree4 root4))))

  map_kernel-Adds :
      (top : ℕ) (s : Vm) (at : ℕ → Label)
      → IsTree s at
      → at top ≡ some (3, 0)
      → Adds s top (kernel_pages k - 1) (kernel_map k) (map_kernel k top s)
  unfolding map_kernel
  map_kernel-Adds top s at tree root =
      Adds-weaken _ (kernel_pages k - 1) _ (kernel_map k) (omega arith) (λ v. refl)
        (calls-Adds (2 ^ 19 - 1) (2 ^ 52) top s at (omega arith) (omega arith) tree root)

  after-Adds :
      (s : Vm) {top : ℕ} {u : Vm} {r : Run (Unit {0} × Vm)}
      → ((v : ℕ) → view u.mem 3 top v ≡ none)
      → Takes s u 1
      → Adds u top (kernel_pages k - 1) (kernel_map k) r
      → Booted s k (and_then r (λ p. ok (top, p.1)))
  after-Adds s blank_there takes (short few) =
      no_room (Scarce-Takes 1 (kernel_pages k - 1) (kernel_pages k) (omega arith) takes few)
  after-Adds s blank_there takes (done at tree root same takes') =
      booted at tree root (λ v. same v ∙ ap (λ x. or_else x (kernel_map k v)) (blank_there v))
        (Takes-trans 1 (kernel_pages k - 1) (kernel_pages k) (omega arith) takes takes')

  module _ (s : Vm) (small : pages_of s.pages.bitmap ≤ 2 ^ 35) where
    after_palloc :
        {r : Run (ℕ × Pmm)} → Alloc 1 s.pages r → palloc 1 s.pages ≡ r → Booted s k (init_vm k s)
    unfolding init_vm
    after_palloc (none_free taken) e =
        rw (blank-fault s (map_kernel k) e) (no_room (full-Scarce s (kernel_pages k) taken))
    after_palloc (got {p} {t} f marks same) e =
        rw (blank-start s small p t f.fits marks (map_kernel k) e) (
          after-Adds s (blank-view s small p t f.fits marks) (blank-Takes s small p t f.fits marks)
            (map_kernel-Adds (page_at p) (blank s small p t f.fits marks)
              (alone s small p t f.fits marks) (blank-IsTree s small p t f.fits marks)
              (alone-top s small p t f.fits marks)))

-- `init_vm`, wherever the kernel is.
pub init_vm-Booted :
    (k : Kernel) (s : Vm)
    → KernelPlaced k
    → pages_of s.pages.bitmap ≤ 2 ^ 35
    → Booted s k (init_vm k s)
init_vm-Booted k s place small = after_palloc k place s small (palloc-Alloc 1 s.pages) refl
