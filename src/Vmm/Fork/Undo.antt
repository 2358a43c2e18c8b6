-- ===== src/Vmm/Fork/Undo.antt =====
-- kernel/vmm.c, `destroyvm` of what `newvm_map` has made.
use franklin.Base.{ℕ, ◌<◌, ◌≡◌, Run, ok, fault, length}
use franklin.Bitmap.Laws.{used, pages_of}
use franklin.Pmm.{Pmm}
use franklin.Pmm.Scan.{Fits}
use franklin.Pmm.Alloc.{Alloc}
use franklin.Vmm.{Vm}

-- How the two calls end: the pages are used and free as before, or there was no page.
pub data Undone (s : Vm) : Run (Unit {0} × Vm) → Type 0 where
  undone :
      {t : Vm}
      → length t.pages.bitmap ≡ length s.pages.bitmap
      → ((q : ℕ) → q < pages_of s.pages.bitmap → used t.pages.bitmap q ≡ used s.pages.bitmap q)
      → Undone s (ok (tt, t))
  no_page : ((q : ℕ) → ¬ Fits s.pages.bitmap 1 q) → Undone s fault
