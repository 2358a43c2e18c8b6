-- ===== src/Vmm/Boot/Sections.antt =====
-- kernel/vmm.c, `init_vm`: the loops are series of calls.
use franklin.Base.{ℕ, zero, suc, ◌+◌, ◌*◌, ◌%◌, ◌^◌, ◌≤◌, ◌<◌, ◌≡◌, refl, false, true, arith, ltb}
use franklin.Base.Commands.{and_then_same}
use franklin.Pmm.{page_size}
use franklin.Vmm.{Vm}
use franklin.Vmm.Series.{map_each}
use franklin.Vmm.Range.{range}
use franklin.Vmm.Boot.{Kernel, physical, map_segment}

-- The calls of `mappage2` for a segment of `n` pages.
pub map_segment-map_each :
    (n rounds i start end_addr flags top : ℕ) (k : Kernel) (s : Vm)
    → n ≤ rounds
    → start + (i + n) * page_size ≡ end_addr
    → end_addr < 2 ^ 64
    → map_segment rounds (start + i * page_size) end_addr k flags top s
      ≡ map_each top (range n i start (physical k start) flags) s
unfolding map_segment map_each
map_segment-map_each zero zero i start end_addr flags top k s le e lt =
    let stop : ltb (start + i * page_size) end_addr ≡ false = ground arith in rw stop refl
map_segment-map_each zero (suc rounds) i start end_addr flags top k s le e lt =
    let stop : ltb (start + i * page_size) end_addr ≡ false = ground arith in rw stop refl
map_segment-map_each (suc n) zero i start end_addr flags top k s le e lt = absurd (omega arith)
map_segment-map_each (suc n) (suc rounds) i start end_addr flags top k s le e lt =
    let more : ltb (start + i * page_size) end_addr ≡ true = ground arith in
    let v : (start + i * page_size) % 2 ^ 64 ≡ start + i * page_size = omega arith in
    let p : (physical k start + i * page_size) % 2 ^ 64 ≡ physical k (start + i * page_size) =
      omega arith in
    let next : (start + i * page_size + page_size) % 2 ^ 64 ≡ start + (i + 1) * page_size =
      omega arith in
    rw (more, v, p, next)
      (and_then_same _ _ _ (λ q.
        map_segment-map_each n rounds (i + 1) start end_addr flags top k q.1 (omega arith)
          (omega arith) lt))
