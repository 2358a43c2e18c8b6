-- ===== src/Timer/Tests.antt =====
-- kernel/time.c and kernel/apic.c: the rate that the kernel asks for, and two processors.
use franklin.Base.{ℕ, ◌+◌, ◌*◌, ◌^◌, ◌≤◌, ◌<◌, ◌≡◌, arith, refl, ◌-◌, false, List, [], ◌∷◌, ok}
use franklin.Ports.{wrote}
use franklin.Timer.{init_pit}
use franklin.Timer.Lapic.{Apic, start_all}
use franklin.Timer.Lapic.Programmed.{AllProgrammed, start_all-AllProgrammed}
use franklin.Timer.Rate.{init_pit_count}

init_pit_count_example :
    (low high : ℕ) × (init_pit 1000 []
      ≡ ok (tt, wrote 0x40 high ∷ wrote 0x40 low ∷ wrote 0x43 0x34 ∷ []))
    × (low < 2 ^ 8)
    × (high < 2 ^ 8)
    × (1 ≤ low + 2 ^ 8 * high)
    × ((low + 2 ^ 8 * high) * 1000 ≤ 1193180)
    × (1193180 < (low + 2 ^ 8 * high + 1) * 1000)
init_pit_count_example = init_pit_count 1000 [] (omega arith) (omega arith)

abbrev unset : Apic
unset = record {
  regs = λ _. 0;
  spinlock = false;
  pit_counter = 0;
  ports = [];
  ticks = 0;
  configured = false;
  eoi = 0;
}

-- The local timer counts down by 1000 in the wait.
start_all-AllProgrammed_example :
    (t : List (ℕ → ℕ) × Apic) × (start_all 1 2 (2 ^ 32 - 1001) ((λ _. 0) ∷ (λ _. 7) ∷ []) unset
      ≡ ok t)
    × AllProgrammed 1 100000 t.0
    × (t.1.spinlock ≡ false)
start_all-AllProgrammed_example =
    start_all-AllProgrammed 1 1 (2 ^ 32 - 1001) ((λ _. 0) ∷ (λ _. 7) ∷ []) unset refl
