-- ===== src/Spin/Tests.antt =====
-- kernel/spinlock.c: two processors at one lock.
use franklin.Base.{◌⊎◌, ℕ, ◌≡◌, refl, arith, true, false}
use franklin.Spin.{Stand, is_inside, Move, System, update, Step, init, Steps}
use franklin.Spin.Safety.{mutual_exclusion, can_enter}

-- Processor 0 is inside, processor 1 spins.
abbrev contended : System
contended = record {
  word = 1;
  stand =
      update
        (update
          (update (update (update (λ _. Stand.outside) 0 Stand.spinning) 0 Stand.inside) 1
            Stand.spinning)
          1 Stand.spinning)
        0 Stand.inside;
}

contended_reached : Steps 2 init contended
contended_reached =
    Steps.next
      (Steps.next
        (Steps.next
          (Steps.next (Steps.next Steps.here (Step.move 0 (omega arith) Move.call))
            (Step.move 0 (omega arith) (Move.take refl)))
          (Step.move 1 (omega arith) Move.call))
        (Step.move 1 (omega arith) (Move.wait (omega arith))))
      (Step.move 0 (omega arith) Move.elsewhere)

mutual_exclusion_example :
    ((i j : ℕ)
      → is_inside (contended.stand i) ≡ true
      → is_inside (contended.stand j) ≡ true
      → i ≡ j)
    × (contended.word ≡ 0 → (i : ℕ) → is_inside (contended.stand i) ≡ false)
mutual_exclusion_example = mutual_exclusion 2 contended contended_reached

can_enter_example :
    ((contended.word ≡ 0)
      × Step 2 contended (record { word = 1; stand = update contended.stand 1 Stand.inside }))
    ⊎ ((j : ℕ) × (contended.stand j ≡ Stand.inside)
        × Step 2 contended (record { word = 0; stand = update contended.stand j Stand.outside })
        × Step 2
            (record { word = 0; stand = update contended.stand j Stand.outside })
            (record {
              word = 1;
              stand = update (update contended.stand j Stand.outside) 1 Stand.inside;
            }))
can_enter_example = can_enter 2 contended 1 contended_reached (omega arith) refl
