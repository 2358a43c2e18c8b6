-- ===== src/Smp/Tests.antt =====
-- kernel/proc.c: two processors that have started, the first of which has switched to slot 2.
use franklin.Base.{ℕ, ◌<◌, ◌≡◌, ◌≢◌, refl, arith, ◌==◌, if◌then◌else◌, true}
use franklin.Proc.{Procstate}
use franklin.Spin.{update}
use franklin.Spin
use franklin.Smp.{Cpu, System, Move, Step, Steps, init}
use franklin.Smp.Refines.{lock_of, Steps-lock}
use franklin.Smp.Safety.{separate_stacks}

abbrev ids : ℕ → ℕ
ids p = p

abbrev table : ℕ → Procstate
table p = if p == 2 then Procstate.runnable else Procstate.unused

record Reached : Type 0 where
  last : System
  run : Steps ids 2 (init table) last

abbrev step :
    (r : Reached) (i : ℕ) {lock : ℕ} {states : ℕ → Procstate} {c : Cpu}
    → i < 2
    → Move ids i r.last (r.last.cpu i) lock states c
    → Reached
step r i lt m = record { last = _; run = Steps.next r.run (Step.move i lt m) }

abbrev nobody : Reached
nobody = record { last = init table; run = Steps.here }

abbrev booted0 : Reached
booted0 =
    let a = step nobody 0 (omega arith) (Move.boot refl) in
    let b = step a 0 (omega arith) (Move.start_take refl refl) in
    let c = step b 0 (omega arith) (Move.start_set refl) in
    let d = step c 0 (omega arith) (Move.start_run refl) in
    let e = step d 0 (omega arith) (Move.start_switch refl) in
    step e 0 (omega arith) (Move.free refl)

abbrev booted1 : Reached
booted1 =
    let a = step booted0 1 (omega arith) (Move.boot refl) in
    let b = step a 1 (omega arith) (Move.start_take refl refl) in
    let c = step b 1 (omega arith) (Move.start_set refl) in
    let d = step c 1 (omega arith) (Move.start_run refl) in
    let e = step d 1 (omega arith) (Move.start_switch refl) in
    step e 1 (omega arith) (Move.free refl)

abbrev switched : Reached
switched =
    let a = step booted1 0 (omega arith) (Move.tick refl) in
    let b = step a 0 (omega arith) (Move.timer_take refl refl) in
    let c = step b 0 (omega arith) (Move.yield refl) in
    let d = step c 0 (omega arith) (Move.find 2 (omega arith) refl refl) in
    let e = step d 0 (omega arith) (Move.set_current 2 refl) in
    let f = step e 0 (omega arith) (Move.set_running refl) in
    step f 0 (omega arith) (Move.switch refl (omega arith))

switched_on : (switched.last.cpu 0).on ≡ 2
switched_on = refl

separate_stacks_example :
    ((switched.last.cpu 0).on ≢ (switched.last.cpu 1).on)
    × ((switched.last.cpu 0).current ≢ (switched.last.cpu 1).current)
separate_stacks_example =
    separate_stacks ids (λ p. true) 2 table (λ i lt. refl) (λ p q a b e. e) (λ i lt. ground arith)
      (λ p ne. refl) switched.last switched.run 0 1 (omega arith) (omega arith) (omega arith) refl
      refl

Steps-lock_example : Spin.Steps 2 (lock_of (init table)) (lock_of switched.last)
Steps-lock_example = Steps-lock ids 2 (init table) switched.last switched.run
