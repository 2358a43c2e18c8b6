-- ===== src/Smp/Table.antt =====
-- kernel/proc.c: which slots of the process table a processor has to do with, and their states.
use franklin.Base.{ℕ, ◌≡◌, ◌≢◌, ◌⊎◌, inl, refl, Bool, true, false, arith, if◌then◌else◌}
use franklin.Proc.{Procstate}
use franklin.Spin.{Stand, is_inside}
use franklin.Smp.{Pc, Cpu, System, Move}

-- Where a processor stands to the lock.
abbrev pub stand : Pc → Stand
stand Pc.booting = Stand.outside
stand Pc.start_spin = Stand.spinning
stand Pc.runs = Stand.outside
stand Pc.timer_spin = Stand.spinning
stand _ = Stand.inside

-- Before the first switch the processor is on no process's stack.
abbrev pub is_starting : Pc → Bool
is_starting Pc.booting = true
is_starting Pc.start_spin = true
is_starting Pc.start_locked = true
is_starting Pc.start_current = true
is_starting Pc.start_running = true
is_starting _ = false

-- The slots that processor `i` has: that of its stack, and that of its process.
abbrev pub first : ℕ → Cpu → ℕ
first i c = if is_starting c.pc then i else c.on

abbrev pub second : ℕ → Cpu → ℕ
second i c = if is_starting c.pc then i else c.current

-- What the states of these slots are, by where the processor stands.
abbrev pub MineAt : (ℕ → Procstate) → ℕ → ℕ → ℕ → Pc → Type 0
MineAt st i cur on Pc.booting = st i ≡ Procstate.unused
MineAt st i cur on Pc.start_spin = (st i ≡ Procstate.unused) × (cur ≡ i)
MineAt st i cur on Pc.start_locked = (st i ≡ Procstate.unused) × (cur ≡ i)
MineAt st i cur on Pc.start_current = (st i ≡ Procstate.unused) × (cur ≡ i)
MineAt st i cur on Pc.start_running = (st i ≡ Procstate.running) × (cur ≡ i)
MineAt st i cur on Pc.runs = (on ≡ cur) × (st cur ≡ Procstate.running)
MineAt st i cur on Pc.timer_spin = (on ≡ cur) × (st cur ≡ Procstate.running)
MineAt st i cur on Pc.timer_locked = (on ≡ cur) × (st cur ≡ Procstate.running)
MineAt st i cur on Pc.yielded = (on ≡ cur) × (st cur ≡ Procstate.runnable)
MineAt st i cur on (Pc.found p) =
    (on ≡ cur) × (st cur ≡ Procstate.runnable) × (st p ≡ Procstate.runnable)
MineAt st i cur on Pc.switching = (st on ≡ Procstate.runnable) × (st cur ≡ Procstate.runnable)
MineAt st i cur on Pc.running = (st on ≢ Procstate.unused) × (st cur ≡ Procstate.running)
MineAt st i cur on Pc.leaving = (on ≡ cur) × (st cur ≡ Procstate.running)

abbrev pub Mine : (ℕ → Procstate) → ℕ → Cpu → Type 0
Mine st i c = MineAt st i c.current c.on c.pc

-- A step of a processor changes at most the state of its process's slot, and that only under the
-- lock.
pub Move-frame :
    {pid : ℕ → ℕ} {i : ℕ} {s : System} {c : Cpu} {lock : ℕ} {states : ℕ → Procstate} {c' : Cpu}
    → Move pid i s c lock states c'
    → Mine s.states i c
    → (q : ℕ) → (states q ≡ s.states q) ⊎ ((q ≡ second i c) × (is_inside (stand c.pc) ≡ true))
Move-frame (Move.boot e) h q = inl refl
Move-frame (Move.start_wait e l) h q = inl refl
Move-frame (Move.start_take e l) h q = inl refl
Move-frame (Move.start_set e) h q = inl refl
Move-frame (Move.start_run e) h q = ground arith
Move-frame (Move.start_switch e) h q = inl refl
Move-frame (Move.tick e) h q = inl refl
Move-frame (Move.timer_wait e l) h q = inl refl
Move-frame (Move.timer_take e l) h q = inl refl
Move-frame (Move.yield e) h q = ground arith
Move-frame (Move.find p lt e r) h q = inl refl
Move-frame (Move.set_current p e) h q = inl refl
Move-frame (Move.set_running e) h q = ground arith
Move-frame (Move.switch e ne) h q = inl refl
Move-frame (Move.stay e same) h q = inl refl
Move-frame (Move.free e) h q = inl refl

-- `Mine` is kept, where slots in use have different ids.
pub Move-Mine :
    {pid : ℕ → ℕ} {i : ℕ} {s : System} {c : Cpu} {lock : ℕ} {states : ℕ → Procstate} {c' : Cpu}
    → ((p q : ℕ)
        → s.states p ≢ Procstate.unused
        → s.states q ≢ Procstate.unused
        → pid p ≡ pid q
        → p ≡ q)
    → Move pid i s c lock states c'
    → Mine s.states i c
    → Mine states i c'
Move-Mine {c} ids (Move.boot e) h = ground arith
Move-Mine {c} ids (Move.start_wait e l) h = ground arith
Move-Mine {c} ids (Move.start_take e l) h = ground arith
Move-Mine {c} ids (Move.start_set e) h = ground arith
Move-Mine {c} ids (Move.start_run e) h = ground arith
Move-Mine {c} ids (Move.start_switch e) h = ground arith
Move-Mine {c} ids (Move.tick e) h = ground arith
Move-Mine {c} ids (Move.timer_wait e l) h = ground arith
Move-Mine {c} ids (Move.timer_take e l) h = ground arith
Move-Mine {c} ids (Move.yield e) h = ground arith
Move-Mine {c} ids (Move.find p lt e r) h = ground arith
Move-Mine {c} ids (Move.set_current p e) h = ground arith
Move-Mine {c} ids (Move.set_running e) h = ground arith
Move-Mine {c} ids (Move.switch e ne) h = ground arith
Move-Mine {c} ids (Move.stay e same) h = ground (arith, ids c.on c.current)
Move-Mine {c} ids (Move.free e) h = ground arith

-- A processor gets a new slot only under the lock, and it is runnable.
pub Move-slots :
    {pid : ℕ → ℕ} {i : ℕ} {s : System} {c : Cpu} {lock : ℕ} {states : ℕ → Procstate} {c' : Cpu}
    → Move pid i s c lock states c'
    → Mine s.states i c
    → (q : ℕ) → (q ≡ first i c') ⊎ (q ≡ second i c')
    → (q ≡ first i c)
      ⊎ (q ≡ second i c)
      ⊎ ((s.states q ≡ Procstate.runnable) × (is_inside (stand c.pc) ≡ true))
Move-slots (Move.boot e) h q at' = ground arith
Move-slots (Move.start_wait e l) h q at' = ground arith
Move-slots (Move.start_take e l) h q at' = ground arith
Move-slots (Move.start_set e) h q at' = ground arith
Move-slots (Move.start_run e) h q at' = ground arith
Move-slots (Move.start_switch e) h q at' = ground arith
Move-slots (Move.tick e) h q at' = ground arith
Move-slots (Move.timer_wait e l) h q at' = ground arith
Move-slots (Move.timer_take e l) h q at' = ground arith
Move-slots (Move.yield e) h q at' = ground arith
Move-slots (Move.find p lt e r) h q at' = ground arith
Move-slots (Move.set_current p e) h q at' = ground arith
Move-slots (Move.set_running e) h q at' = ground arith
Move-slots (Move.switch e ne) h q at' = ground arith
Move-slots (Move.stay e same) h q at' = ground arith
Move-slots (Move.free e) h q at' = ground arith

-- A processor that does not hold the lock has no runnable slot.
pub slots-running :
    (st : ℕ → Procstate) (j cur on : ℕ) (pc : Pc) (q : ℕ)
    → MineAt st j cur on pc
    → is_inside (stand pc) ≡ false
    → (q ≡ (if is_starting pc then j else on)) ⊎ (q ≡ (if is_starting pc then j else cur))
    → st q ≢ Procstate.runnable
slots-running st j cur on Pc.booting q h out at' = ground arith
slots-running st j cur on Pc.start_spin q h out at' = ground arith
slots-running st j cur on Pc.start_locked q h out at' = ground arith
slots-running st j cur on Pc.start_current q h out at' = ground arith
slots-running st j cur on Pc.start_running q h out at' = ground arith
slots-running st j cur on Pc.runs q h out at' = ground arith
slots-running st j cur on Pc.timer_spin q h out at' = ground arith
slots-running st j cur on Pc.timer_locked q h out at' = ground arith
slots-running st j cur on Pc.yielded q h out at' = ground arith
slots-running st j cur on (Pc.found p) q h out at' = ground arith
slots-running st j cur on Pc.switching q h out at' = ground arith
slots-running st j cur on Pc.running q h out at' = ground arith
slots-running st j cur on Pc.leaving q h out at' = ground arith

-- What happens in other slots does not matter to such a processor.
pub Mine-frame :
    (st st' : ℕ → Procstate) (j cur on : ℕ) (pc : Pc)
    → is_inside (stand pc) ≡ false
    → st' (if is_starting pc then j else cur) ≡ st (if is_starting pc then j else cur)
    → MineAt st j cur on pc
    → MineAt st' j cur on pc
Mine-frame st st' j cur on Pc.booting out same h = ground arith
Mine-frame st st' j cur on Pc.start_spin out same h = ground arith
Mine-frame st st' j cur on Pc.start_locked out same h = ground arith
Mine-frame st st' j cur on Pc.start_current out same h = ground arith
Mine-frame st st' j cur on Pc.start_running out same h = ground arith
Mine-frame st st' j cur on Pc.runs out same h = ground arith
Mine-frame st st' j cur on Pc.timer_spin out same h = ground arith
Mine-frame st st' j cur on Pc.timer_locked out same h = ground arith
Mine-frame st st' j cur on Pc.yielded out same h = ground arith
Mine-frame st st' j cur on (Pc.found p) out same h = ground arith
Mine-frame st st' j cur on Pc.switching out same h = ground arith
Mine-frame st st' j cur on Pc.running out same h = ground arith
Mine-frame st st' j cur on Pc.leaving out same h = ground arith

-- A slot that comes into use is the processor's first.
pub Move-used :
    {pid : ℕ → ℕ} {i : ℕ} {s : System} {c : Cpu} {lock : ℕ} {states : ℕ → Procstate} {c' : Cpu}
    → Move pid i s c lock states c'
    → Mine s.states i c
    → (q : ℕ) → states q ≢ Procstate.unused
    → (s.states q ≢ Procstate.unused) ⊎ (q ≡ i)
Move-used (Move.boot e) h q used = inl used
Move-used (Move.start_wait e l) h q used = inl used
Move-used (Move.start_take e l) h q used = inl used
Move-used (Move.start_set e) h q used = inl used
Move-used (Move.start_run e) h q used = ground arith
Move-used (Move.start_switch e) h q used = inl used
Move-used (Move.tick e) h q used = inl used
Move-used (Move.timer_wait e l) h q used = inl used
Move-used (Move.timer_take e l) h q used = inl used
Move-used (Move.yield e) h q used = ground arith
Move-used (Move.find p lt e r) h q used = inl used
Move-used (Move.set_current p e) h q used = inl used
Move-used (Move.set_running e) h q used = ground arith
Move-used (Move.switch e ne) h q used = inl used
Move-used (Move.stay e same) h q used = inl used
Move-used (Move.free e) h q used = inl used
