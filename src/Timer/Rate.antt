-- ===== src/Timer/Rate.antt =====
-- kernel/time.c, `init_pit`: the rate of the ticks.
use franklin.Base.{
  ℕ, zero, suc, ◌+◌, ◌*◌, ◌/◌, ◌%◌, ◌^◌, ◌≤◌, ◌<◌, ◌≡◌, refl, arith, false, ◌==◌, ◌∷◌, ok,
}
use native.Mathlib.Nat.{div-lt_iff_lt-mul, div-mul-le_self}
use franklin.Ports.{wrote, Trace, out}
use franklin.Timer.{init_pit}

count_pos : (d hz : ℕ) → 1193180 < (d + 1) * hz → hz ≤ 1193180 → 1 ≤ d
count_pos zero hz over most = absurd (omega arith)
count_pos (suc d) hz over most = omega arith

-- For rates from 19 to 1193180 Hz `init_pit` selects counter 0 and writes the low and the high byte
-- of a count, not 0, with which the input of 1193180 Hz gives at least the rate that is asked for,
-- and would give less with a count that is higher by one.
pub init_pit_count :
    (hz : ℕ) (t : Trace)
    → 19 ≤ hz
    → hz ≤ 1193180
    → (low high : ℕ) × (init_pit hz t
        ≡ ok (tt, wrote 0x40 high ∷ wrote 0x40 low ∷ wrote 0x43 0x34 ∷ t))
      × (low < 2 ^ 8)
      × (high < 2 ^ 8)
      × (1 ≤ low + 2 ^ 8 * high)
      × ((low + 2 ^ 8 * high) * hz ≤ 1193180)
      × (1193180 < (low + 2 ^ 8 * high + 1) * hz)
unfolding init_pit out
init_pit_count hz t least most =
    let d = 1193180 / hz in
    let fits : d < 2 ^ 16 =
      (div-lt_iff_lt-mul {k = hz} {x = 1193180} {y = 2 ^ 16} (omega arith)).1 (omega arith) in
    let over : 1193180 < (d + 1) * hz =
      (div-lt_iff_lt-mul {k = hz} {x = 1193180} {y = d + 1} (omega arith)).0 (omega arith) in
    let under : d * hz ≤ 1193180 = div-mul-le_self 1193180 hz in
    let whole : d % 2 ^ 8 + 2 ^ 8 * (d / 2 ^ 8) ≡ d = omega arith in
    let e : d / 2 ^ 8 % 2 ^ 8 ≡ d / 2 ^ 8 = omega (arith, fits) in
    let e' : d % 2 ^ 8 % 2 ^ 8 ≡ d % 2 ^ 8 = omega arith in
    let some_rate : (hz == 0) ≡ false = ground arith in
    (
      d % 2 ^ 8,
      d / 2 ^ 8,
      rw (some_rate, e, e') refl,
      omega arith,
      omega (arith, fits),
      rw whole (count_pos d hz over most),
      rw whole under,
      rw whole over,
    )
