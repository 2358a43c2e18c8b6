-- ===== src/Ports.antt =====
-- include/asm/x86.h: the ports of the machine and its model-specific registers. What a device
-- answers on a port is a function of all accesses before, which is a parameter of the code that
-- reads.
pub mod Msr
use franklin.Base.{ℕ, ◌%◌, ◌/◌, ◌*◌, ◌^◌, ◌==◌, if◌then◌else◌, bit_or, List, ◌∷◌, ok, Cmd}

pub data Access : Type 0 where
  wrote : (port value : ℕ) → Access
  asked : (port : ℕ) → Access

-- The accesses so far, the last one first.
abbrev pub Trace : Type 0
Trace = List Access

abbrev pub Devices : Type 0
Devices = Trace → ℕ → ℕ

-- Both parameters of `out` are bytes.
unfoldable pub out : ℕ → ℕ → Cmd Trace (Unit {0})
out port value t = ok (tt, wrote (port % 2 ^ 8) (value % 2 ^ 8) ∷ t)

unfoldable pub in_byte : Devices → ℕ → Cmd Trace ℕ
in_byte devices port t = ok (devices t (port % 2 ^ 8) % 2 ^ 8, asked (port % 2 ^ 8) ∷ t)

-- The two halves of each register, the high one first.
abbrev pub Registers : Type 0
Registers = ℕ → ℕ × ℕ

unfoldable pub rdmsr : ℕ → Cmd Registers ℕ
rdmsr msr s = ok (bit_or ((s msr).0 * 2 ^ 32 % 2 ^ 64) (s msr).1, s)

unfoldable pub wrmsr : ℕ → ℕ → Cmd Registers (Unit {0})
wrmsr msr val s = ok (tt, λ m. if msr == m then (val / 2 ^ 32 % 2 ^ 32, val % 2 ^ 32) else s m)
