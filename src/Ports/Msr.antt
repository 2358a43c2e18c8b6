-- ===== src/Ports/Msr.antt =====
-- include/asm/x86.h, `wrmsr` and `rdmsr`: a word through the two halves of a register.
use franklin.Base.{
  ℕ, ◌%◌, ◌/◌, ◌*◌, ◌^◌, ◌<◌, ◌≡◌, ◌∙◌, ap, arith, true, ◌==◌, if◌then◌else◌, bit_or, ok, ◌>>◌,
}
use franklin.Base.Bits.Masks.{bit_or-low}
use franklin.Ports.{Registers, rdmsr, wrmsr}

-- What `wrmsr` has written of 64 bits, `rdmsr` reads, whatever the register held.
rdmsr-wrmsr :
    (msr val : ℕ) (s : Registers)
    → val < 2 ^ 64
    → (s' : Registers) × ((wrmsr msr val >> rdmsr msr) s ≡ ok (val, s'))
unfolding wrmsr rdmsr
rdmsr-wrmsr msr val s h =
    let own : (msr == msr) ≡ true = ground arith in
    let halves : bit_or (val / 2 ^ 32 % 2 ^ 32 * 2 ^ 32 % 2 ^ 64) (val % 2 ^ 32) ≡ val =
      rw high (bit_or-low 32 (val / 2 ^ 32) (val % 2 ^ 32) (omega arith) ∙ omega arith) in
    let s' : Registers = λ m. if msr == m then (val / 2 ^ 32 % 2 ^ 32, val % 2 ^ 32) else s m in
    (s', ap (λ v. ok (v, s')) (rw own halves))
  where
    high : val / 2 ^ 32 % 2 ^ 32 * 2 ^ 32 % 2 ^ 64 ≡ val / 2 ^ 32 * 2 ^ 32
    high = omega arith
