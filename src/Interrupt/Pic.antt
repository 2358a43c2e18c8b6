-- ===== src/Interrupt/Pic.antt =====
-- kernel/pic.c: the interrupt controllers.
use franklin.Base.{ℕ, ◌^◌, bit_xor, ◌>>=◌, ◌>>◌, Cmd}
use franklin.Ports.{Trace, Devices, out, in_byte}

module _ (devices : Devices) where
  unfoldable pub unmask_irq : ℕ → Cmd Trace (Unit {0})
  unfolding out in_byte
  unmask_irq irq = do imr ← in_byte devices 0x21; out 0x21 (bit_xor imr (2 ^ irq))

  unfoldable pub pic_remap : ℕ → Cmd Trace (Unit {0})
  unfolding out in_byte
  pic_remap offset = do
    mask ← in_byte devices 0x21
    mask2 ← in_byte devices 0xa1
    out 0x20 0x11
    out 0xa0 0x11
    out 0x21 offset
    out 0xa1 offset
    out 0x21 4
    out 0xa1 2
    out 0x21 1
    out 0xa1 1
    out 0x21 mask
    out 0xa1 mask2
