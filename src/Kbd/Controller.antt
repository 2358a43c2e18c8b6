-- ===== src/Kbd/Controller.antt =====
-- kernel/kbd.c: the controller of the keyboard, by its ports 0x60 and 0x64.
use franklin.Base.{
  ℕ, ◌^◌, ◌%◌, ◌==◌, if◌then◌else◌, bit_and, bit_or, pure, panicked, lift, ◌>>=◌, ◌>>◌, Cmd, not,
}
use franklin.Ports.{Trace, Devices, out, in_byte}

unfoldable pub disdev : Cmd Trace (Unit {0})
unfolding out
disdev = do out 0x64 0xad; out 0x64 0xa7

-- The bit of the field `IAPC_BOOT_ARCH` of the table FADT.
unfoldable pub check_ps2 : ℕ → ℕ
check_ps2 boot_arch = bit_and boot_arch 2 % 2 ^ 8

module _ (devices : Devices) where
  unfoldable pub setconfb : ℕ → Cmd Trace (Unit {0})
  unfolding out in_byte
  setconfb config = do out 0x64 0x60; buffer ← in_byte devices 0x64; out 0x60 config

  unfoldable pub getconfb : Cmd Trace ℕ
  unfolding out in_byte
  getconfb = do out 0x64 0x20; buffer ← in_byte devices 0x64; in_byte devices 0x60

  unfoldable pub getscancode : Cmd Trace ℕ
  unfolding out in_byte
  getscancode = do
    out 0x60 0xf0
    buffer ← in_byte devices 0x60
    out 0x60 0
    buffer' ← in_byte devices 0x60
    in_byte devices 0x60

  unfoldable pub gettype : Cmd Trace ℕ
  unfolding out in_byte
  gettype = do
    out 0x60 0xf5
    buffer ← in_byte devices 0x60
    out 0x60 0xf2
    buffer' ← in_byte devices 0x60
    in_byte devices 0x60

  unfoldable pub testps2port : ℕ → Cmd Trace (Unit {0})
  unfolding out in_byte
  testps2port port = do
    if port == 1 then out 0x64 0xab else out 0x64 0xa9
    buffer ← in_byte devices 0x64
    buffer' ← in_byte devices 0x60
    if not (buffer' == 0) then lift panicked else pure tt

  unfoldable pub testps2control : Cmd Trace (Unit {0})
  unfolding out in_byte
  testps2control = do
    out 0x64 0xaa
    buffer ← in_byte devices 0x64
    buffer' ← in_byte devices 0x60
    if not (buffer' == 0x55) then lift panicked else pure tt

  -- The part of `init_kbd` behind its test.
  unfoldable pub set_up : Cmd Trace (Unit {0})
  unfolding disdev getconfb setconfb gettype getscancode out in_byte
  set_up = do
    disdev
    flushed ← in_byte devices 0x60
    config ← getconfb
    setconfb (bit_and config 0x3c)
    buffer ← gettype
    buffer' ← getscancode
    config' ← getconfb
    setconfb (bit_or config' 3)
    out 0x60 0xf4
    out 0x64 0xae

  unfoldable pub init_kbd : ℕ → Cmd Trace (Unit {0})
  unfolding check_ps2 set_up
  init_kbd boot_arch = if check_ps2 boot_arch == 0 then pure tt else set_up
