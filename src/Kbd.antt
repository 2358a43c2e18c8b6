-- ===== src/Kbd.antt =====
-- kernel/kbd.c: the interrupt handler of the keyboard, as a function of the scan code that it
-- reads, and the characters that it prints. The set-up of the controller is not modelled.
pub mod Strokes
pub mod Controller
mod Tests
use franklin.Base.{
  ℕ, ◌+◌, ◌-◌, ◌%◌, Bool, true, false, not, ◌&&◌, ◌||◌, ◌==◌, if◌then◌else◌, Option, none, some,
  List, [], ◌∷◌, ◌++◌, get_elem?, replicate, bit_and, bit_xor, ltb,
}

-- The first 91 entries of `kbd_us`; the others up to 127 are 0.
abbrev kbd_us_given : List ℕ
kbd_us_given =
    0 ∷ 0 ∷ 0 ∷ 0 ∷ 0 ∷ 0 ∷ 0 ∷ 0 ∷ 0 ∷ 0 ∷ 0 ∷ 0 ∷ 0 ∷ 9 ∷ 0 ∷ 0 ∷ 0 ∷ 0 ∷ 0 ∷ 0 ∷ 0 ∷ b'q' ∷ b'1'
    ∷ 0 ∷ 0 ∷ 0 ∷ b'z' ∷ b's' ∷ b'a' ∷ b'w' ∷ b'2' ∷ 0 ∷ 0 ∷ b'c' ∷ b'x' ∷ b'd' ∷ b'e' ∷ b'4' ∷ b'3'
    ∷ 0 ∷ 0 ∷ b' ' ∷ b'v' ∷ b'f' ∷ b't' ∷ b'r' ∷ b'5' ∷ 0 ∷ 0 ∷ b'n' ∷ b'b' ∷ b'h' ∷ b'g' ∷ b'y'
    ∷ b'6' ∷ 0 ∷ 0 ∷ 0 ∷ b'm' ∷ b'j' ∷ b'u' ∷ b'7' ∷ b'8' ∷ 0 ∷ 0 ∷ b',' ∷ b'k' ∷ b'i' ∷ b'o' ∷ b'0'
    ∷ b'9' ∷ 0 ∷ 0 ∷ b'.' ∷ b'/' ∷ b'l' ∷ b';' ∷ b'p' ∷ b'-' ∷ 0 ∷ 0 ∷ 0 ∷ 0 ∷ 0 ∷ b'[' ∷ b'=' ∷ 0
    ∷ 0 ∷ 0 ∷ 0 ∷ 10 ∷ []

abbrev pub from_table : Option ℕ → ℕ
from_table none = 0
from_table (some c) = c

-- `kbd_us[keycode]`. The codes from 127 on, 0xF0 among them, read what lies behind the table.
unfoldable pub char_of : (beyond : ℕ → ℕ) → ℕ → ℕ
char_of beyond keycode =
    if ltb keycode 127 then from_table (get_elem? kbd_us_given keycode) else beyond keycode

-- The static variables: `key_release`, and `flags` with caps lock in bit 0 and shift in bit 1.
pub record Kbd : Type 0 where
  pub key_release : Bool
  pub flags : ℕ

-- The character that is printed.
unfoldable pub print_char : ℕ → ℕ → ℕ
print_char ch flags =
    if not (bit_and flags 1 == 0) || not (bit_and flags 2 == 0) then (ch + 224) % 256 else ch

-- The new state and what is printed; a character 0 is an empty string.
unfoldable pub kbd_press : (beyond : ℕ → ℕ) → ℕ → Kbd → Kbd × List ℕ
unfolding char_of print_char
kbd_press beyond keycode s =
    let release = if keycode == 0xf0 then true else s.key_release in
    let flags = if keycode == 0x12 then bit_xor s.flags 2 else s.flags in
    let after = if not (keycode == 0xf0) && release then false else release in
    if not release
    then (if keycode == 0x58
        then (record { key_release = after; flags = bit_xor flags 1 }, [])
        else (if not (keycode == 0x12)
            then (
              record { key_release = after; flags = flags },
              print_char (char_of beyond keycode) flags ∷ [],
            )
            else (record { key_release = after; flags = flags }, [])))
    else (record { key_release = after; flags = flags }, [])

-- The codes that the keyboard sends one after the other.
unfoldable pub presses : (beyond : ℕ → ℕ) → List ℕ → Kbd → Kbd × List ℕ
unfolding kbd_press
presses beyond [] s = (s, [])
presses beyond (k ∷ ks) s =
    let r = kbd_press beyond k s in let rest = presses beyond ks r.0 in (rest.0, r.1 ++ rest.1)
