-- ===== src/Kbd/Tests.antt =====
-- kernel/kbd.c: runs of the handler.
use franklin.Base.{ℕ, ◌≡◌, refl, arith, List, [], ◌∷◌, ◌++◌}
use franklin.Kbd.{char_of, print_char, presses}
use franklin.Kbd.Strokes.{AllPlain, strokes, idle, presses-shifted}

-- `h`, `i`
abbrev keys : List ℕ
keys = 0x33 ∷ 0x43 ∷ []

keys-AllPlain : AllPlain keys
keys-AllPlain = (
  record {
    not_release = λ e. omega arith;
    not_shift = λ e. omega arith;
    not_caps = λ e. omega arith;
  },
  (
    record {
      not_release = λ e. omega arith;
      not_shift = λ e. omega arith;
      not_caps = λ e. omega arith;
    },
    tt,
  ),
)

presses-shifted_example :
    presses (λ k. 0) (0x12 ∷ strokes keys ++ (0xf0 ∷ 0x12 ∷ [])) (idle 0)
    ≡ (idle 0, b'H' ∷ b'I' ∷ [])
unfolding char_of print_char
presses-shifted_example = presses-shifted (λ k. 0) keys 0 keys-AllPlain (omega arith)

-- Shift together with caps lock does not print small letters.
caps_and_shift : presses (λ k. 0) (0x58 ∷ 0x12 ∷ 0x33 ∷ []) (idle 0) ≡ (idle 3, b'H' ∷ [])
unfolding presses
caps_and_shift = refl

-- The digit 1 with shift becomes a control code.
shifted_digit : presses (λ k. 0) (0x12 ∷ 0x16 ∷ []) (idle 0) ≡ (idle 2, 17 ∷ [])
unfolding presses
shifted_digit = refl
