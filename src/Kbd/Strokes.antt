-- ===== src/Kbd/Strokes.antt =====
-- kernel/kbd.c: what whole strokes of keys, each pressed and released, print.
use franklin.Base.{
  ℕ, zero, suc, ◌<◌, ◌≡◌, refl, ap, sym, ◌≢◌, true, false, arith, ◌==◌, List, [], ◌∷◌, ◌++◌, map,
  bit_xor,
}
use mathlib.Core.List.{append_assoc, append-nil}
use franklin.Kbd.{Kbd, char_of, print_char, kbd_press, presses}

-- A key that is not the release code, shift or caps lock.
pub record IsPlain (k : ℕ) : Type 0 where
  pub not_release : k ≢ 0xf0
  pub not_shift : k ≢ 0x12
  pub not_caps : k ≢ 0x58

abbrev pub AllPlain : List ℕ → Type 0
AllPlain [] = Unit {0}
AllPlain (k ∷ ks) = IsPlain k × AllPlain ks

-- Each key pressed and released, one after the other.
abbrev pub strokes : List ℕ → List ℕ
strokes [] = []
strokes (k ∷ ks) = k ∷ 0xf0 ∷ k ∷ strokes ks

-- No release code is waited for.
abbrev pub idle : ℕ → Kbd
idle flags = record { key_release = false; flags = flags }

module _ (beyond : ℕ → ℕ) where
  press-idle :
      (k flags : ℕ)
      → IsPlain k
      → kbd_press beyond k (idle flags) ≡ (idle flags, print_char (char_of beyond k) flags ∷ [])
  unfolding kbd_press
  press-idle k flags plain =
      let a : (k == 0xf0) ≡ false = ground (arith, plain.not_release) in
      let b : (k == 0x12) ≡ false = ground (arith, plain.not_shift) in
      let c : (k == 0x58) ≡ false = ground (arith, plain.not_caps) in rw (a, b, c)

  release-plain :
      (k flags : ℕ)
      → IsPlain k
      → kbd_press beyond k (record { key_release = true; flags = flags }) ≡ (idle flags, [])
  unfolding kbd_press
  release-plain k flags plain =
      let a : (k == 0xf0) ≡ false = ground (arith, plain.not_release) in
      let b : (k == 0x12) ≡ false = ground (arith, plain.not_shift) in rw (a, b)

  -- Strokes of plain keys print one character each, by the flags, and leave the state as it was.
  pub presses-strokes :
      (ks : List ℕ) (flags : ℕ)
      → AllPlain ks
      → presses beyond (strokes ks) (idle flags)
        ≡ (idle flags, map (λ k. print_char (char_of beyond k) flags) ks)
  unfolding presses
  presses-strokes [] flags plain = refl
  presses-strokes (k ∷ ks) flags (p, plain) =
      rw (press-idle k flags p) (rw (release-plain k flags p) (rw (presses-strokes ks flags plain)))

  -- The codes `xs`, and then `ys`.
  abbrev in_turn : List ℕ → List ℕ → Kbd → Kbd × List ℕ
  in_turn xs ys s =
      let r = presses beyond xs s in let r' = presses beyond ys r.0 in (r'.0, r.1 ++ r'.1)

  presses-append : (xs ys : List ℕ) (s : Kbd) → presses beyond (xs ++ ys) s ≡ in_turn xs ys s
  unfolding presses
  presses-append [] ys s = refl
  presses-append (x ∷ xs) ys s =
      let r = kbd_press beyond x s in
      let ih : presses beyond (xs ++ ys) r.0 ≡ in_turn xs ys r.0 = presses-append xs ys r.0 in
      rw ih (
        ap (λ out. ((in_turn xs ys r.0).0, out))
          (sym (
            append_assoc r.1 (presses beyond xs r.0).1
              (presses beyond ys (presses beyond xs r.0).0).1)))

  toggle_twice : (f : ℕ) → f < 4 → bit_xor (bit_xor f 2) 2 ≡ f
  toggle_twice zero h = refl
  toggle_twice (suc zero) h = refl
  toggle_twice (suc (suc zero)) h = refl
  toggle_twice (suc (suc (suc zero))) h = refl
  toggle_twice (suc (suc (suc (suc f)))) h = absurd (omega arith)

  -- Strokes of plain keys between the press and the release of shift print one character each, by
  -- the flags with shift turned round, and leave the state as it was.
  pub presses-shifted :
      (ks : List ℕ) (flags : ℕ)
      → AllPlain ks
      → flags < 4
      → presses beyond (0x12 ∷ strokes ks ++ (0xf0 ∷ 0x12 ∷ [])) (idle flags)
        ≡ (idle flags, map (λ k. print_char (char_of beyond k) (bit_xor flags 2)) ks)
  unfolding presses
  presses-shifted ks flags plain small =
      rw
        (
          presses-append (strokes ks) (0xf0 ∷ 0x12 ∷ []) (idle (bit_xor flags 2)),
          presses-strokes ks (bit_xor flags 2) plain,
          toggle_twice flags small,
        )
        (ap (λ out. (idle flags, out)) (append-nil _))
