-- ===== src/Initramfs/Octal.antt =====
-- fs/ramfs/initramfs.c, `oct2int`: it reads back a number written in octal.
use franklin.Base.{
  ℕ, zero, suc, ◌+◌, ◌*◌, ◌/◌, ◌%◌, ◌^◌, ◌<◌, ◌≤◌, ◌≡◌, ◌⊎◌, inl, inr, refl, sym, ap, ap₂, ◌∙◌, [],
  ◌-◌, ◌∷◌, ◌++◌, arith, ok,
}
use franklin.Text.{Buffer}
use franklin.Initramfs.{extend, add_digit, oct_loop, oct2int}
use mathlib.Core.List.{append_assoc}
use native.Mathlib.Nat.{pow-suc, mul_assoc}

-- The low `width` octal digits of a number, in ASCII, the highest first.
abbrev pub octal : ℕ → ℕ → Buffer
octal zero n = []
octal (suc width) n = octal width (n / 8) ++ (n % 8 + 48) ∷ []

add_digit-digit : (val d : ℕ) → d < 8 → val * 8 + d < 2 ^ 64 → add_digit val (d + 48) ≡ val * 8 + d
unfolding add_digit extend
add_digit-digit val d h bound = ground arith

oct_loop-digit :
    (val d len : ℕ) (tail : Buffer)
    → d < 8
    → val * 8 + d < 2 ^ 64
    → oct_loop ((d + 48) ∷ tail) (suc len) val ≡ oct_loop tail len (val * 8 + d)
unfolding oct_loop
oct_loop-digit val d len tail h bound = rw (add_digit-digit val d h bound) (ground arith)

times_pow : (val width : ℕ) → val * 8 ^ suc width ≡ val * 8 ^ width * 8
times_pow val width = rw (pow-suc 8 width) (sym (mul_assoc val (8 ^ width) 8))

oct_loop-end :
    (c len : ℕ) (tail : Buffer) (val : ℕ)
    → (c ≡ 0) ⊎ (len ≡ 0)
    → oct_loop (c ∷ tail) len val ≡ ok val
unfolding oct_loop
oct_loop-end c zero tail val ends = refl
oct_loop-end c (suc len) tail val ends = elim ends [
  | inl z ↦ ground arith
  | inr z ↦ absurd (omega arith)
]

-- The digits of `n` behind those of `val`.
oct_loop-octal :
    (width n val len : ℕ) (tail : Buffer)
    → n < 8 ^ width
    → val * 8 ^ width + n < 2 ^ 64
    → oct_loop (octal width n ++ tail) (width + len) val ≡ oct_loop tail len (val * 8 ^ width + n)
oct_loop-octal zero n val len tail h bound = ap₂ (oct_loop tail) (omega arith) (omega arith)
oct_loop-octal (suc width) n val len tail h bound =
    let wider : val * 8 ^ suc width ≡ val * 8 ^ width * 8 = times_pow val width in
    let room : (val * 8 ^ width + n / 8) * 8 + n % 8 < 2 ^ 64 = omega (arith, wider) in
    ap₂ (λ s k. oct_loop s k val) (append_assoc (octal width (n / 8)) ((n % 8 + 48) ∷ []) tail)
      (omega arith)
    ∙ oct_loop-octal width (n / 8) val (suc len) ((n % 8 + 48) ∷ tail)
        (omega (arith, pow-suc 8 width)) (omega arith)
    ∙ oct_loop-digit (val * 8 ^ width + n / 8) (n % 8) len tail (omega arith) room
    ∙ ap (oct_loop tail len) (omega (arith, wider))

no_room : (c width len : ℕ) → (c ≡ 0) ⊎ (width ≡ len) → (c ≡ 0) ⊎ (len - width ≡ 0)
no_room c width len (inl z) = inl z
no_room c width len (inr e) = inr (omega arith)

-- `oct2int` of a field of `len` bytes that begins with `n` in octal, `width` digits of it, gives
-- `n`, if a zero byte follows or the digits fill the field.
pub oct2int-octal :
    (width n len c : ℕ) (tail : Buffer)
    → n < 8 ^ width
    → n < 2 ^ 64
    → width ≤ len
    → (c ≡ 0) ⊎ (width ≡ len)
    → oct2int (octal width n ++ c ∷ tail) len ≡ ok n
unfolding oct2int oct_loop
oct2int-octal width n len c tail h bound fits ends =
    ap (λ k. oct_loop (octal width n ++ c ∷ tail) k 0) (omega arith)
    ∙ oct_loop-octal width n 0 (len - width) (c ∷ tail) h (omega arith)
    ∙ oct_loop-end c (len - width) tail (0 * 8 ^ width + n) (no_room c width len ends)
    ∙ ap ok (omega arith)
