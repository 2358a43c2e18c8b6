-- ===== src/Text/Tests.antt =====
-- kernel/string.c: runs at concrete buffers.
use franklin.Base.{pos, ℕ, ◌+◌, ◌≡◌, refl, List, [], ◌∷◌, ◌++◌, map, length, arith, ok}
use franklin.Text.{strlen, itoa}
use franklin.Text.Decimal.{IsDigits, NoLeadingZero, value, itoa-decimal}

abbrev hi : List ℕ
hi = b'h' ∷ b'i' ∷ []

abbrev ho : List ℕ
ho = b'h' ∷ b'o' ∷ []

itoa-decimal_example :
    (ds : List ℕ) × IsDigits ds
    × (value 0 ds ≡ 2026)
    × NoLeadingZero 2026 ds
    × ((old tail : List ℕ)
        → length old ≡ length ds
        → itoa (pos 2026) (old ++ tail) ≡ ok (map (λ d. d + 48) ds ++ tail))
itoa-decimal_example = itoa-decimal 2026 (omega arith)

-- The terminator of the empty string is passed over.
strlen_blank : strlen (0 ∷ b'x' ∷ 0 ∷ []) ≡ ok 2
unfolding strlen
strlen_blank = refl

itoa_no_end : itoa (pos 42) (1 ∷ 2 ∷ 3 ∷ []) ≡ ok (b'4' ∷ b'2' ∷ 3 ∷ [])
unfolding itoa
itoa_no_end = refl
