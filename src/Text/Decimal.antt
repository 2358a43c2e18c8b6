-- ===== src/Text/Decimal.antt =====
-- kernel/string.c, `itoa`: the bytes that it writes are the decimal digits of its argument.
use franklin.Base.{
  pos, ℕ, zero, suc, ◌+◌, ◌*◌, ◌/◌, ◌%◌, ◌^◌, ◌<◌, ◌≡◌, refl, ap, ◌∙◌, ◌≢◌, List, [], ◌∷◌, ◌++◌,
  map, arith, length, length-append, Run, ok, Bool-cases, ==_iff, inl, inr, ◌==◌,
}
use franklin.Text.{split_digits, emit, itoa}
use franklin.Text.Laws.{write-append}
use mathlib.Core.List.{append_assoc}
use native.Mathlib.Nat.{pow-suc}

-- The number that follows `acc` and the digits.
abbrev pub value : ℕ → List ℕ → ℕ
value acc [] = acc
value acc (d ∷ ds) = value (acc * 10 + d) ds

abbrev pub IsDigits : List ℕ → Type 0
IsDigits [] = Unit {0}
IsDigits (d ∷ ds) = (d < 10) × IsDigits ds

-- A first digit 0 stands for the number 0 alone.
abbrev pub NoLeadingZero : ℕ → List ℕ → Type 0
NoLeadingZero x [] = ⊥
NoLeadingZero x (d ∷ ds) = (d ≡ 0) → x ≡ 0

record Split (x : ℕ) (arr : List ℕ) (r : Run (List ℕ)) : Type 0 where
  ds : List ℕ
  returns : r ≡ ok ds
  same_value : value 0 ds ≡ value x arr
  digits : IsDigits ds
  leading : NoLeadingZero x ds

NoLeadingZero-mono :
    {x y : ℕ} (ds : List ℕ) → (y ≡ 0 → x ≡ 0) → NoLeadingZero y ds → NoLeadingZero x ds
NoLeadingZero-mono [] f h = h
NoLeadingZero-mono (d ∷ ds) f h = λ e. f (h e)

Split-step :
    {x : ℕ} {arr : List ℕ} {r : Run (List ℕ)}
    → x / 10 ≢ 0
    → Split (x / 10) ((x % 10) ∷ arr) r
    → Split x arr r
Split-step {x} {arr} ne s = record {
  ds = s.ds;
  returns = s.returns;
  same_value = s.same_value ∙ ap (λ v. value v arr) (omega arith);
  digits = s.digits;
  leading = NoLeadingZero-mono s.ds (λ e. absurd (ne e)) s.leading;
}

Split-last : (x : ℕ) (arr : List ℕ) → x / 10 ≡ 0 → IsDigits arr → Split x arr (ok ((x % 10) ∷ arr))
Split-last x arr e d = record {
  ds = (x % 10) ∷ arr;
  returns = refl;
  same_value = ap (λ v. value v arr) (omega arith);
  digits = (omega arith, d);
  leading = λ z. omega arith;
}

split_digits-Split :
    (room x : ℕ) (arr : List ℕ)
    → x < 10 ^ suc room
    → IsDigits arr
    → Split x arr (split_digits (suc room) x arr)
unfolding split_digits
split_digits-Split zero x arr h d =
    let e : x / 10 ≡ 0 = omega arith in rw ((==_iff _ _).1 e) (Split-last x arr e d)
split_digits-Split (suc room) x arr h d = elim (Bool-cases (x / 10 == 0)) [
  | inl last ↦ rw last (Split-last x arr (ground arith) d)
  | inr more ↦ rw more (
      Split-step (ground arith) (
        split_digits-Split room (x / 10) ((x % 10) ∷ arr) (omega (arith, pow-suc 10 (suc room)))
          (omega arith, d)))
]

emit-append :
    (done ds old tail : List ℕ) (r : ℕ)
    → r ≡ length done
    → length old ≡ length ds
    → emit ds r (done ++ (old ++ tail)) ≡ ok (done ++ (map (λ d. d + 48) ds ++ tail))
unfolding emit
emit-append done [] [] tail r e h = refl
emit-append done [] (o ∷ old) tail r e h = absurd (omega arith)
emit-append done (d ∷ ds) [] tail r e h = absurd (omega arith)
emit-append done (d ∷ ds) (o ∷ old) tail r e h =
    rw (write-append done (old ++ tail) o r (d + 48) e) (
      simp append_assoc at (
        emit-append (done ++ (d + 48) ∷ []) ds old tail (r + 1)
          (omega (arith, length-append done ((d + 48) ∷ []))) (omega arith)))

-- `itoa` of an `int` that is not negative, so below 2 ^ 31, replaces the bytes at the front of
-- the buffer by its decimal digits, with no leading zero, and writes nothing behind the last
-- digit, not even a terminator.
pub itoa-decimal :
    (x : ℕ)
    → x < 2 ^ 31
    → (ds : List ℕ) × IsDigits ds
      × (value 0 ds ≡ x)
      × NoLeadingZero x ds
      × ((old tail : List ℕ)
          → length old ≡ length ds
          → itoa (pos x) (old ++ tail) ≡ ok (map (λ d. d + 48) ds ++ tail))
unfolding itoa
itoa-decimal x h =
    let s = split_digits-Split 9 x [] (omega arith) tt in
    (
      s.ds,
      s.digits,
      s.same_value,
      s.leading,
      λ old tail e. rw s.returns (emit-append [] s.ds old tail 0 refl e),
    )
