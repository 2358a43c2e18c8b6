-- ===== src/Text/Laws.antt =====
-- kernel/string.c: what the routines do on C strings.
use franklin.Base.{
  ℕ, zero, suc, ◌+◌, ◌<◌, ◌≡◌, refl, ap, ◌∙◌, ◌≢◌, ◌⊎◌, ◌↔◌, Bool, true, false, List, [], ◌∷◌, ◌++◌,
  arith, ◌==◌, lt→ltb, length, length-append, get_elem?, set, replicate, pos, negsuc, ok,
  if◌then◌else◌, length-replicate, Bool-cases, inl, inr,
}
use franklin.Text.{
  Buffer, read, write, copy, memcpy, scan, strlen, compare_bytes, strcmp, strcpy, strldup, strdup,
}
use mathlib.Core.List.{append_assoc}

-- The text holds no terminator.
abbrev pub IsText : List ℕ → Type 0
IsText [] = Unit {0}
IsText (c ∷ cs) = (c ≢ 0) × IsText cs

-- A C string and what follows it in its object.
abbrev pub c_string : List ℕ → Buffer → Buffer
c_string t rest = t ++ 0 ∷ rest

scan-c_string : (t rest : List ℕ) (n : ℕ) → IsText t → scan (c_string t rest) n ≡ ok (n + length t)
unfolding scan
scan-c_string [] rest n h = ap ok (omega arith)
scan-c_string (c ∷ t) rest n h =
    let ih : scan (c_string t rest) (n + 1) ≡ ok (n + 1 + length t) =
      scan-c_string t rest (n + 1) h.1 in
    ground (arith, h.0, ih)

-- On a text that is not empty `strlen` returns the number of bytes before the terminator.
pub strlen-c_string :
    (t rest : List ℕ) → IsText t → t ≢ [] → strlen (c_string t rest) ≡ ok (length t)
unfolding strlen
strlen-c_string [] rest h ne = absurd (ne refl)
strlen-c_string (c ∷ t) rest h ne = scan-c_string t rest 1 h.1 ∙ ap ok (omega arith)

-- On the empty text `strlen` looks behind the terminator: it returns one more than the length
-- of the text that happens to follow.
pub strlen-empty : (t rest : List ℕ) → IsText t → strlen (0 ∷ c_string t rest) ≡ ok (length t + 1)
unfolding strlen
strlen-empty t rest h = scan-c_string t rest 1 h ∙ ap ok (omega arith)

get_elem?-append : (xs ys : List ℕ) → get_elem? (xs ++ ys) (length xs) ≡ get_elem? ys 0
get_elem?-append [] ys = refl
get_elem?-append (x ∷ xs) ys = get_elem?-append xs ys

set-append : (xs ys : List ℕ) (c : ℕ) → set (xs ++ ys) (length xs) c ≡ xs ++ set ys 0 c
set-append [] ys c = refl
set-append (x ∷ xs) ys c = ap (◌∷◌ x) (set-append xs ys c)

pub read-append : (xs ys : List ℕ) (y i : ℕ) → i ≡ length xs → read (xs ++ y ∷ ys) i ≡ ok y
unfolding read
read-append xs ys y i e = rw (e, get_elem?-append xs (y ∷ ys))

pub write-append :
    (xs ys : List ℕ) (y i c : ℕ) → i ≡ length xs → write (xs ++ y ∷ ys) i c ≡ ok (xs ++ c ∷ ys)
unfolding write
write-append xs ys y i c e =
    let room : i < length (xs ++ y ∷ ys) = omega (arith, length-append xs (y ∷ ys)) in
    rw (lt→ltb _ _ room) (rw (e, set-append xs (y ∷ ys) c))

-- The loop, with `done` already copied: the bytes `t` replace as many bytes `old`.
copy-append :
    (done t old tail rest : List ℕ) (i : ℕ)
    → i ≡ length done
    → length old ≡ length t
    → copy (length t) i (done ++ (old ++ tail)) (done ++ (t ++ rest)) ≡ ok (done ++ (t ++ tail))
unfolding copy
copy-append done [] [] tail rest i e h = refl
copy-append done [] (o ∷ old) tail rest i e h = absurd (omega arith)
copy-append done (c ∷ t) [] tail rest i e h = absurd (omega arith)
copy-append done (c ∷ t) (o ∷ old) tail rest i e h =
    rw (read-append done (t ++ rest) c i e, write-append done (old ++ tail) o i c e)
      (simp append_assoc at (
        copy-append (done ++ c ∷ []) t old tail rest (i + 1)
          (omega (arith, length-append done (c ∷ []))) (omega arith)))

-- `memcpy` of a whole source replaces as many bytes at the front of the destination, and leaves
-- the bytes behind them as they are.
pub memcpy-append :
    (t old tail rest : List ℕ)
    → length old ≡ length t
    → memcpy (old ++ tail) (t ++ rest) (length t) ≡ ok (t ++ tail)
unfolding memcpy
memcpy-append t old tail rest h = copy-append [] t old tail rest 0 refl h

-- `strcpy` puts the text and a terminator at the front of the buffer and changes nothing else.
pub strcpy-c_string :
    (t rest old tail : List ℕ) (o : ℕ)
    → IsText t
    → t ≢ []
    → length old ≡ length t
    → strcpy (old ++ o ∷ tail) (c_string t rest) ≡ ok (c_string t tail)
unfolding strcpy
strcpy-c_string t rest old tail o h ne e =
    rw (strlen-c_string t rest h ne, copy-append [] t old (o ∷ tail) (0 ∷ rest) 0 refl e)
      (write-append t tail o (length t) 0 refl)

replicate-suc : (n c : ℕ) → replicate (n + 1) c ≡ replicate n c ++ c ∷ []
replicate-suc n c = let e : n + 1 ≡ suc n = omega arith in rw e (go n)
  where
    go : (n : ℕ) → replicate (suc n) c ≡ replicate n c ++ c ∷ []
    go zero = refl
    go (suc n) = ap (◌∷◌ c) (go n)

-- `strldup` of the first `length t` bytes makes a C string of exactly these.
pub strldup-c_string : (t rest : List ℕ) → strldup (t ++ rest) (length t) ≡ ok (c_string t [])
unfolding strldup
strldup-c_string t rest =
    rw
      (
        replicate-suc (length t) 0,
        copy-append [] t (replicate (length t) 0) (0 ∷ []) rest 0 refl
            (length-replicate (length t) 0),
      )
      (write-append t [] 0 (length t) 0 refl)

-- `strdup` copies a text that is not empty, whatever follows its terminator.
pub strdup-c_string :
    (t rest : List ℕ) → IsText t → t ≢ [] → strdup (c_string t rest) ≡ ok (c_string t [])
unfolding strdup
strdup-c_string t rest h ne = rw (strlen-c_string t rest h ne) (strldup-c_string t (0 ∷ rest))

-- The list equality that `strcmp` decides, on texts of one length.
unfoldable pub same : List ℕ → List ℕ → Bool
same [] [] = true
same [] (y ∷ ys) = false
same (x ∷ xs) [] = false
same (x ∷ xs) (y ∷ ys) = if x == y then same xs ys else false

pub same_iff : (xs ys : List ℕ) → (same xs ys ≡ true) ↔ (xs ≡ ys)
unfolding same
same_iff [] [] = (λ _. refl, λ _. refl)
same_iff [] (y ∷ ys) = (λ e. cc, λ e. cc)
same_iff (x ∷ xs) [] = (λ e. cc, λ e. cc)
same_iff (x ∷ xs) (y ∷ ys) = ground (arith, same_iff xs ys)

compare_bytes-same :
    (done done2 t t2 rest rest2 : List ℕ) (i : ℕ)
    → i ≡ length done
    → i ≡ length done2
    → length t ≡ length t2
    → compare_bytes (length t) i (done ++ (t ++ rest)) (done2 ++ (t2 ++ rest2))
      ≡ ok (if same t t2 then pos 0 else negsuc 0)
unfolding compare_bytes same
compare_bytes-same done done2 [] [] rest rest2 i e e2 h = refl
compare_bytes-same done done2 [] (y ∷ t2) rest rest2 i e e2 h = absurd (omega arith)
compare_bytes-same done done2 (x ∷ t) [] rest rest2 i e e2 h = absurd (omega arith)
compare_bytes-same done done2 (x ∷ t) (y ∷ t2) rest rest2 i e e2 h =
    rw (read-append done (t ++ rest) x i e, read-append done2 (t2 ++ rest2) y i e2)
      (elim (Bool-cases (x == y)) [
        | inl eq ↦ rw eq (
            simp append_assoc at (
              compare_bytes-same (done ++ x ∷ []) (done2 ++ y ∷ []) t t2 rest rest2 (i + 1)
                (omega (arith, length-append done (x ∷ [])))
                (omega (arith, length-append done2 (y ∷ []))) (omega arith)))
        | inr ne ↦ rw ne
      ])

-- On two texts that are not empty `strcmp` returns 0 exactly if they are equal, and else -1.
pub strcmp-c_string :
    (t t2 rest rest2 : List ℕ)
    → IsText t
    → IsText t2
    → t ≢ []
    → t2 ≢ []
    → ((strcmp (c_string t rest) (c_string t2 rest2) ≡ ok (pos 0)) × (t ≡ t2))
      ⊎ ((strcmp (c_string t rest) (c_string t2 rest2) ≡ ok (negsuc 0)) × (t ≢ t2))
unfolding strcmp
strcmp-c_string t t2 rest rest2 h h2 ne ne2 =
    rw (strlen-c_string t rest h ne, strlen-c_string t2 rest2 h2 ne2)
      (elim (Bool-cases (length t == length t2)) [
        | inl eq ↦ rw eq (
            rw (compare_bytes-same [] [] t t2 (0 ∷ rest) (0 ∷ rest2) 0 refl refl (ground arith))
              (elim (Bool-cases (same t t2)) [
                | inl yes' ↦ rw yes' (inl (refl, (same_iff t t2).0 yes'))
                | inr no' ↦ rw no' (inr (refl, λ e. ground (arith, same_iff t t2)))
              ]))
        | inr differ ↦ rw differ (inr (refl, λ e. ground (arith, ap (length {A = ℕ}) e)))
      ])
