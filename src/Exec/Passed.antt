-- ===== src/Exec/Passed.antt =====
-- kernel/proc.c, `copyargs` as a whole.
use franklin.Base.{
  ℕ, suc, ◌+◌, ◌-◌, ◌*◌, ◌^◌, ◌≤◌, ◌<◌, ◌≡◌, refl, sym, ap, ◌∙◌, ◌⊎◌, inl, inr, arith, List, [],
  ◌∷◌, ◌++◌, length, length-append, ok,
}
use mathlib.Core.Path.{subst}
use franklin.Exec.Words.{Memory, load_word, load_word-same}
use franklin.Exec.Args.{
  Auxval, back, put_pointers, push_word, push_auxval, copy_strings, copyargs, at_phdr_kind,
  at_phent_kind, at_phnum_kind, at_entry_kind,
}
use franklin.Exec.Stack.{
  WordsAt, WordsAt-same, back-sub, Pushed, Pushed-nil, push_word-Pushed, skip-Pushed,
  push_aux-Pushed,
}
use franklin.Exec.Layout.{
  Arg, strings, AllTexts, total, addresses, StringsAt, StringsAt-same, Copied, copy_strings-Copied,
  put_pointers-words,
}

WordsAt-append :
    (a : ℕ) (xs ys : List ℕ) (m : Memory)
    → WordsAt a xs m
    → WordsAt (a + 8 * length xs) ys m
    → WordsAt a (xs ++ ys) m
WordsAt-append a [] ys m h k = (let e : a + 8 * 0 ≡ a = omega arith in rw e at k)
WordsAt-append a (x ∷ xs) ys m h k =
    let e : a + 8 * suc (length xs) ≡ a + 8 + 8 * length xs = omega arith in
    (h.0, WordsAt-append (a + 8) xs ys m h.1 (rw e at k))

length-addresses : (stack : ℕ) (ps : List Arg) → length (addresses stack ps) ≡ length ps
length-addresses stack [] = refl
length-addresses stack (p ∷ ps) = ap suc (length-addresses (stack - (length p.0 + 1)) ps)

length-strings : (ps : List Arg) → length (strings ps) ≡ length ps
length-strings [] = refl
length-strings (p ∷ ps) = ap suc (length-strings ps)

abbrev pub IsAux : Auxval → Type 0
IsAux aux =
    (aux.at_entry < 2 ^ 64)
    × (aux.at_phdr < 2 ^ 64)
    × (aux.at_phent < 2 ^ 64)
    × (aux.at_phnum < 2 ^ 64)

-- The pairs of `push_auxval`, in the order of their addresses.
abbrev pub aux_words : Auxval → List ℕ → List ℕ
aux_words aux ws =
    at_phnum_kind ∷ aux.at_phnum ∷ at_phent_kind ∷ aux.at_phent ∷ at_phdr_kind ∷ aux.at_phdr
    ∷ at_entry_kind ∷ aux.at_entry ∷ ws

-- The zero word and the one that is left as it was.
push_null-Pushed :
    (base : ℕ) (m : Memory)
    → base < 2 ^ 64
    → 16 ≤ base
    → Pushed base
        (load_word (base - 16) m ∷ 0 ∷ [])
        m
        (back (push_word 0 (base, m)).0 8, (push_word 0 (base, m)).1)
unfolding push_word
push_null-Pushed base m small room =
    let p = push_word-Pushed (Pushed-nil base m) small 0 (omega arith) (omega arith) in
    let e : back base 8 - 8 ≡ base - 16 = omega (arith, back-sub base 8 (omega arith) small) in
    let z : ℕ × Memory = push_word 0 (base, m) in
    subst (λ (a : ℕ). Pushed base (load_word a m ∷ 0 ∷ []) m (back z.0 8, z.1)) e
      (skip-Pushed p small (omega (arith, p.stack)))

push_auxval-Pushed :
    (base : ℕ) (m : Memory) (aux : Auxval)
    → base < 2 ^ 64
    → 80 ≤ base
    → IsAux aux
    → Pushed base (aux_words aux (load_word (base - 16) m ∷ 0 ∷ [])) m (push_auxval aux (base, m))
unfolding push_auxval
push_auxval-Pushed base m aux small room fits =
    let p0 = push_null-Pushed base m small (omega arith) in
    let p1 =
      push_aux-Pushed p0 small at_entry_kind aux.at_entry (omega (arith, p0.stack)) (omega arith)
        fits.0 in
    let p2 =
      push_aux-Pushed p1 small at_phdr_kind aux.at_phdr (omega (arith, p1.stack)) (omega arith)
        fits.1 in
    let p3 =
      push_aux-Pushed p2 small at_phent_kind aux.at_phent (omega (arith, p2.stack)) (omega arith)
        fits.2 in
    push_aux-Pushed p3 small at_phnum_kind aux.at_phnum (omega (arith, p3.stack)) (omega arith)
      fits.3

pointers-Pushed :
    {base : ℕ} {ws : List ℕ} {m : Memory} {r : ℕ × Memory} (p : Pushed base ws m r)
    → (ps : List Arg) (oldrsp args : ℕ) → base < 2 ^ 64
    → AllTexts ps
    → total ps ≤ oldrsp
    → oldrsp < 2 ^ 64
    → args + 8 * length ps ≡ r.0
    → (m' : Memory) × (put_pointers (strings ps) 0 oldrsp args r.1 ≡ ok m')
      × Pushed base (addresses oldrsp ps ++ ws) m (args, m')
pointers-Pushed {base} {ws} {m} {r} p ps oldrsp args small h room small' e =
    let (m2, eq, words, outside) =
      put_pointers-words ps 0 oldrsp args r.1 h room small' (omega (arith, p.stack)) in
    let zero : args + 8 * 0 ≡ args = omega arith in
    let n : length (addresses oldrsp ps ++ ws) ≡ length ps + length ws =
      length-append (addresses oldrsp ps) ws
      ∙ ap (λ k. k + length ws) (length-addresses oldrsp ps) in
    let top : args + 8 * length (addresses oldrsp ps) ≡ r.0 =
      ap (λ k. args + 8 * k) (length-addresses oldrsp ps) ∙ e in
    (
      m2,
      eq,
      record {
        stack = omega (arith, p.stack, n);
        words = WordsAt-append args (addresses oldrsp ps) ws m2 (rw zero at words) (
            subst (λ (a : ℕ). WordsAt a ws m2) (sym top)
              (WordsAt-same r.0 ws r.1 m2 (λ b le. outside b (inr (omega arith))) p.words));
        below = λ b lt. outside b (inl (omega arith)) ∙ p.below b (omega arith);
        above = λ b le. outside b (inr (omega (arith, p.stack))) ∙ p.above b le;
      },
    )

copyargs-step :
    (ps : List Arg) (aux : Auxval) (stack base args : ℕ) (m m1 m2 : Memory)
    → copy_strings (strings ps) stack m ≡ ok (base, m1)
    → back (push_word 0 (push_auxval aux (base, m1))).0 (8 * length ps) ≡ args
    → put_pointers (strings ps) 0 stack args (push_word 0 (push_auxval aux (base, m1))).1 ≡ ok m2
    → copyargs stack (strings ps) aux m ≡ ok (push_word (length ps) (args, m2))
unfolding copyargs
copyargs-step ps aux stack base args m m1 m2 e1 e2 e3 =
    rw (e1, length-strings ps) (rw e2 (rw e3 refl))

-- What `copyargs` leaves from `sp` to `stack`: the number of arguments, their addresses, a null
-- pointer, the auxiliary values with the word that is not written, a null word, and the texts.
pub record Passed (stack : ℕ) (ps : List Arg) (aux : Auxval) (m : Memory) (sp : ℕ) (m' : Memory)
    : Type 0 where
  pub size : sp + 8 * (length ps + 12) ≡ stack - total ps
  pub words :
      WordsAt sp
        (length ps
          ∷ (addresses stack ps
              ++ (0 ∷ aux_words aux (load_word (stack - total ps - 16) m ∷ 0 ∷ []))))
        m'
  pub texts : StringsAt stack ps m'
  pub outside : (b : ℕ) → (b < sp) ⊎ (stack ≤ b) → m' b ≡ m b

Passed-Copied :
    (ps : List Arg) (stack base : ℕ) (aux : Auxval) (m m1 : Memory) (r : ℕ × Memory)
    → base ≡ stack - total ps
    → total ps ≤ stack
    → Copied stack ps m m1
    → Pushed base
        (length ps
          ∷ (addresses stack ps ++ (0 ∷ aux_words aux (load_word (base - 16) m1 ∷ 0 ∷ []))))
        m1
        r
    → 16 ≤ base
    → Passed stack ps aux m r.0 r.1
Passed-Copied ps stack base aux m m1 r e fits copied p room = record {
  size = omega (arith, p.stack, n);
  words =
      subst
        (λ (w : ℕ).
          WordsAt r.0 (length ps ∷ (addresses stack ps ++ (0 ∷ aux_words aux (w ∷ 0 ∷ [])))) r.1)
        same p.words;
  texts = StringsAt-same stack ps m1 r.1 (λ b le. p.above b (omega arith)) copied.texts;
  outside = λ b h. elim h [
    | inl lt ↦ p.below b lt ∙ copied.outside b (inl (omega (arith, p.stack)))
    | inr le ↦ p.above b (omega (arith, e)) ∙ copied.outside b (inr le)
  ];
}
  where
    n :
        length (addresses stack ps ++ (0 ∷ aux_words aux (load_word (base - 16) m1 ∷ 0 ∷ [])))
        ≡ length ps + 11
    n =
        length-append (addresses stack ps) (0 ∷ aux_words aux (load_word (base - 16) m1 ∷ 0 ∷ []))
        ∙ ap (λ k. k + 11) (length-addresses stack ps)

    same : load_word (base - 16) m1 ≡ load_word (stack - total ps - 16) m
    same =
        load_word-same (base - 16) m m1 (λ b le lt. copied.outside b (inl (omega arith)))
        ∙ ap (λ k. load_word (k - 16) m) e

copyargs_end :
    (ps : List Arg) (aux : Auxval) (stack base : ℕ) (ws : List ℕ) (m m1 : Memory)
    → copy_strings (strings ps) stack m ≡ ok (base, m1)
    → AllTexts ps
    → total ps ≤ stack
    → stack < 2 ^ 64
    → base ≤ stack
    → 8 * (length ps + 2 + length ws) ≤ base
    → Pushed base ws m1 (push_auxval aux (base, m1))
    → (r : ℕ × Memory) × (copyargs stack (strings ps) aux m ≡ ok r)
      × Pushed base (length ps ∷ (addresses stack ps ++ (0 ∷ ws))) m1 r
copyargs_end ps aux stack base ws m m1 e1 h fits small le room p1 =
    let p2 = push_word-Pushed p1 (omega arith) 0 (omega (arith, p1.stack)) (omega arith) in
    let z = push_word 0 (push_auxval aux (base, m1)) in
    let n = 8 * length ps in
    let e2 : back z.0 n ≡ z.0 - n =
      back-sub z.0 n (omega (arith, p2.stack)) (omega (arith, p2.stack)) in
    let (m2, e3, p3) =
      pointers-Pushed p2 ps stack (z.0 - n) (omega arith) h fits small (omega (arith, p2.stack)) in
    (
      push_word (length ps) (z.0 - n, m2),
      copyargs-step ps aux stack base (z.0 - n) m m1 m2 e1 e2 e3,
      push_word-Pushed p3 (omega arith) (length ps) (omega (arith, p2.stack)) (omega arith),
    )

-- For arguments that are non-empty texts and auxiliary values below 2 ^ 64, where the stack, below
-- address 2 ^ 64, has room for both and the pointers, `copyargs` returns, and leaves what `Passed`
-- says: from the new stack pointer on the number of arguments, the address of each, a null pointer,
-- the four auxiliary pairs, a word that it does not write, and a null word; then at each of these
-- addresses the text with its terminator; and every byte outside as it was.
pub copyargs-Passed :
    (ps : List Arg) (stack : ℕ) (aux : Auxval) (m : Memory)
    → AllTexts ps
    → total ps + 8 * (length ps + 12) ≤ stack
    → stack < 2 ^ 64
    → IsAux aux
    → (r : ℕ × Memory) × (copyargs stack (strings ps) aux m ≡ ok r) × Passed stack ps aux m r.0 r.1
copyargs-Passed ps stack aux m h room small fits =
    let base = stack - total ps in
    let (m1, e1, copied) = copy_strings-Copied ps stack m h (omega arith) small in
    let p1 = push_auxval-Pushed base m1 aux (omega arith) (omega arith) fits in
    let (r, e, p) =
      copyargs_end ps aux stack base (aux_words aux (load_word (base - 16) m1 ∷ 0 ∷ [])) m m1 e1 h
        (omega arith) small (omega arith) (omega arith) p1 in
    (r, e, Passed-Copied ps stack base aux m m1 r refl (omega arith) copied p (omega arith))
