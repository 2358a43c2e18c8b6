-- ===== src/Exec/Layout.antt =====
-- kernel/proc.c, `copyargs`: what the new program finds on its stack.
use franklin.Base.{
  ℕ, suc, ◌+◌, ◌-◌, ◌*◌, ◌%◌, ◌^◌, ◌≤◌, ◌<◌, ◌≡◌, ◌≢◌, refl, sym, ap, ◌∙◌, ◌⊎◌, inl, inr, arith,
  List, [], ◌∷◌, ◌++◌, length, length-append, ok,
}
use mathlib.Core.List.{append_assoc}
use franklin.Text.{Buffer}
use franklin.Text.Laws.{IsText, c_string, strlen-c_string, read-append}
use franklin.Exec.Words.{
  Memory, put_byte, store_word, store_word-outside, load_word-store_word, load_word-same,
}
use franklin.Exec.Args.{back, put_text, copy_strings, put_pointers}
use franklin.Exec.Stack.{WordsAt, back-sub}

-- A C string at an address.
abbrev pub TextAt : ℕ → List ℕ → Memory → Type 0
TextAt a [] m = m a ≡ 0
TextAt a (c ∷ t) m = (m a ≡ c) × TextAt (a + 1) t m

TextAt-same :
    (a : ℕ) (t : List ℕ) (m m' : Memory)
    → ((b : ℕ) → a ≤ b → m' b ≡ m b)
    → TextAt a t m
    → TextAt a t m'
TextAt-same a [] m m' same h = same a (omega arith) ∙ h
TextAt-same a (c ∷ t) m m' same h =
    (same a (omega arith) ∙ h.0, TextAt-same (a + 1) t m m' (λ b le. same b (omega arith)) h.1)

-- `put_text`, with the bytes `done` already copied.
record PutText (a i : ℕ) (t : List ℕ) (m m' : Memory) : Type 0 where
  text : TextAt (a + i) t m'
  outside : (b : ℕ) → (b < a + i) ⊎ (a + i + length t < b) → m' b ≡ m b

put_text-step :
    (left i a c : ℕ) (done s : Buffer) (m : Memory)
    → i ≡ length done
    → a + i < 2 ^ 64
    → put_text (suc left) i a (done ++ c ∷ s) m
      ≡ put_text left (i + 1) a (done ++ c ∷ s) (put_byte (a + i) c m)
unfolding put_text
put_text-step left i a c done s m e fits =
    let at' : (a + i) % 2 ^ 64 ≡ a + i = omega arith in rw (read-append done s c i e, at') refl

put_text-PutText :
    (t done rest : List ℕ) (i a : ℕ) (m : Memory)
    → i ≡ length done
    → a + i + length t < 2 ^ 64
    → (m' : Memory) × (put_text (length t) i a (done ++ c_string t rest) m ≡ ok m')
      × PutText a i t m m'
unfolding put_text
put_text-PutText [] done rest i a m e fits =
    let at' : (a + i) % 2 ^ 64 ≡ a + i = omega arith in
    (
      put_byte (a + i) 0 m,
      rw at' refl,
      record { text = ground arith; outside = λ b h. ground (arith, h) },
    )
put_text-PutText (c ∷ t) done rest i a m e fits =
    let (m', eq, p) =
      put_text-PutText t (done ++ c ∷ []) rest (i + 1) a (put_byte (a + i) c m)
        (omega (arith, length-append done (c ∷ []))) (omega arith) in
    let next : a + (i + 1) ≡ a + i + 1 = omega arith in
    (
      m',
      put_text-step (length t) i a c done (c_string t rest) m e (omega arith)
          ∙ (simp append_assoc at eq),
      record {
        text = (p.outside (a + i) (inl (omega arith)) ∙ ground arith, rw next at p.text);
        outside = λ b h. p.outside b (ground (arith, h)) ∙ ground (arith, h);
      },
    )

-- An argument: its text, and what follows it in its object.
abbrev pub Arg : Type 0
Arg = List ℕ × Buffer

abbrev pub strings : List Arg → List Buffer
strings [] = []
strings (p ∷ ps) = c_string p.0 p.1 ∷ strings ps

abbrev pub AllTexts : List Arg → Type 0
AllTexts [] = Unit {0}
AllTexts (p ∷ ps) = (IsText p.0 × (p.0 ≢ [])) × AllTexts ps

-- The bytes that the strings take.
abbrev pub total : List Arg → ℕ
total [] = 0
total (p ∷ ps) = length p.0 + 1 + total ps

-- The addresses of the strings, the first below `stack`.
abbrev pub addresses : ℕ → List Arg → List ℕ
addresses stack [] = []
addresses stack (p ∷ ps) = (stack - (length p.0 + 1)) ∷ addresses (stack - (length p.0 + 1)) ps

abbrev pub StringsAt : ℕ → List Arg → Memory → Type 0
StringsAt stack [] m = Unit {0}
StringsAt stack (p ∷ ps) m =
    TextAt (stack - (length p.0 + 1)) p.0 m × StringsAt (stack - (length p.0 + 1)) ps m

pub StringsAt-same :
    (stack : ℕ) (ps : List Arg) (m m' : Memory)
    → ((b : ℕ) → stack - total ps ≤ b → m' b ≡ m b)
    → StringsAt stack ps m
    → StringsAt stack ps m'
StringsAt-same stack [] m m' same h = tt
StringsAt-same stack (p ∷ ps) m m' same h = (
  TextAt-same (stack - (length p.0 + 1)) p.0 m m' (λ b le. same b (omega arith)) h.0,
  StringsAt-same (stack - (length p.0 + 1)) ps m m' (λ b le. same b (omega arith)) h.1,
)

pub record Copied (stack : ℕ) (ps : List Arg) (m m' : Memory) : Type 0 where
  pub texts : StringsAt stack ps m'
  pub outside : (b : ℕ) → (b < stack - total ps) ⊎ (stack ≤ b) → m' b ≡ m b

copy_strings-step :
    (p : Arg) (ps : List Arg) (stack a : ℕ) (m m1 : Memory)
    → IsText p.0
    → p.0 ≢ []
    → back stack (length p.0 + 1) ≡ a
    → put_text (length p.0) 0 a (c_string p.0 p.1) m ≡ ok m1
    → copy_strings (strings (p ∷ ps)) stack m ≡ copy_strings (strings ps) a m1
unfolding copy_strings
copy_strings-step p ps stack a m m1 h ne e e1 =
    rw (strlen-c_string p.0 p.1 h ne) (rw e (rw e1 refl))

pub copy_strings-Copied :
    (ps : List Arg) (stack : ℕ) (m : Memory)
    → AllTexts ps
    → total ps ≤ stack
    → stack < 2 ^ 64
    → (m' : Memory) × (copy_strings (strings ps) stack m ≡ ok (stack - total ps, m'))
      × Copied stack ps m m'
unfolding copy_strings
copy_strings-Copied [] stack m h room small =
    (m, ap (λ s. ok (s, m)) (omega arith), record { texts = tt; outside = λ b h. refl })
copy_strings-Copied (p ∷ ps) stack m h room small =
    let n = length p.0 + 1 in
    let a = stack - n in
    let e : back stack n ≡ a = back-sub stack n (omega arith) small in
    let (m1, e1, put) = put_text-PutText p.0 [] p.1 0 a m refl (omega arith) in
    let (m2, e2, rest) = copy_strings-Copied ps a m1 h.1 (omega arith) (omega arith) in
    let zero : a + 0 ≡ a = omega arith in
    let bottom : stack - total (p ∷ ps) ≡ a - total ps = omega arith in
    (
      m2,
      copy_strings-step p ps stack a m m1 h.0.0 h.0.1 e e1 ∙ e2 ∙ ap (λ s. ok (s, m2)) (sym bottom),
      record {
        texts = (
          TextAt-same a p.0 m1 m2 (λ b le. rest.outside b (inr le)) (rw zero at put.text),
          rest.texts,
        );
        outside = λ b h. rest.outside b (ground (arith, h)) ∙ put.outside b (ground (arith, h));
      },
    )

put_pointers-step :
    (p : Arg) (ps : List Arg) (i oldrsp stack a here : ℕ) (m : Memory)
    → IsText p.0
    → p.0 ≢ []
    → back oldrsp (length p.0 + 1) ≡ a
    → (stack + i * 8) % 2 ^ 64 ≡ here
    → put_pointers (strings (p ∷ ps)) i oldrsp stack m
      ≡ put_pointers (strings ps) (i + 1) a stack (store_word here a m)
unfolding put_pointers
put_pointers-step p ps i oldrsp stack a here m h ne e at' =
    rw (strlen-c_string p.0 p.1 h ne) (rw e (rw at' refl))

-- The second loop, with `i` pointers already written.
pub put_pointers-words :
    (ps : List Arg) (i oldrsp stack : ℕ) (m : Memory)
    → AllTexts ps
    → total ps ≤ oldrsp
    → oldrsp < 2 ^ 64
    → stack + 8 * (i + length ps) < 2 ^ 64
    → (m' : Memory) × (put_pointers (strings ps) i oldrsp stack m ≡ ok m')
      × WordsAt (stack + 8 * i) (addresses oldrsp ps) m'
      × ((b : ℕ) → (b < stack + 8 * i) ⊎ (stack + 8 * (i + length ps) ≤ b) → m' b ≡ m b)
unfolding put_pointers
put_pointers-words [] i oldrsp stack m h room small fits = (m, refl, tt, λ b h. refl)
put_pointers-words (p ∷ ps) i oldrsp stack m h room small fits =
    let n = length p.0 + 1 in
    let a = oldrsp - n in
    let e : back oldrsp n ≡ a = back-sub oldrsp n (omega arith) small in
    let at' : (stack + i * 8) % 2 ^ 64 ≡ stack + 8 * i = omega arith in
    let here = stack + 8 * i in
    let m1 = store_word here a m in
    let (m2, e2, words, outside) =
      put_pointers-words ps (i + 1) a stack m1 h.1 (omega arith) (omega arith) (omega arith) in
    let next : stack + 8 * (i + 1) ≡ here + 8 = omega arith in
    (
      m2,
      put_pointers-step p ps i oldrsp stack a here m h.0.0 h.0.1 e at' ∙ e2,
      (
        load_word-same here m1 m2 (λ b le lt. outside b (inl (omega arith)))
            ∙ load_word-store_word here a m (omega arith),
        rw next at words,
      ),
      λ b h. outside b (ground (arith, h)) ∙ store_word-outside here a m b (ground (arith, h)),
    )
