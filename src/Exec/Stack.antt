-- ===== src/Exec/Stack.antt =====
-- kernel/proc.c, `copyargs`: pushes on the stack.
use franklin.Base.{
  ℕ, ◌+◌, ◌-◌, ◌*◌, ◌%◌, ◌^◌, ◌≤◌, ◌<◌, ◌≡◌, refl, ◌∙◌, inl, inr, arith, List, [], ◌∷◌, length,
}
use franklin.Exec.Words.{
  Memory, store_word, load_word, store_word-outside, load_word-store_word, load_word-same,
}
use franklin.Exec.Args.{back, push_aux, push_word}

-- The words from an address on.
abbrev pub WordsAt : ℕ → List ℕ → Memory → Type 0
WordsAt a [] m = Unit {0}
WordsAt a (w ∷ ws) m = (load_word a m ≡ w) × WordsAt (a + 8) ws m

pub WordsAt-same :
    (a : ℕ) (ws : List ℕ) (m m' : Memory)
    → ((b : ℕ) → a ≤ b → m' b ≡ m b)
    → WordsAt a ws m
    → WordsAt a ws m'
WordsAt-same a [] m m' same h = tt
WordsAt-same a (w ∷ ws) m m' same h = (
  load_word-same a m m' (λ b le lt. same b le) ∙ h.0,
  WordsAt-same (a + 8) ws m m' (λ b le. same b (omega arith)) h.1,
)

pub back-sub : (a n : ℕ) → n ≤ a → a < 2 ^ 64 → back a n ≡ a - n
unfolding back
back-sub a n le lt = omega arith

-- The words `ws` have been pushed below `base`, and no other byte has changed.
pub record Pushed (base : ℕ) (ws : List ℕ) (m : Memory) (r : ℕ × Memory) : Type 0 where
  pub stack : r.0 + 8 * length ws ≡ base
  pub words : WordsAt r.0 ws r.1
  pub below : (b : ℕ) → b < r.0 → r.1 b ≡ m b
  pub above : (b : ℕ) → base ≤ b → r.1 b ≡ m b

pub Pushed-nil : (base : ℕ) (m : Memory) → Pushed base [] m (base, m)
Pushed-nil base m = record {
  stack = omega arith;
  words = tt;
  below = λ b lt. refl;
  above = λ b le. refl;
}

module _ {base : ℕ} {ws : List ℕ} {m : Memory} {r : ℕ × Memory} (p : Pushed base ws m r)
    (small : base < 2 ^ 64) where
  pub store-Pushed :
      (w : ℕ) → 8 ≤ r.0 → w < 2 ^ 64 → Pushed base (w ∷ ws) m (r.0 - 8, store_word (r.0 - 8) w r.1)
  store-Pushed w room fits = record {
    stack = omega (arith, p.stack);
    words = (
      load_word-store_word (r.0 - 8) w r.1 fits,
      (let e : r.0 - 8 + 8 ≡ r.0 = omega arith in
          rw e (
            WordsAt-same r.0 ws r.1 (store_word (r.0 - 8) w r.1)
              (λ b le. store_word-outside (r.0 - 8) w r.1 b (inr (omega arith))) p.words)),
    );
    below =
        λ b lt. store_word-outside (r.0 - 8) w r.1 b (inl (omega arith)) ∙ p.below b (omega arith);
    above =
        λ b le. store_word-outside (r.0 - 8) w r.1 b (inr (omega (arith, p.stack))) ∙ p.above b le;
  }

  pub push_word-Pushed : (w : ℕ) → 8 ≤ r.0 → w < 2 ^ 64 → Pushed base (w ∷ ws) m (push_word w r)
  unfolding push_word
  push_word-Pushed w room fits =
      rw (back-sub r.0 8 room (omega (arith, p.stack))) (store-Pushed w room fits)

  -- A word that is left as it was.
  pub skip-Pushed : 8 ≤ r.0 → Pushed base (load_word (r.0 - 8) m ∷ ws) m (back r.0 8, r.1)
  skip-Pushed room = rw (back-sub r.0 8 room (omega (arith, p.stack))) (record {
    stack = omega (arith, p.stack);
    words = (
      load_word-same (r.0 - 8) m r.1 (λ b le lt. p.below b (omega arith)),
      (let e : r.0 - 8 + 8 ≡ r.0 = omega arith in rw e p.words),
    );
    below = λ b lt. p.below b (omega arith);
    above = p.above;
  })

  pub push_aux-Pushed :
      (kind value : ℕ)
      → 16 ≤ r.0
      → kind < 2 ^ 64
      → value < 2 ^ 64
      → Pushed base (kind ∷ value ∷ ws) m (push_aux kind value r)
  unfolding push_aux
  push_aux-Pushed kind value room fits fits' =
      let a = r.0 - 16 in
      let low = store_word a kind r.1 in
      let e : (a + 8) % 2 ^ 64 ≡ a + 8 = omega (arith, p.stack) in
      let e' : a + 8 + 8 ≡ r.0 = omega arith in
      rw (back-sub r.0 16 room (omega (arith, p.stack)), e)
        (record {
          stack = omega (arith, p.stack);
          words = (
            load_word-same a low (store_word (a + 8) value low)
                  (λ b le lt. store_word-outside (a + 8) value low b (inl (omega arith)))
                ∙ load_word-store_word a kind r.1 fits,
            (
              load_word-store_word (a + 8) value low fits',
              rw e' (
                  WordsAt-same r.0 ws r.1 (store_word (a + 8) value low)
                    (λ b le.
                      store_word-outside (a + 8) value low b (inr (omega arith))
                      ∙ store_word-outside a kind r.1 b (inr (omega arith)))
                    p.words),
            ),
          );
          below = λ b lt.
              store_word-outside (a + 8) value low b (inl (omega arith))
              ∙ store_word-outside a kind r.1 b (inl (omega arith))
              ∙ p.below b (omega arith);
          above = λ b le.
              store_word-outside (a + 8) value low b (inr (omega (arith, p.stack)))
              ∙ store_word-outside a kind r.1 b (inr (omega (arith, p.stack)))
              ∙ p.above b le;
        })
