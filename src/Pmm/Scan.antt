-- ===== src/Pmm/Scan.antt =====
-- kernel/pmm.c, `scanbitmap`: the loop finds the first run of free pages, or runs off the end of
-- the bitmap if there is none. It is never short of fuel.
use franklin.Base.{
  ℕ, zero, suc, ◌+◌, ◌≤◌, ◌<◌, ◌≡◌, inl, inr, Bool, true, false, arith, if◌then◌else◌, Run, ok,
  fault, Bool-cases, dec_lt,
}
use franklin.Text.{Buffer, ◌>>=◌}
use franklin.Bitmap.Laws.{used, pages_of, bitmap_test-used, bitmap_test-fault}
use franklin.Pmm.{all_free, find_run}

-- `n` pages from `p` on lie inside the bitmap and are free.
pub record Fits (bm : Buffer) (n p : ℕ) : Type 0 where
  pub inside : p + n ≤ pages_of bm
  pub free : (i : ℕ) → p ≤ i → i < p + n → used bm i ≡ false

-- No earlier run of that length is free.
pub record FirstFit (bm : Buffer) (n p : ℕ) : Type 0 where
  pub fits : Fits bm n p
  pub first : (q : ℕ) → q < p → ¬ Fits bm n q

data Checked (bm : Buffer) (n p : ℕ) : Run Bool → Type 0 where
  free : Fits bm n p → Checked bm n p (ok true)
  taken :
      (i : ℕ) → p ≤ i → i < p + n → i < pages_of bm → used bm i ≡ true → Checked bm n p (ok false)
  outside : pages_of bm < p + n → Checked bm n p fault

Checked-later :
    {bm : Buffer} {n p : ℕ} {r : Run Bool}
    → p < pages_of bm
    → used bm p ≡ false
    → Checked bm n (p + 1) r
    → Checked bm (suc n) p r
Checked-later {p} lt e (free f) = free (record {
  inside = omega (arith, f.inside);
  free = λ i le h. elim (dec_lt p i) [
    | yes k ↦ f.free i (omega arith) (omega arith)
    | no k ↦ (let same : i ≡ p = omega arith in rw same e)
  ];
})
Checked-later lt e (taken i a b c u) = taken i (omega arith) (omega arith) c u
Checked-later lt e (outside h) = outside (omega arith)

all_free-Checked : (n p : ℕ) (bm : Buffer) → p ≤ pages_of bm → Checked bm n p (all_free n p bm)
unfolding all_free
all_free-Checked zero p bm h =
    free (record { inside = omega arith; free = λ i a b. absurd (omega arith) })
all_free-Checked (suc n) p bm h = elim (dec_lt p (pages_of bm)) [
  | yes lt ↦ rw (bitmap_test-used bm p lt) (elim (Bool-cases (used bm p)) [
    | inl u ↦ rw u (taken p (omega arith) (omega arith) lt u)
    | inr u ↦ rw u (Checked-later lt u (all_free-Checked n (p + 1) bm (omega arith)))
  ])
  | no ge ↦ rw (bitmap_test-fault bm p (omega arith)) (outside (omega arith))
]

-- How the scan ends.
pub data Found (bm : Buffer) (n : ℕ) : Run ℕ → Type 0 where
  found : {p : ℕ} → FirstFit bm n p → Found bm n (ok p)
  exhausted : ((q : ℕ) → ¬ Fits bm n q) → Found bm n fault

module _ (bm : Buffer) (n : ℕ) where
  after_check :
      {p : ℕ} {r : Run Bool} {rest : Run ℕ}
      → Checked bm n p r
      → ((q : ℕ) → q < p → ¬ Fits bm n q)
      → (p < pages_of bm → ((q : ℕ) → q < p + 1 → ¬ Fits bm n q) → Found bm n rest)
      → Found bm n (r >>= λ free. if free then ok p else rest)
  after_check (free f) none_yet go = found (record { fits = f; first = none_yet })
  after_check {p} (taken i a b c u) none_yet go = go (omega arith) (λ q h f. elim (dec_lt q p) [
    | yes lt ↦ none_yet q lt f
    | no ge ↦ (let clash = f.free i (omega arith) (omega arith) in cc)
  ])
  after_check {p} (outside h) none_yet go = exhausted (λ q f. elim (dec_lt q p) [
    | yes lt ↦ none_yet q lt f
    | no ge ↦ absurd (omega (arith, f.inside))
  ])

  pub find_run-Found :
      (fuel p : ℕ)
      → p ≤ pages_of bm
      → pages_of bm < p + fuel
      → ((q : ℕ) → q < p → ¬ Fits bm n q)
      → Found bm n (find_run fuel p n bm)
  unfolding find_run
  find_run-Found zero p le enough none_yet = absurd (omega arith)
  find_run-Found (suc fuel) p le enough none_yet =
      after_check (all_free-Checked n p bm le) none_yet
        (λ lt none. find_run-Found fuel (p + 1) (omega arith) (omega arith) none)
