-- ===== src/Vmm/Destroy/Frees.antt =====
-- kernel/vmm.c, `destroyvm`: commands that free pages and do nothing else.
use franklin.Base.{
  ℕ, ◌*◌, ◌^◌, ◌≤◌, ◌≡◌, ◌≢◌, refl, ap, sym, ◌∙◌, arith, ◌⊎◌, inl, inr, ok, and_then, Cmd, pure,
  ◌>>◌,
}
use franklin.Bitmap.Laws.{pages_of}
use franklin.Pmm.{Pmm, page_size, freepg}
use franklin.Pmm.Free.{freepg-MarksRun}
use franklin.Vmm.{Vm, p2v, v2p, free_page}
use franklin.Vmm.Destroy.{Freed, IsPage}

-- The command returns, frees the pages at these addresses, and does nothing else.
pub record Frees (mem : ℕ → ℕ) (n : ℕ) (P : ℕ → Type 0) (c : Cmd Vm (Unit {0})) : Type 0 where
  pub frees :
      (g : Pmm)
      → pages_of g.bitmap ≡ n
      → (g' : Pmm) × (c (record { mem = mem; pages = g })
          ≡ ok (tt, record { mem = mem; pages = g' }))
        × Freed g g' P

pub Frees-none : {mem : ℕ → ℕ} {n : ℕ} → Frees mem n (λ _. ⊥) (pure tt)
Frees-none = record {
  frees = λ g h. (
    g,
    refl,
    record { size = refl; shrinks = λ q u. u; gone = λ q lt p. absurd p; kept = λ q lt np. refl },
  );
}

pub Frees-then :
    {mem : ℕ → ℕ} {n : ℕ} (P Q : ℕ → Type 0) (c d : Cmd Vm (Unit {0}))
    → Frees mem n P c
    → Frees mem n Q d
    → Frees mem n (λ a. P a ⊎ Q a) (c >> d)
Frees-then {mem} {n} P Q c d hc hd = record {
  frees = λ g h.
      let (m, e, f) = hc.frees g h in
      let (g', e', f') = hd.frees m (omega (arith, f.size)) in
      (
        g',
        rw e e',
        record {
          size = f'.size ∙ f.size;
          shrinks = λ q u. f.shrinks q (f'.shrinks q u);
          gone = λ q lt p. elim p [
            | inl l ↦ ground (arith, f'.shrinks q, f.gone q lt l)
            | inr r ↦ f'.gone q lt r
          ];
          kept = λ q lt np. f'.kept q lt (λ r. np (inr r)) ∙ f.kept q lt (λ l. np (inl l));
        },
      );
}

pub Frees-same :
    {mem : ℕ → ℕ} {n : ℕ} (P Q : ℕ → Type 0) (c : Cmd Vm (Unit {0}))
    → ((a : ℕ) → P a → Q a)
    → ((a : ℕ) → Q a → P a)
    → Frees mem n P c
    → Frees mem n Q c
Frees-same {mem} {n} P Q c to from hc = record {
  frees = λ g h.
      let (g', e, f) = hc.frees g h in
      (
        g',
        e,
        record {
          size = f.size;
          shrinks = f.shrinks;
          gone = λ q lt p. f.gone q lt (from _ p);
          kept = λ q lt np. f.kept q lt (λ p. np (to _ p));
        },
      );
}

pub Frees-run :
    {mem : ℕ → ℕ} {n : ℕ} (P : ℕ → Type 0) (c d : Cmd Vm (Unit {0}))
    → ((g : Pmm) → c (record { mem = mem; pages = g }) ≡ d (record { mem = mem; pages = g }))
    → Frees mem n P d
    → Frees mem n P c
Frees-run {mem} {n} P c d run hd = record {
  frees = λ g h. let (g', e, f) = hd.frees g h in (g', run g ∙ e, f);
}

pub free_page-Frees :
    {mem : ℕ → ℕ} {n : ℕ} (table : ℕ)
    → n ≤ 2 ^ 35
    → IsPage n table
    → Frees mem n (λ a. a ≡ table) (free_page table)
unfolding free_page v2p p2v
free_page-Frees {mem} {n} table small (p, e, lt) = record {
  frees = λ g h.
      let there : v2p table ≡ p * page_size = rw e (omega arith) in
      let (g', e', m, quiet) = freepg-MarksRun p 1 g (omega arith) (omega arith) in
      let run = ap (λ a. freepg a 1 g) there ∙ e' in
      (
        g',
        ap (λ r. and_then r (λ pages. ok (tt, record { mem = mem; pages = pages }))) run,
        record {
          size = m.size;
          shrinks = λ q u. ground (arith, m.bits q);
          gone =
              λ q ltq same. (let one : q ≡ p = omega (arith, same, e) in ground (arith, m.bits q));
          kept =
              λ q ltq np. (let ne : q ≢ p = λ one. np (rw one (sym e)) in ground (arith, m.bits q));
        },
      );
}
