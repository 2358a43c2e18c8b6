-- ===== src/Vmm/Series.antt =====
-- kernel/vmm.c: calls of `mappage2` one after the other, as `mappages`, `init_vm` and `exec` make
-- them; what it returns is dropped.
use franklin.Base.{
  ℕ, ◌+◌, ◌*◌, ◌≤◌, ◌<◌, ◌≡◌, inl, inr, refl, sym, ap, ◌∙◌, false, arith, ◌==◌, if◌then◌else◌,
  bit_or, Option, none, some, ℤ, Run, ok, fault, Bool-cases, and_then, Cmd, pure, ◌>>◌, List, [],
  ◌∷◌, ◌++◌, length, length-append, ==_iff,
}
use franklin.Base.Bits.{bit}
use franklin.Bitmap.Laws.{used, pages_of}
use franklin.Vmm.{Vm, mappage2}
use franklin.Vmm.Tree.{Label, IsTree}
use franklin.Vmm.View.{view}
use franklin.Vmm.Refines.{page_of, IsIn, Takes}
use franklin.Vmm.Mapped.{Mapped, added, exists, few_pages, mappage2-Mapped, view-page}

-- The arguments of a call.
pub record Entry : Type 0 where
  pub vaddr : ℕ
  pub paddr : ℕ
  pub flags : ℕ

abbrev pub word_of : Entry → ℕ
word_of e = bit_or e.paddr e.flags

unfoldable pub map_each : ℕ → List Entry → Cmd Vm (Unit {0})
map_each top [] = pure tt
map_each top (e ∷ es) = do mappage2 top e.vaddr e.paddr e.flags; map_each top es

-- The first of the entries that is for the page of an address.
abbrev pub first : List Entry → ℕ → Option ℕ
first [] v = none
first (e ∷ es) v = if page_of v == page_of e.vaddr then some (word_of e) else first es v

abbrev pub or_else : Option ℕ → Option ℕ → Option ℕ
or_else none y = y
or_else (some w) y = some w

-- Every entry has the flag `PTE_PRESENT`.
abbrev pub AllPresent : List Entry → Type 0
AllPresent [] = Unit {0}
AllPresent (e ∷ es) = (bit e.flags 0 ≡ 1) × AllPresent es

-- Of the free pages, the ones in `xs` only are left, at most `n`.
pub record Scarce (s : Vm) (n : ℕ) : Type 0 where
  pub pages :
      (xs : List ℕ) × (length xs ≤ n)
      × ((q : ℕ) → q < pages_of s.pages.bitmap → used s.pages.bitmap q ≡ false → IsIn q xs)

-- How a command ends that adds entries to the map: what was mapped stays, and each page that was
-- not gets the entry that `f` has for it. At most `n` pages come into use.
pub data Adds {A : Type 0} (s : Vm) (top n : ℕ) (f : ℕ → Option ℕ) : Run (A × Vm) → Type 0 where
  done :
      {a : A} {t : Vm} (at : ℕ → Label)
      → IsTree t at
      → at top ≡ some (3, 0)
      → ((v : ℕ) → view t.mem 3 top v ≡ or_else (view s.mem 3 top v) (f v))
      → Takes s t n
      → Adds s top n f (ok (a, t))
  short : Scarce s n → Adds s top n f fault

pub IsIn-left : (q : ℕ) (xs ys : List ℕ) → IsIn q xs → IsIn q (xs ++ ys)
IsIn-left q [] ys h = elim h [ ]
IsIn-left q (x ∷ xs) ys (inl e) = inl e
IsIn-left q (x ∷ xs) ys (inr h) = inr (IsIn-left q xs ys h)

pub IsIn-right : (q : ℕ) (xs ys : List ℕ) → IsIn q ys → IsIn q (xs ++ ys)
IsIn-right q [] ys h = h
IsIn-right q (x ∷ xs) ys h = inr (IsIn-right q xs ys h)

pub Takes-refl : (s : Vm) → Takes s s 0
Takes-refl s = record { size = refl; keeps = λ q u. u; pages = ([], omega arith, λ q u. inl u) }

pub Takes-trans : {s t u : Vm} (m n k : ℕ) → m + n ≤ k → Takes s t m → Takes t u n → Takes s u k
Takes-trans m n k le a b =
    let (xs, few, old) = a.pages in
    let (ys, few', old') = b.pages in
    record {
      size = b.size ∙ a.size;
      keeps = λ q h. b.keeps q (a.keeps q h);
      pages = (
        xs ++ ys,
        omega (arith, length-append xs ys),
        λ q h. elim (old' q h) [
          | inr y ↦ inr (IsIn-right q xs ys y)
          | inl h' ↦ elim (old q h') [ inl o ↦ inl o | inr x ↦ inr (IsIn-left q xs ys x) ]
        ],
      );
    }

pub Scarce-Takes : {s t : Vm} (m n k : ℕ) → m + n ≤ k → Takes s t m → Scarce t n → Scarce s k
Scarce-Takes {s} {t} m n k le a b =
    let (xs, few, old) = a.pages in
    let (ys, few', all) = b.pages in
    record {
      pages = (
        xs ++ ys,
        omega (arith, length-append xs ys),
        λ q lt free. elim (Bool-cases (used t.pages.bitmap q)) [
          | inr f ↦ IsIn-right q xs ys (all q (omega (arith, a.size)) f)
          | inl u ↦ elim (old q u) [ inl o ↦ absurd (cc) | inr x ↦ IsIn-left q xs ys x ]
        ],
      );
    }

pub or_else-none : (x : Option ℕ) → or_else x none ≡ x
or_else-none none = refl
or_else-none (some w) = refl

pub or_else_assoc : (x y z : Option ℕ) → or_else (or_else x y) z ≡ or_else x (or_else y z)
or_else_assoc none y z = refl
or_else_assoc (some w) y z = refl

pub Adds-weaken :
    {A : Type 0} {s : Vm} {top : ℕ} (m n : ℕ) (f g : ℕ → Option ℕ) {r : Run (A × Vm)}
    → m ≤ n
    → ((v : ℕ) → f v ≡ g v)
    → Adds s top m f r
    → Adds s top n g r
Adds-weaken {s} {top} m n f g le same (done {t} at tree root view' takes) =
    done at tree root (λ v. view' v ∙ ap (or_else (view s.mem 3 top v)) (same v))
      (Takes-trans m 0 n (omega arith) takes (Takes-refl t))
Adds-weaken {s} m n f g le same (short few) =
    short (Scarce-Takes 0 m n (omega arith) (Takes-refl s) few)

after-Adds :
    {A : Type 0} {s : Vm} {top : ℕ} (m n : ℕ) (f g : ℕ → Option ℕ) {t : Vm} {r : Run (A × Vm)}
    → ((v : ℕ) → view t.mem 3 top v ≡ or_else (view s.mem 3 top v) (f v))
    → Takes s t m
    → Adds t top n g r
    → Adds s top (m + n) (λ v. or_else (f v) (g v)) r
after-Adds m n f g same takes (short few) = short (Scarce-Takes m n (m + n) (omega arith) takes few)
after-Adds {s} {top} m n f g same takes (done at tree root same' takes') =
    done at tree root
      (λ v.
        same' v
        ∙ ap (λ x. or_else x (g v)) (same v)
        ∙ or_else_assoc (view s.mem 3 top v) (f v) (g v))
      (Takes-trans m n (m + n) (omega arith) takes takes')

-- One command after the other.
pub Adds-then :
    {A B : Type 0} {s : Vm} {top : ℕ} (m n : ℕ) (f g : ℕ → Option ℕ) {r : Run (A × Vm)}
    (k : A → Vm → Run (B × Vm))
    → Adds s top m f r
    → ((a : A) (t : Vm) (at : ℕ → Label)
        → IsTree t at
        → at top ≡ some (3, 0)
        → Adds t top n g (k a t))
    → Adds s top (m + n) (λ v. or_else (f v) (g v)) (and_then r (λ p. k p.0 p.1))
Adds-then {s} m n f g k (short few) next =
    short (Scarce-Takes 0 m (m + n) (omega arith) (Takes-refl s) few)
Adds-then m n f g k (done {a} {t} at tree root same takes) next =
    after-Adds m n f g same takes (next a t at tree root)

pub Adds-none :
    {A : Type 0} (s : Vm) (top : ℕ) (a : A) (at : ℕ → Label)
    → IsTree s at
    → at top ≡ some (3, 0)
    → Adds s top 0 (λ v. none) (ok (a, s))
Adds-none s top a at tree root =
    done at tree root (λ v. sym (or_else-none (view s.mem 3 top v))) (Takes-refl s)

first-cons :
    (e : Entry) (es : List Entry) (v : ℕ)
    → or_else (first (e ∷ []) v) (first es v) ≡ first (e ∷ es) v
first-cons e es v = elim (Bool-cases (page_of v == page_of e.vaddr)) [
  | inl p ↦ rw p refl
  | inr p ↦ rw p refl
]

module _ (s : Vm) (top : ℕ) (e : Entry) where
  -- The view after a call, on each of its ends.
  added-first :
      view s.mem 3 top e.vaddr ≡ none
      → (v : ℕ)
      → (if page_of v == page_of e.vaddr then some (word_of e) else view s.mem 3 top v)
        ≡ or_else (view s.mem 3 top v) (first (e ∷ []) v)
  added-first absent v = elim (Bool-cases (page_of v == page_of e.vaddr)) [
    | inl p ↦
        (let free = view-page s.mem top v e.vaddr ((==_iff _ _).0 p) ∙ absent in rw (p, free) refl)
    | inr p ↦ rw p (sym (or_else-none (view s.mem 3 top v)))
  ]

  exists-first :
      (w : ℕ)
      → view s.mem 3 top e.vaddr ≡ some w
      → (v : ℕ) → view s.mem 3 top v ≡ or_else (view s.mem 3 top v) (first (e ∷ []) v)
  exists-first w present v = elim (Bool-cases (page_of v == page_of e.vaddr)) [
    | inl p ↦
        (let held = view-page s.mem top v e.vaddr ((==_iff _ _).0 p) ∙ present in rw (p, held) refl)
    | inr p ↦ rw p (sym (or_else-none (view s.mem 3 top v)))
  ]

  Mapped-Adds :
      {r : Run (ℤ × Vm)} → Mapped s top e.vaddr e.paddr e.flags r → Adds s top 3 (first (e ∷ [])) r
  Mapped-Adds (few_pages xs few all) = short (record { pages = (xs, omega arith, all) })
  Mapped-Adds (added at tree root absent same takes) =
      done at tree root (λ v. same v ∙ added-first absent v) takes
  Mapped-Adds (exists at w tree root present same takes) =
      done at tree root (λ v. same v ∙ exists-first w present v) takes

pub map_each-Adds :
    (s : Vm) (top : ℕ) (es : List Entry) (at : ℕ → Label)
    → AllPresent es
    → IsTree s at
    → at top ≡ some (3, 0)
    → Adds s top (3 * length es) (first es) (map_each top es s)
unfolding map_each
map_each-Adds s top [] at present tree root = Adds-none s top tt at tree root
map_each-Adds s top (e ∷ es) at present tree root =
    Adds-weaken (3 + 3 * length es) (3 * length (e ∷ es)) _ (first (e ∷ es)) (omega arith)
      (first-cons e es)
      (Adds-then 3 (3 * length es) (first (e ∷ [])) (first es) (λ a. map_each top es)
        (Mapped-Adds s top e (mappage2-Mapped s top e.vaddr e.paddr e.flags present.0 at tree root))
        (λ a t at' tree' root'. map_each-Adds t top es at' present.1 tree' root'))
