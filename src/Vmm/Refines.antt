-- ===== src/Vmm/Refines.antt =====
-- kernel/vmm.c, `mappage2`: it adds one entry to the map that the page tables stand for.
use franklin.Base.{
  ℕ, zero, suc, ◌+◌, ◌*◌, ◌/◌, ◌%◌, ◌^◌, ◌≤◌, ◌<◌, ◌≡◌, ◌≢◌, ◌⊎◌, inl, inr, refl, sym, ◌∙◌, true,
  false, arith, some, Run, ok, fault, Bool-cases, and_then, List, [], ◌∷◌, length,
}
use mathlib.Core.Path.{subst}
use franklin.Text.{Buffer}
use franklin.Bitmap.Laws.{used, pages_of}
use franklin.Pmm.{page_size}
use franklin.Pmm.Scan.{Fits}
use franklin.Vmm.{Vm, slot, index, get_next_level, va2pte}
use franklin.Vmm.Remap.{Leads, Tables}
use franklin.Vmm.Tree.{Label, IsTree, Grown, IsTree-IsTable, NextLevel, next, full}
use franklin.Vmm.Tree.Grow.{get_next_level-NextLevel}
use franklin.Vmm.View.{view, view-Grown}

-- The bits of an address above those that a level uses.
abbrev pub place_of : ℕ → ℕ → ℕ
place_of zero v = v / 2 ^ 21 % 2 ^ 27
place_of (suc zero) v = v / 2 ^ 30 % 2 ^ 18
place_of (suc (suc zero)) v = v / 2 ^ 39 % 2 ^ 9
place_of _ v = 0

pub place_of-step :
    (level v : ℕ)
    → level < 3
    → place_of level v ≡ place_of (suc level) v * 512 + index (suc level) v
place_of-step zero v h = omega arith
place_of-step (suc zero) v h = omega arith
place_of-step (suc (suc zero)) v h = omega arith
place_of-step (suc (suc (suc level))) v h = absurd (omega arith)

-- The number of the page of an address, of whose bits the tables use 48.
abbrev pub page_of : ℕ → ℕ
page_of v = v / page_size % 2 ^ 36

Leads-Grown :
    {s : Vm} {at : ℕ → Label} {t : Vm} {at' : ℕ → Label} {table i n level place : ℕ}
    → Grown s at t at'
    → at table ≡ some (level, place)
    → i < 512
    → Leads s.mem table i n
    → Leads t.mem table i n
Leads-Grown {s} {t} {table} {i} {n} {level} {place} g h li l =
    elim (g.entries table level place i h li) [
      | inl same ↦ record {
        table_ok = l.table_ok;
        present = rw same l.present;
        points = rw same l.points;
      }
      | inr new ↦ absurd (let p = l.present in let q = new.1.absent in cc)
    ]

pub view-Leads :
    (mem : ℕ → ℕ) (level table v n : ℕ)
    → Leads mem table (index (suc level) v) n
    → view mem (suc level) table v ≡ view mem level n v
unfolding view
view-Leads mem level table v n l = rw (l.present, l.points) refl

abbrev pub IsIn : ℕ → List ℕ → Type 0
IsIn q [] = ⊥
IsIn q (x ∷ xs) = (q ≡ x) ⊎ IsIn q xs

-- The pages of `xs` at most, `n` of them at most, have come into use, and none is free again.
pub record Takes (s t : Vm) (n : ℕ) : Type 0 where
  pub size : length t.pages.bitmap ≡ length s.pages.bitmap
  pub keeps : (q : ℕ) → used s.pages.bitmap q ≡ true → used t.pages.bitmap q ≡ true
  pub pages :
      (xs : List ℕ) × (length xs ≤ n)
      × ((q : ℕ) → used t.pages.bitmap q ≡ true → (used s.pages.bitmap q ≡ true) ⊎ IsIn q xs)

-- How a walk that may make tables ends. The view stays as it was; the walk fails only where at
-- most two pages are free.
pub data Walk (s : Vm) (top vaddr : ℕ) : Run (ℕ × Vm) → Type 0 where
  walked :
      {t : Vm} {pml3 pml2 pml1 : ℕ} (at : ℕ → Label)
      → IsTree t at
      → at top ≡ some (3, 0)
      → at pml1 ≡ some (0, place_of 0 vaddr)
      → Tables t.mem top vaddr pml3 pml2 pml1
      → ((v : ℕ) → view t.mem 3 top v ≡ view s.mem 3 top v)
      → Takes s t 3
      → Walk s top vaddr (ok (slot pml1 (index 0 vaddr), t))
  no_memory :
      (xs : List ℕ)
      → length xs ≤ 2
      → ((q : ℕ) → q < pages_of s.pages.bitmap → used s.pages.bitmap q ≡ false → IsIn q xs)
      → Walk s top vaddr fault

pub full-used :
    (bm : Buffer) → ((q : ℕ) → ¬ Fits bm 1 q) → (q : ℕ) → q < pages_of bm → used bm q ≡ true
full-used bm taken q lt = elim (Bool-cases (used bm q)) [
  | inl u ↦ u
  | inr u ↦ absurd (
      taken q
        (record { inside = omega arith; free = λ i a b. (let e : i ≡ q = omega arith in rw e u) }))
]

pub level-ne :
    (at : ℕ → Label) {a b l m x y : ℕ} → at a ≡ some (l, x) → at b ≡ some (m, y) → l ≢ m → a ≢ b
level-ne at {a} {m} {y} h k ne e =
    let h' : at a ≡ some (m, y) = subst (λ c. at c ≡ some (m, y)) (sym e) k in
    ne (ground (arith, h, h'))

-- How far a walk has come: `t` is `s` with new empty tables in the pages `xs`.
record Way (s : Vm) (top : ℕ) (t : Vm) (at : ℕ → Label) (xs : List ℕ) : Type 0 where
  tree : IsTree t at
  root : at top ≡ some (3, 0)
  same : (v : ℕ) → view t.mem 3 top v ≡ view s.mem 3 top v
  size : length t.pages.bitmap ≡ length s.pages.bitmap
  keeps : (q : ℕ) → used s.pages.bitmap q ≡ true → used t.pages.bitmap q ≡ true
  taken : (q : ℕ) → used t.pages.bitmap q ≡ true → (used s.pages.bitmap q ≡ true) ⊎ IsIn q xs

Way-Grown :
    {s : Vm} {top : ℕ} {t : Vm} {at : ℕ → Label} {xs : List ℕ} {u : Vm} {at' : ℕ → Label}
    → Way s top t at xs
    → IsTree u at'
    → (g : Grown t at u at') → Way s top u at' (g.page.0 ∷ xs)
Way-Grown {s} {top} {t} {at} {xs} {u} {at'} w tree g = record {
  tree = tree;
  root = g.extends top _ w.root;
  same = λ v. view-Grown t at u at' w.tree g 3 0 top v w.root ∙ w.same v;
  size = g.size ∙ w.size;
  keeps = λ q h. g.keeps q (w.keeps q h);
  taken = λ q h. elim (g.page.1 q h) [
    | inr new ↦ inr (inl new)
    | inl old ↦ elim (w.taken q old) [ inl a ↦ inl a | inr b ↦ inr (inr b) ]
  ];
}

module _ (s : Vm) (top vaddr : ℕ) where
  out_of_pages :
      (t : Vm) (at : ℕ → Label) (xs : List ℕ)
      → Way s top t at xs
      → length xs ≤ 2
      → ((q : ℕ) → ¬ Fits t.pages.bitmap 1 q)
      → Walk s top vaddr fault
  out_of_pages t at xs w few none_fits = no_memory xs few λ q lt free.
      elim (w.taken q (full-used t.pages.bitmap none_fits q (omega (arith, w.size)))) [
        | inl u ↦ absurd (cc)
        | inr x ↦ x
      ]

  after1 :
      (t : Vm) (at : ℕ → Label) (xs : List ℕ) (pml3 pml2 : ℕ) {r : Run (ℕ × Vm)}
      → Way s top t at xs
      → length xs ≤ 2
      → Leads t.mem top (index 3 vaddr) pml3
      → Leads t.mem pml3 (index 2 vaddr) pml2
      → at pml3 ≡ some (2, place_of 2 vaddr)
      → at pml2 ≡ some (1, place_of 1 vaddr)
      → NextLevel t at pml2 (index 1 vaddr) 0 (place_of 1 vaddr) r
      → Walk s top vaddr (and_then r (λ p. ok (slot p.0 (index 0 vaddr), p.1)))
  after1 t at xs pml3 pml2 w few l3 l2 h3 h2 (full none_fits) = out_of_pages t at xs w few none_fits
  after1 t at xs pml3 pml2 w few l3 l2 h3 h2 (next {n} {t = u} at' tree g h1 l1) =
      let w' = Way-Grown w tree g in
      let label : at' n ≡ some (0, place_of 0 vaddr) =
        rw (place_of-step 0 vaddr (omega arith)) h1 in
      walked at' tree w'.root label
        (record {
          third = Leads-Grown g w.root (omega arith) l3;
          second = Leads-Grown g h3 (omega arith) l2;
          first = l1;
          last_ok = IsTree-IsTable tree n _ label;
          not_top = level-ne at' label w'.root (omega arith);
          not_third = level-ne at' label (g.extends pml3 _ h3) (omega arith);
          not_second = level-ne at' label (g.extends pml2 _ h2) (omega arith);
        })
        w'.same
        (record {
          size = w'.size;
          keeps = w'.keeps;
          pages = (g.page.0 ∷ xs, omega arith, w'.taken);
        })

  after2 :
      (t : Vm) (at : ℕ → Label) (xs : List ℕ) (pml3 : ℕ) {r : Run (ℕ × Vm)}
      → Way s top t at xs
      → length xs ≤ 1
      → Leads t.mem top (index 3 vaddr) pml3
      → at pml3 ≡ some (2, place_of 2 vaddr)
      → NextLevel t at pml3 (index 2 vaddr) 1 (place_of 2 vaddr) r
      → Walk s top vaddr (
          and_then r (λ p.
            and_then
              (get_next_level p.0 (index 1 vaddr) true p.1)
              (λ p'. ok (slot p'.0 (index 0 vaddr), p'.1))))
  after2 t at xs pml3 w few l3 h3 (full none_fits) = out_of_pages t at xs w (omega arith) none_fits
  after2 t at xs pml3 w few l3 h3 (next {n} {t = u} at' tree g h2 l2) =
      let label : at' n ≡ some (1, place_of 1 vaddr) =
        rw (place_of-step 1 vaddr (omega arith)) h2 in
      after1 u at' (g.page.0 ∷ xs) pml3 n (Way-Grown w tree g) (omega arith)
        (Leads-Grown g w.root (omega arith) l3) l2 (g.extends pml3 _ h3) label
        (get_next_level-NextLevel u at' n (index 1 vaddr) 0 (place_of 1 vaddr) tree label
          (omega arith))

  after3 :
      (at : ℕ → Label) {r : Run (ℕ × Vm)}
      → Way s top s at []
      → NextLevel s at top (index 3 vaddr) 2 0 r
      → Walk s top vaddr (
          and_then r (λ p. and_then (get_next_level p.0 (index 2 vaddr) true p.1) (λ p'.
            and_then
              (get_next_level p'.0 (index 1 vaddr) true p'.1)
              (λ p''. ok (slot p''.0 (index 0 vaddr), p''.1)))))
  after3 at w (full none_fits) = out_of_pages s at [] w (omega arith) none_fits
  after3 at w (next {n} {t = u} at' tree g h3 l3) =
      let label : at' n ≡ some (2, place_of 2 vaddr) =
        rw (place_of-step 2 vaddr (omega arith)) h3 in
      after2 u at' (g.page.0 ∷ []) n (Way-Grown w tree g) (omega arith) l3 label (
        get_next_level-NextLevel u at' n (index 2 vaddr) 1 (place_of 2 vaddr) tree label
          (omega arith))

  pub va2pte-Walk :
      (at : ℕ → Label)
      → IsTree s at
      → at top ≡ some (3, 0)
      → Walk s top vaddr (va2pte top vaddr true s)
  unfolding va2pte
  va2pte-Walk at tree root =
      after3 at
        (record {
          tree = tree;
          root = root;
          same = λ v. refl;
          size = refl;
          keeps = λ q u. u;
          taken = λ q u. inl u;
        })
        (get_next_level-NextLevel s at top (index 3 vaddr) 2 0 tree root (omega arith))
