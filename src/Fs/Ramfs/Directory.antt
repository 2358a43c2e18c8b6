-- ===== src/Fs/Ramfs/Directory.antt =====
-- fs/ramfs/ramfs.c: the entries of a directory as a map from names to nodes.
use franklin.Base.{
  ℕ, ◌≡◌, ◌≢◌, refl, sym, ◌∙◌, true, false, arith, ◌==◌, if◌then◌else◌, Option, none, some, List,
  [], ◌∷◌, ok, Bool-cases, inl, inr,
}
use mathlib.Core.Path.{subst}
use franklin.Text.{Buffer}
use franklin.Text.Laws.{same, same_iff}
use franklin.Fs.State.{Ptr}
use franklin.Fs.Ramfs.Store.{Dentry}
use franklin.Fs.Ramfs.Entries.{detach}
use franklin.Fs.Ramfs.Names.{first, AllNamed}

-- The bytes up to the terminator.
abbrev pub text_of : Buffer → List ℕ
text_of [] = []
text_of (c ∷ cs) = if c == 0 then [] else c ∷ text_of cs

abbrev pub text : Dentry → List ℕ
text d = text_of d.name

-- The map that the entries stand for.
abbrev pub node_of : List Dentry → List ℕ → Option Ptr
node_of [] t = none
node_of (d ∷ ds) t = if same (text d) t then some d.node else node_of ds t

abbrev pub found_node : Option Dentry → Option Ptr
found_node none = none
found_node (some d) = some d.node

-- No entry has the address or the name of `d`.
abbrev pub DifferFrom : Dentry → List Dentry → Type 0
DifferFrom d [] = Unit {0}
DifferFrom d (e ∷ es) = ((e.addr ≢ d.addr) × (text e ≢ text d)) × DifferFrom d es

abbrev pub Apart : List Dentry → Type 0
Apart [] = Unit {0}
Apart (d ∷ ds) = DifferFrom d ds × Apart ds

same_false : (t u : List ℕ) → t ≢ u → same t u ≡ false
same_false t u h = elim (Bool-cases (same t u)) [
  | inl e ↦ absurd (h ((same_iff t u).0 e))
  | inr e ↦ e
]

same_true : (t u : List ℕ) → t ≡ u → same t u ≡ true
same_true t u h = (same_iff t u).1 h

pub first-node_of :
    (es : List Dentry) (t : List ℕ) → found_node (first (λ d. same (text d) t) es) ≡ node_of es t
first-node_of [] t = refl
first-node_of (d ∷ ds) t = elim (Bool-cases (same (text d) t)) [
  | inl e ↦ rw e refl
  | inr e ↦ rw e (first-node_of ds t)
]

node_of-DifferFrom : (d : Dentry) (ds : List Dentry) → DifferFrom d ds → node_of ds (text d) ≡ none
node_of-DifferFrom d [] h = refl
node_of-DifferFrom d (e ∷ es) h =
    rw (same_false (text e) (text d) h.0.1) (node_of-DifferFrom d es h.1)

first-DifferFrom :
    (c : Dentry) (es : List Dentry) (t : List ℕ) (d : Dentry)
    → DifferFrom c es
    → first (λ e. same (text e) t) es ≡ some d
    → d.addr ≢ c.addr
first-DifferFrom c [] t d h e = cc
first-DifferFrom c (x ∷ es) t d h e = elim (Bool-cases (same (text x) t)) [
  | inl here ↦
      (let same_d : x ≡ d = (let e' : some x ≡ some d = rw here at e in cc) in
        subst (λ (y : Dentry). y.addr ≢ c.addr) same_d h.0.0)
  | inr other ↦ first-DifferFrom c es t d h.1 (rw other at e)
]

-- The entries without the one that has the name `t`.
pub record Removed (t : List ℕ) (es fs : List Dentry) : Type 0 where
  pub nodes : (u : List ℕ) → node_of fs u ≡ (if same t u then none else node_of es u)
  pub named : AllNamed text fs
  pub apart : Apart fs
  pub differ : (c : Dentry) → DifferFrom c es → DifferFrom c fs

module _ (x : Dentry) (es : List Dentry) (t : List ℕ) where
  nodes-here :
      same (text x) t ≡ true
      → DifferFrom x es
      → (u : List ℕ) → node_of es u ≡ (if same t u then none else node_of (x ∷ es) u)
  nodes-here here differ u =
      let xt : text x ≡ t = (same_iff (text x) t).0 here in
      elim (Bool-cases (same t u)) [
        | inl e ↦
            (let xu : text x ≡ u = xt ∙ (same_iff t u).0 e in
              rw e
                (subst (λ (v : List ℕ). node_of es v ≡ none) xu (node_of-DifferFrom x es differ)))
        | inr e ↦
            (let no' : same (text x) u ≡ false =
                subst (λ (v : List ℕ). same v u ≡ false) (sym xt) e in
              rw (e, no') refl)
      ]

  nodes-other :
      (fs : List Dentry)
      → same (text x) t ≡ false
      → ((u : List ℕ) → node_of fs u ≡ (if same t u then none else node_of es u))
      → (u : List ℕ) → node_of (x ∷ fs) u ≡ (if same t u then none else node_of (x ∷ es) u)
  nodes-other fs other ih u = elim (Bool-cases (same (text x) u)) [
    | inl e ↦
        (let xu : text x ≡ u = (same_iff (text x) u).0 e in
          let no' : same t u ≡ false =
            same_false t u (λ p.
              (let yes' : same (text x) t ≡ true = same_true (text x) t (xu ∙ sym p) in cc)) in
          rw (e, no') refl)
    | inr e ↦ rw e (ih u)
  ]

  detach-here :
      AllNamed text (x ∷ es)
      → Apart (x ∷ es)
      → same (text x) t ≡ true
      → (fs : List Dentry) × (detach x.addr (x ∷ es) ≡ ok fs) × Removed t (x ∷ es) fs
  unfolding detach
  detach-here named apart here =
      let self : (x.addr == x.addr) ≡ true = ground arith in
      (
        es,
        rw self refl,
        record {
          nodes = nodes-here here apart.0;
          named = named.1;
          apart = apart.1;
          differ = λ c h. h.1;
        },
      )

pub detach-Removed :
    (es : List Dentry) (t : List ℕ) (d : Dentry)
    → AllNamed text es
    → Apart es
    → first (λ e. same (text e) t) es ≡ some d
    → (fs : List Dentry) × (detach d.addr es ≡ ok fs) × Removed t es fs
unfolding detach
detach-Removed [] t d named apart e = cc
detach-Removed (x ∷ es) t d named apart e = elim (Bool-cases (same (text x) t)) [
  | inl here ↦
      (let same_d : x ≡ d = (let e' : some x ≡ some d = rw here at e in cc) in
        subst
          (λ (y : Dentry).
            (fs : List Dentry) × (detach y.addr (x ∷ es) ≡ ok fs) × Removed t (x ∷ es) fs)
          same_d (detach-here x es t named apart here))
  | inr other ↦
      (let e' : first (λ e. same (text e) t) es ≡ some d = rw other at e in
        let (fs, eq, r) = detach-Removed es t d named.1 apart.1 e' in
        let ne = first-DifferFrom x es t d apart.0 e' in
        let no' : (x.addr == d.addr) ≡ false = ground (arith, ne) in
        (
          x ∷ fs,
          rw (no', eq) refl,
          record {
            nodes = nodes-other x es t fs other r.nodes;
            named = (named.0, r.named);
            apart = (r.differ x apart.0, r.apart);
            differ = λ c h. (h.0, r.differ c h.1);
          },
        ))
]
