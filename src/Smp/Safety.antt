-- ===== src/Smp/Safety.antt =====
-- kernel/proc.c: two processors never run on the same stack.
use franklin.Base.{
  ℕ, ◌<◌, ◌≡◌, ◌≢◌, ◌⊎◌, inl, inr, refl, sym, ◌∙◌, Bool, true, false, arith, ℕ_discrete, Bool-cases,
  ==_refl,
}
use franklin.Proc.{Procstate}
use mathlib.Core.Path.{fun_ext, subst}
use franklin.Spin.{is_inside, update}
use franklin.Spin
use franklin.Spin.Safety
use franklin.Smp.{Cpu, System, Move, Step, Steps, init}
use franklin.Smp.Table.{
  stand, is_starting, first, second, Mine, Move-frame, Move-Mine, Move-slots, Move-used,
  slots-running, Mine-frame,
}
use franklin.Smp.Refines.{lock_of, Steps-lock}

-- Processor `i` has slot `q`.
abbrev pub HasSlot : ℕ → Cpu → ℕ → Type 0
HasSlot i c q = (q ≡ first i c) ⊎ (q ≡ second i c)

abbrev pub Has : System → ℕ → ℕ → Type 0
Has s i q = HasSlot i (s.cpu i) q

-- `live` are the slots that can come into use.
record Inv (live : ℕ → Bool) (n : ℕ) (s : System) : Type 0 where
  mine : (i : ℕ) → i < n → Mine s.states i (s.cpu i)
  known : (q : ℕ) → s.states q ≢ Procstate.unused → live q ≡ true
  apart : (i j q : ℕ) → i < n → j < n → i ≢ j → Has s i q → ¬ Has s j q

-- The system after a step of processor `i`.
abbrev after : System → ℕ → ℕ → (ℕ → Procstate) → Cpu → System
after s i lock states c = record { lock = lock; states = states; cpu = update s.cpu i c }

module _ {pid : ℕ → ℕ} {live : ℕ → Bool} {n : ℕ} {s : System}
    (own : (i : ℕ) → i < n → live i ≡ true)
    (ids : (p q : ℕ) → live p ≡ true → live q ≡ true → pid p ≡ pid q → p ≡ q) (v : Inv live n s)
    (one : Spin.Safety.Inv n (lock_of s)) (i : ℕ) (lt : i < n) {lock : ℕ} {states : ℕ → Procstate}
    {c : Cpu} (m : Move pid i s (s.cpu i) lock states c) where
  -- A slot of another processor keeps its state.
  other-state : (j : ℕ) → j < n → i ≢ j → (q : ℕ) → Has s j q → states q ≡ s.states q
  other-state j ltj ne q has = elim (Move-frame m (v.mine i lt) q) [
    | inl same ↦ same
    | inr at' ↦ absurd (v.apart i j q lt ltj ne (inr at'.0) has)
  ]

  -- If the step needs the lock, another processor is not inside.
  other-outside :
      (j : ℕ)
      → i ≢ j
      → is_inside (stand (s.cpu i).pc) ≡ true
      → is_inside (stand (s.cpu j).pc) ≡ false
  other-outside j ne here = elim (Bool-cases (is_inside (stand (s.cpu j).pc))) [
    | inl there ↦ absurd (ne (one.one i j here there))
    | inr out ↦ out
  ]

  other-Mine : (j : ℕ) → j < n → i ≢ j → Mine states j (s.cpu j)
  other-Mine j ltj ne = elim (Bool-cases (is_inside (stand (s.cpu j).pc))) [
    | inl there ↦
        subst (λ (st : ℕ → Procstate). Mine st j (s.cpu j)) (fun_ext (λ q. sym (all-same there q)))
          (v.mine j ltj)
    | inr out ↦
        Mine-frame s.states states j (s.cpu j).current (s.cpu j).on (s.cpu j).pc out
          (other-state j ltj ne (second j (s.cpu j)) (inr refl)) (v.mine j ltj)
  ]
    where
      all-same : is_inside (stand (s.cpu j).pc) ≡ true → (q : ℕ) → states q ≡ s.states q
      all-same there q = elim (Move-frame m (v.mine i lt) q) [
        | inl same ↦ same
        | inr at' ↦ absurd (ne (one.one i j at'.1 there))
      ]

  after-apart : (j : ℕ) → j < n → i ≢ j → (q : ℕ) → (q ≡ first i c) ⊎ (q ≡ second i c) → ¬ Has s j q
  after-apart j ltj ne q mine has = elim (Move-slots m (v.mine i lt) q mine) [
    | inl a ↦ v.apart i j q lt ltj ne (inl a) has
    | inr r ↦ elim r [
      | inl b ↦ v.apart i j q lt ltj ne (inr b) has
      | inr new ↦
          slots-running s.states j (s.cpu j).current (s.cpu j).on (s.cpu j).pc q (v.mine j ltj)
            (other-outside j ne new.1) has new.0
    ]
  ]

  cpu_self : (after s i lock states c).cpu i ≡ c
  cpu_self = rw (==_refl i) refl

  cpu_other : (j : ℕ) → i ≢ j → (after s i lock states c).cpu j ≡ s.cpu j
  cpu_other j ne = ground arith

  Step-Mine : (j : ℕ) → j < n → Mine states j ((after s i lock states c).cpu j)
  Step-Mine j ltj = elim (ℕ_discrete i j) [
    | yes e ↦
        subst (λ k. Mine states k ((after s i lock states c).cpu k)) e
          (rw cpu_self (Move-Mine (λ p q a b. ids p q (v.known p a) (v.known q b)) m (v.mine i lt)))
    | no ne ↦ rw (cpu_other j ne) (other-Mine j ltj ne)
  ]

  Has-self : (j q : ℕ) → i ≡ j → Has (after s i lock states c) j q → HasSlot i c q
  Has-self j q e h =
      let h' : Has (after s i lock states c) i q =
        subst (λ k. Has (after s i lock states c) k q) (sym e) h in
      subst (λ d. HasSlot i d q) cpu_self h'

  Has-other : (j q : ℕ) → i ≢ j → Has (after s i lock states c) j q → Has s j q
  Has-other j q ne h = subst (λ d. HasSlot j d q) (cpu_other j ne) h

  Step-apart :
      (j k q : ℕ)
      → j < n
      → k < n
      → j ≢ k
      → Has (after s i lock states c) j q
      → ¬ Has (after s i lock states c) k q
  Step-apart j k q ltj ltk ne a b = elim (ℕ_discrete i j) [
    | yes e ↦
        (let nek : i ≢ k = λ e'. ne (sym e ∙ e') in
          after-apart k ltk nek q (Has-self j q e a) (Has-other k q nek b))
    | no nej ↦ elim (ℕ_discrete i k) [
      | yes e ↦ after-apart j ltj nej q (Has-self k q e b) (Has-other j q nej a)
      | no nek ↦ v.apart j k q ltj ltk ne (Has-other j q nej a) (Has-other k q nek b)
    ]
  ]

  move-Inv : Inv live n (after s i lock states c)
  move-Inv = record {
    mine = Step-Mine;
    known = λ q used. elim (Move-used m (v.mine i lt) q used) [
      | inl before ↦ v.known q before
      | inr mine ↦ rw mine (own i lt)
    ];
    apart = Step-apart;
  }

module _ (pid : ℕ → ℕ) (live : ℕ → Bool) (n : ℕ) (states : ℕ → Procstate)
    (own : (i : ℕ) → i < n → live i ≡ true)
    (ids : (p q : ℕ) → live p ≡ true → live q ≡ true → pid p ≡ pid q → p ≡ q)
    (fresh : (i : ℕ) → i < n → states i ≡ Procstate.unused)
    (used : (p : ℕ) → states p ≢ Procstate.unused → live p ≡ true) where
  Inv-init : Inv live n (init states)
  Inv-init = record {
    mine = λ i lt. fresh i lt;
    known = used;
    apart = λ i j q lti ltj ne a b. ground arith;
  }

  Steps-Inv : {s : System} → Steps pid n (init states) s → Inv live n s
  Steps-Inv Steps.here = Inv-init
  Steps-Inv (Steps.next {t} r (Step.move i lt m)) =
      move-Inv own ids (Steps-Inv r)
        (Spin.Safety.Steps-Inv (Steps-lock pid n (init states) t r) (Spin.Safety.Inv-init n)) i lt m

  -- Whatever the order of their steps, two processors that have started are never on the stack of
  -- one process, nor is one process the current one of both.
  pub separate_stacks :
      (s : System)
      → Steps pid n (init states) s
      → (i j : ℕ) → i < n
      → j < n
      → i ≢ j
      → is_starting (s.cpu i).pc ≡ false
      → is_starting (s.cpu j).pc ≡ false
      → ((s.cpu i).on ≢ (s.cpu j).on) × ((s.cpu i).current ≢ (s.cpu j).current)
  separate_stacks s r i j lti ltj ne a b =
      let v = Steps-Inv r in
      let apart : (q : ℕ) → Has s i q → ¬ Has s j q = λ q. v.apart i j q lti ltj ne in
      (
        λ e. apart (s.cpu i).on (inl (ground arith)) (inl (ground arith)),
        λ e. apart (s.cpu i).current (inr (ground arith)) (inr (ground arith)),
      )
