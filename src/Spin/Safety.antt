-- ===== src/Spin/Safety.antt =====
-- kernel/spinlock.c: mutual exclusion, and that the lock can always be had.
use franklin.Base.{ℕ, ◌<◌, ◌≡◌, ◌≢◌, ◌⊎◌, inl, inr, refl, true, false, arith, ℕ_discrete}
use franklin.Spin.{Stand, is_inside, Move, System, update, Step, init, Steps}

-- The word is not 0 exactly while some processor is inside, and then there is one only.
pub record Inv (n : ℕ) (s : System) : Type 0 where
  pub one : (i j : ℕ) → is_inside (s.stand i) ≡ true → is_inside (s.stand j) ≡ true → i ≡ j
  pub empty : s.word ≡ 0 → (i : ℕ) → is_inside (s.stand i) ≡ false
  pub held : s.word ≢ 0 → (i : ℕ) × (i < n) × (s.stand i ≡ Stand.inside)

pub Inv-init : (n : ℕ) → Inv n init
Inv-init n = record { one = λ i j a b. cc; empty = λ e i. refl; held = λ ne. absurd (ne refl) }

-- A step that leaves who is inside, and whether the word is 0, as they are.
Inv-same :
    {n : ℕ} {s : System} (i w : ℕ) (p : Stand)
    → is_inside p ≡ is_inside (s.stand i)
    → (p ≡ s.stand i) ⊎ (is_inside p ≡ false)
    → (w ≡ 0 → s.word ≡ 0)
    → (s.word ≡ 0 → w ≡ 0)
    → Inv n s
    → Inv n (record { word = w; stand = update s.stand i p })
Inv-same {n} {s} i w p e same down up v = record {
  one = λ j k a b. ground (arith, v.one j k, e);
  empty = λ z j. ground (arith, v.empty (down z) j, e);
  held = λ ne.
      let (j, lt, h) = v.held (λ z. ne (up z)) in
      (j, lt, elim same [ inl k ↦ ground arith | inr k ↦ ground arith ]);
}

-- Every step of a processor keeps the invariant.
Move-Inv :
    {n : ℕ} {s : System} (i : ℕ) {w : ℕ} {p : Stand}
    → i < n
    → {q : Stand} → s.stand i ≡ q
    → Move s.word q w p
    → Inv n s
    → Inv n (record { word = w; stand = update s.stand i p })
Move-Inv {s} i lt e Move.call v =
    Inv-same i s.word Stand.spinning (ground arith) (inr refl) (λ z. z) (λ z. z) v
Move-Inv {s} i lt e (Move.wait ne) v =
    Inv-same i 1 Stand.spinning (ground arith) (inr refl) (λ z. absurd (omega arith))
      (λ z. absurd (ne z)) v
Move-Inv i lt e (Move.take z) v = record {
  one = λ j k a b. ground (arith, v.empty z j, v.empty z k);
  empty = λ y j. absurd (omega arith);
  held = λ ne. (i, lt, ground arith);
}
Move-Inv i lt e Move.free v = record {
  one = λ j k a b. ground (arith, v.one i j, v.one i k);
  empty = λ y j. ground (arith, v.one i j);
  held = λ ne. absurd (ne refl);
}
Move-Inv {s} i {p} lt e Move.elsewhere v =
    Inv-same i s.word p (ground arith) (inl (ground arith)) (λ z. z) (λ z. z) v

Step-Inv : {n : ℕ} {s t : System} → Step n s t → Inv n s → Inv n t
Step-Inv (Step.move i lt m) v = Move-Inv i lt refl m v

pub Steps-Inv : {n : ℕ} {s t : System} → Steps n s t → Inv n s → Inv n t
Steps-Inv Steps.here v = v
Steps-Inv (Steps.next r st) v = Step-Inv st (Steps-Inv r v)

-- However the steps of `n` processors are ordered, two are never between `acquire` and `release`
-- of the same lock, and none is while the word is 0.
pub mutual_exclusion :
    (n : ℕ) (s : System)
    → Steps n init s
    → ((i j : ℕ) → is_inside (s.stand i) ≡ true → is_inside (s.stand j) ≡ true → i ≡ j)
      × (s.word ≡ 0 → (i : ℕ) → is_inside (s.stand i) ≡ false)
mutual_exclusion n s r = let v = Steps-Inv r (Inv-init n) in (v.one, v.empty)

-- Where a processor spins, either the word is 0 and a step of its own takes it in, or another one
-- is inside, the step in which that one leaves is possible, and the next step takes the first one
-- in: no lock is lost.
pub can_enter :
    (n : ℕ) (s : System) (i : ℕ)
    → Steps n init s
    → i < n
    → s.stand i ≡ Stand.spinning
    → ((s.word ≡ 0) × Step n s (record { word = 1; stand = update s.stand i Stand.inside }))
      ⊎ ((j : ℕ) × (s.stand j ≡ Stand.inside)
          × Step n s (record { word = 0; stand = update s.stand j Stand.outside })
          × Step n
              (record { word = 0; stand = update s.stand j Stand.outside })
              (record { word = 1; stand = update (update s.stand j Stand.outside) i Stand.inside }))
can_enter n s i r lt e =
    let v = Steps-Inv r (Inv-init n) in
    elim (ℕ_discrete s.word 0) [
      | yes z ↦
          (let m : Move s.word (s.stand i) 1 Stand.inside = rw e (Move.take z) in
            inl (z, Step.move i lt m))
      | no ne ↦
          (let (j, below, h) = v.held ne in
            let t : System = record { word = 0; stand = update s.stand j Stand.outside } in
            let m : Move s.word (s.stand j) 0 Stand.outside = rw h Move.free in
            let still : t.stand i ≡ Stand.spinning = ground arith in
            let m' : Move t.word (t.stand i) 1 Stand.inside = rw still (Move.take refl) in
            inr (j, h, Step.move j below m, Step.move i lt m'))
    ]
