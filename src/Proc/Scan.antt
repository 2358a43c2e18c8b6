-- ===== src/Proc/Scan.antt =====
-- kernel/proc.c, `getproc` and the loop of `scheduler`: which slot is found.
use franklin.Base.{
  ℕ, zero, suc, ◌+◌, ◌-◌, ◌≤◌, ◌<◌, ◌≡◌, refl, sym, ◌∙◌, Bool, true, false, arith, Option, none,
  some, List, [], ◌∷◌, drop, Run, ok, out_of_fuel, Bool-cases, inl, inr,
}
use franklin.Proc.{Procstate, is_state, Proc, scan_procs, getproc, next_round, pick}

-- Whether the process in a slot has that state; a slot behind the table has none.
unfoldable pub in_state : Procstate → List Proc → ℕ → Bool
in_state st [] i = false
in_state st (p ∷ ps) zero = is_state p.state st
in_state st (p ∷ ps) (suc i) = in_state st ps i

-- The first slot from `i` on that has the state.
pub record FirstFrom (st : Procstate) (table : List Proc) (i p : ℕ) : Type 0 where
  pub here : in_state st table p ≡ true
  pub from : i ≤ p
  pub first : (q : ℕ) → i ≤ q → q < p → in_state st table q ≡ false

pub data Scanned (st : Procstate) (table : List Proc) (i : ℕ) : Option ℕ → Type 0 where
  hit : {p : ℕ} → FirstFrom st table i p → Scanned st table i (some p)
  miss : ((q : ℕ) → i ≤ q → in_state st table q ≡ false) → Scanned st table i none

in_state-drop :
    (st : Procstate) (table : List Proc) (i q : ℕ)
    → in_state st (drop i table) q ≡ in_state st table (i + q)
unfolding in_state
in_state-drop st table zero q = (let e : 0 + q ≡ q = omega arith in rw e)
in_state-drop st [] (suc i) q = refl
in_state-drop st (p ∷ ps) (suc i) q =
    let e : suc i + q ≡ suc (i + q) = omega arith in rw e (in_state-drop st ps i q)

-- The scan of a list whose first entry stands in slot `i`.
-- The scan of a list whose first entry stands in slot `i`.
data Walked (st : Procstate) (ps : List Proc) (i : ℕ) : Option ℕ → Type 0 where
  stop :
      (k p : ℕ)
      → p ≡ i + k
      → in_state st ps k ≡ true
      → ((q : ℕ) → q < k → in_state st ps q ≡ false)
      → Walked st ps i (some p)
  end : ((q : ℕ) → in_state st ps q ≡ false) → Walked st ps i none

Walked-later :
    {st : Procstate} {p : Proc} {ps : List Proc} {i : ℕ} {o : Option ℕ}
    → is_state p.state st ≡ false
    → Walked st ps (i + 1) o
    → Walked st (p ∷ ps) i o
unfolding in_state
Walked-later {st} {p = p'} {ps} no' (stop k p e h f) =
    stop (suc k) p (omega arith) h (λ q lt. before q lt)
  where
    before : (q : ℕ) → q < suc k → in_state st (p' ∷ ps) q ≡ false
    before zero lt = no'
    before (suc q) lt = f q (omega arith)
Walked-later {st} {p} {ps} no' (end f) = end (λ q. nowhere q)
  where
    nowhere : (q : ℕ) → in_state st (p ∷ ps) q ≡ false
    nowhere zero = no'
    nowhere (suc q) = f q

scan_procs-Walked :
    (st : Procstate) (ps : List Proc) (i : ℕ) → Walked st ps i ((scan_procs st ps i).0)
unfolding scan_procs in_state
scan_procs-Walked st [] i = end (λ q. refl)
scan_procs-Walked st (p ∷ ps) i = elim (Bool-cases (is_state p.state st)) [
  | inl yes' ↦ rw yes' (stop 0 i (omega arith) yes' (λ q lt. absurd (omega arith)))
  | inr no' ↦ rw no' (Walked-later no' (scan_procs-Walked st ps (i + 1)))
]

back :
    (st : Procstate) (table : List Proc) (i q : ℕ)
    → i ≤ q
    → in_state st (drop i table) (q - i) ≡ false
    → in_state st table q ≡ false
back st table i q le h =
    let e : i + (q - i) ≡ q = omega arith in rw e at (sym (in_state-drop st table i (q - i)) ∙ h)

Walked-Scanned :
    {st : Procstate} {table : List Proc} {i : ℕ} {o : Option ℕ}
    → Walked st (drop i table) i o
    → Scanned st table i o
Walked-Scanned {st} {table} {i} (stop k p e h f) = hit (record {
  here = rw e (sym (in_state-drop st table i k) ∙ h);
  from = omega arith;
  first = λ q le lt. back _ _ _ q le (f (q - i) (omega arith));
})
Walked-Scanned {i = i} (end f) = miss (λ q le. back _ _ _ q le (f (q - i)))

-- `getproc` finds the first slot from `index` on whose process has the state, and nothing if
-- there is none.
pub getproc-Scanned :
    (st : Procstate) (table : List Proc) (i : ℕ) → Scanned st table i ((getproc st table i).0)
unfolding getproc
getproc-Scanned st table i = Walked-Scanned (scan_procs-Walked st (drop i table) i)

-- How the scheduler's loop ends with two rounds or more: it takes the first runnable process from
-- slot `i` on, or else the first of all; with none at all no number of rounds is enough.
pub data Picked (table : List Proc) (i : ℕ) : Run ℕ → Type 0 where
  ahead : {p : ℕ} → FirstFrom Procstate.runnable table i p → Picked table i (ok p)
  around :
      {p : ℕ}
      → ((q : ℕ) → i ≤ q → in_state Procstate.runnable table q ≡ false)
      → FirstFrom Procstate.runnable table 0 p
      → Picked table i (ok p)
  never : ((q : ℕ) → in_state Procstate.runnable table q ≡ false) → Picked table i out_of_fuel

pick-never :
    (rounds : ℕ) (table : List Proc) (i : ℕ)
    → ((q : ℕ) → in_state Procstate.runnable table q ≡ false)
    → pick rounds table i ≡ out_of_fuel
unfolding pick
pick-never zero table i no' = refl
pick-never (suc rounds) table i no' =
    go (getproc-Scanned Procstate.runnable table i) (pick-never rounds table 0 no')
  where
    go :
        {o : Option ℕ} {rest : Run ℕ}
        → Scanned Procstate.runnable table i o
        → rest ≡ out_of_fuel
        → next_round o rest ≡ out_of_fuel
    go (hit f) e = (let clash : true ≡ false = sym f.here ∙ no' _ in cc)
    go (miss f) e = e

-- The loop of `scheduler` takes the first runnable process from slot `i` on, or else the first of
-- all, in two rounds; with no runnable process it does not end.
pub pick-Picked :
    (more : ℕ) (table : List Proc) (i : ℕ) → Picked table i (pick (suc (suc more)) table i)
unfolding pick
pick-Picked more table i =
    first_round (getproc-Scanned Procstate.runnable table i)
      (getproc-Scanned Procstate.runnable table 0) (λ no'. pick-never more table 0 no')
  where
    first_round :
        {o o' : Option ℕ} {rest : Run ℕ}
        → Scanned Procstate.runnable table i o
        → Scanned Procstate.runnable table 0 o'
        → (((q : ℕ) → in_state Procstate.runnable table q ≡ false) → rest ≡ out_of_fuel)
        → Picked table i (next_round o (next_round o' rest))
    first_round (hit f) second spin = ahead f
    first_round (miss f) (hit g) spin = around f g
    first_round (miss f) (miss g) spin =
        (let e = spin (λ q. g q (omega arith)) in rw e (never (λ q. g q (omega arith))))
