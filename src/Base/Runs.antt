-- ===== src/Base/Runs.antt =====
-- How a call ends, and commands that pass a state on.
use mathlib.Core.Option.{Option, none, some}

-- `ok` is a normal return. `panicked` is the halt after `panic`, `fault` an access outside the
-- objects that are allocated, `stuck` a spin on a lock that nobody releases or a loop without
-- end, and `out_of_fuel` a loop that was given too few rounds.
pub data Run {ℓ} (A : Type ℓ) : Type ℓ where
  ok : A → Run A
  panicked : Run A
  fault : Run A
  stuck : Run A
  out_of_fuel : Run A

abbrev pub and_then {ℓ κ} : {A : Type ℓ} {B : Type κ} → Run A → (A → Run B) → Run B
and_then (ok a) k = k a
and_then panicked k = panicked
and_then fault k = fault
and_then stuck k = stuck
and_then out_of_fuel k = out_of_fuel

-- What an access finds, or a fault.
abbrev pub or_fault {ℓ} : {A : Type ℓ} → Option A → Run A
or_fault none = fault
or_fault (some a) = ok a

-- A command over a state.
abbrev pub Cmd : Type 0 → Type 0 → Type 0
Cmd S A = S → Run (A × S)

module _ {S : Type 0} where
  abbrev pub pure : {A : Type 0} → A → Cmd S A
  pure a s = ok (a, s)

  abbrev pub lift : {A : Type 0} → Run A → Cmd S A
  lift r s = and_then r (λ a. ok (a, s))

  abbrev pub gets : {A : Type 0} → (S → A) → Cmd S A
  gets f s = ok (f s, s)

  abbrev pub modify : (S → S) → Cmd S (Unit {0})
  modify f s = ok (tt, f s)

  infixl 5 ◌>>=◌ ◌>>◌
  abbrev pub ◌>>=◌ : {A B : Type 0} → Cmd S A → (A → Cmd S B) → Cmd S B
  ◌>>=◌ m f s = and_then (m s) (λ p. f p.0 p.1)

  abbrev pub ◌>>◌ : {A B : Type 0} → Cmd S A → Cmd S B → Cmd S B
  m >> k = m >>= λ _. k
