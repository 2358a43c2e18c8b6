-- ===== src/Base/Commands.antt =====
-- Laws of the commands' syntax.
use mathlib.Core.Path.{◌≡◌, refl}
use franklin.Base.Runs.{Run, ok, panicked, fault, stuck, out_of_fuel, and_then}

pub and_then_assoc :
    {A B C : Type 0} (r : Run A) (f : A → Run B) (g : B → Run C)
    → and_then (and_then r f) g ≡ and_then r (λ a. and_then (f a) g)
and_then_assoc (ok a) f g = refl
and_then_assoc panicked f g = refl
and_then_assoc fault f g = refl
and_then_assoc stuck f g = refl
and_then_assoc out_of_fuel f g = refl

pub and_then_same :
    {A B : Type 0} (r : Run A) (f g : A → Run B)
    → ((a : A) → f a ≡ g a)
    → and_then r f ≡ and_then r g
and_then_same (ok a) f g h = h a
and_then_same panicked f g h = refl
and_then_same fault f g h = refl
and_then_same stuck f g h = refl
and_then_same out_of_fuel f g h = refl

-- A computation that ends well did so in its first part.
pub and_then-ok :
    {A B : Type 0} (r : Run A) (k : A → Run B) (b : B)
    → and_then r k ≡ ok b
    → (a : A) × (r ≡ ok a) × (k a ≡ ok b)
and_then-ok (ok a) k b e = (a, refl, e)
and_then-ok panicked k b e = cc
and_then-ok fault k b e = cc
and_then-ok stuck k b e = cc
and_then-ok out_of_fuel k b e = cc
