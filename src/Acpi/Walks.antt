-- ===== src/Acpi/Walks.antt =====
-- kernel/acpi.c and kernel/apic.c: where the walks end.
use franklin.Base.{
  ℕ, zero, suc, ◌+◌, ◌%◌, ◌^◌, ◌<◌, ◌≡◌, ◌≢◌, refl, sym, arith, true, false, ◌==◌, ltb, Run, ok,
  panicked, fault, stuck, out_of_fuel, and_then,
}
use franklin.Text.{Buffer}
use franklin.Acpi.{header_at, find_sdt, get_acpi_sdt, Madt, visit, madt_loop, walk_madt}

add_zero : (j : ℕ) → 0 + j ≡ j
add_zero j = omega arith

module _ (entry signature_at : ℕ → ℕ) (signature : ℕ) where
  find_sdt-found :
      (k spare i : ℕ)
      → signature_at (header_at entry (i + k)) ≡ signature
      → ((j : ℕ) → j < k → signature_at (header_at entry (i + j)) ≢ signature)
      → find_sdt entry signature_at signature (suc k + spare) i ≡ ok (header_at entry (i + k))
  unfolding find_sdt
  find_sdt-found zero spare i here before =
      let r : suc 0 + spare ≡ suc spare = omega arith in
      let e : i + 0 ≡ i = omega arith in
      let at' : signature_at (header_at entry i) ≡ signature = rw e at here in
      let yes' : (signature_at (header_at entry i) == signature) ≡ true = ground (arith, at') in
      rw (r, e) (rw yes' refl)
  find_sdt-found (suc k) spare i here before =
      let r : suc (suc k) + spare ≡ suc (suc k + spare) = omega arith in
      let e : i + suc k ≡ i + 1 + k = omega arith in
      let z : i + 0 ≡ i = omega arith in
      let ne : signature_at (header_at entry i) ≢ signature = rw z at (before 0 (omega arith)) in
      let no' : (signature_at (header_at entry i) == signature) ≡ false = ground (arith, ne) in
      let ih : find_sdt entry signature_at signature (suc k + spare) (i + 1)
          ≡ ok (header_at entry (i + 1 + k)) =
        find_sdt-found k spare (i + 1) (rw e at here) (λ j lt.
          (let s : i + suc j ≡ i + 1 + j = omega arith in
            rw s at (before (suc j) (omega arith)))) in
      rw (r, e) (rw no' ih)

  find_sdt-missing :
      (rounds i : ℕ)
      → ((j : ℕ) → signature_at (header_at entry j) ≢ signature)
      → find_sdt entry signature_at signature rounds i ≡ out_of_fuel
  unfolding find_sdt
  find_sdt-missing zero i missing = refl
  find_sdt-missing (suc rounds) i missing =
      let ne = missing i in
      let no' : (signature_at (header_at entry i) == signature) ≡ false = ground (arith, ne) in
      rw no' (find_sdt-missing rounds (i + 1) missing)

  -- `get_acpi_sdt` returns the header of the first entry that points to the signature, after one
  -- round for each entry up to it.
  get_acpi_sdt-found :
      (k spare : ℕ)
      → signature_at (header_at entry k) ≡ signature
      → ((j : ℕ) → j < k → signature_at (header_at entry j) ≢ signature)
      → get_acpi_sdt entry signature_at signature (suc k + spare) ≡ ok (header_at entry k)
  unfolding get_acpi_sdt
  get_acpi_sdt-found k spare here before =
      let e = λ (j : ℕ). add_zero j in
      rw (e k) at (
        find_sdt-found k spare 0 (rw (sym (e k)) at here) (λ j lt. rw (sym (e j)) at (before j lt)))

  -- Where no entry does, those behind the table among them, no number of rounds is enough.
  get_acpi_sdt-missing :
      (rounds : ℕ)
      → ((j : ℕ) → signature_at (header_at entry j) ≢ signature)
      → get_acpi_sdt entry signature_at signature rounds ≡ out_of_fuel
  unfolding get_acpi_sdt
  get_acpi_sdt-missing rounds missing = find_sdt-missing rounds 0 missing

module _ (entry : ℕ → ℕ) (length : ℕ) where
  -- The lengths of the entries from `i` up to one that has the length 0, before the end.
  abbrev pub ReachesZero : ℕ → ℕ → Type 0
  ReachesZero zero i = (i < length) × (entry (i + 1) ≡ 0)
  ReachesZero (suc n) i = (i < length) × ReachesZero n ((i + entry (i + 1)) % 2 ^ 32)

  never_ok :
      {A B : Type 0} (r : Run A) (k : A → Run B) (b : B)
      → ((a : A) → k a ≢ ok b)
      → and_then r k ≢ ok b
  never_ok (ok a) k b h e = h a e
  never_ok panicked k b h e = cc
  never_ok fault k b h e = cc
  never_ok stuck k b h e = cc
  never_ok out_of_fuel k b h e = cc

  returned :
      (r : Run Madt) (v : ℕ) → ((t : Madt) → r ≢ ok t) → and_then r (λ s. ok s.nmi_lint) ≢ ok v
  returned (ok t) v h = λ e. h t refl
  returned panicked v h = λ e. cc
  returned fault v h = λ e. cc
  returned stuck v h = λ e. cc
  returned out_of_fuel v h = λ e. cc

  madt_loop-stays :
      (rounds i : ℕ) (s t : Madt)
      → i < length
      → i < 2 ^ 32
      → entry (i + 1) ≡ 0
      → madt_loop entry length rounds i s ≢ ok t
  unfolding madt_loop
  madt_loop-stays zero i s t lt small z = λ e. cc
  madt_loop-stays (suc rounds) i s t lt small z =
      let inside : ltb i length ≡ true = ground arith in
      let same : (i + entry (i + 1)) % 2 ^ 32 ≡ i = omega (arith, z) in
      rw (inside, same)
        (never_ok (visit entry i s) (λ s'. madt_loop entry length rounds i s') t
          (λ s'. madt_loop-stays rounds i s' t lt small z))

  madt_loop-ReachesZero :
      (n rounds i : ℕ) (s t : Madt)
      → i < 2 ^ 32
      → ReachesZero n i
      → madt_loop entry length rounds i s ≢ ok t
  unfolding madt_loop
  madt_loop-ReachesZero zero rounds i s t small h = madt_loop-stays rounds i s t h.0 small h.1
  madt_loop-ReachesZero (suc n) zero i s t small h = λ e. cc
  madt_loop-ReachesZero (suc n) (suc rounds) i s t small h =
      let inside : ltb i length ≡ true = (let lt = h.0 in ground (arith, lt)) in
      rw inside (
        never_ok (visit entry i s)
          (λ s'. madt_loop entry length rounds ((i + entry (i + 1)) % 2 ^ 32) s') t
          (λ s'.
            madt_loop-ReachesZero n rounds ((i + entry (i + 1)) % 2 ^ 32) s' t (omega arith) h.1))

  -- If the walk over the entries comes to one with the length 0 before it has gone as far as the
  -- length of the whole table, the header included, `walk_madt` does not return: no number of
  -- rounds is enough.
  pub walk_madt-ReachesZero :
      (n nmi_lint : ℕ) (array : Buffer) (rounds v : ℕ)
      → ReachesZero n 0
      → walk_madt entry length nmi_lint array rounds ≢ ok v
  unfolding walk_madt
  walk_madt-ReachesZero n nmi_lint array rounds v h =
      let s0 : Madt = record { lapic_id = array; x = 1; nmi_lint = nmi_lint } in
      returned (madt_loop entry length rounds 0 s0) v
        (λ t. madt_loop-ReachesZero n rounds 0 s0 t (omega arith) h)
