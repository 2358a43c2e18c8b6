-- ===== src/Gdt/Tss.antt =====
-- kernel/gdt.c: the segments that the processor finds in the table.
use franklin.Base.{
  bit_or, ◌≢◌, ℕ, zero, suc, ◌+◌, ◌*◌, ◌/◌, ◌%◌, ◌^◌, ◌≤◌, ◌<◌, ◌≡◌, refl, arith, List, [], ◌∷◌,
  length, get_elem?, ◌⊎◌, ◌↔◌, some,
}
use native.Mathlib.Nat.{mod-eq_of_lt}
use franklin.Exec.Words.{Memory}
use franklin.Gdt.{ltr, put_bytes, add_desc, load_tss}
use franklin.Gdt.Segments.{segment_at, high_at}

-- `load_tss` of an address leaves at index 9 a task state segment that is busy, since the task
-- register has it, with the limit 0x67. The processor takes the address for its base exactly if
-- the byte of the bits 24 to 31, which is not written, has these bits already.
pub load_tss-segment_at :
    (addr : ℕ) (m : Memory)
    → addr < 2 ^ 64
    → m 79 < 2 ^ 8
    → (segment_at (load_tss addr m) 9
        ≡ record { base = addr % 2 ^ 24 + 2 ^ 24 * m 79; limit = 0x67; access = 0x8b; flags = 0 })
      × (high_at (load_tss addr m) 9 ≡ addr / 2 ^ 32)
      × ((addr % 2 ^ 24 + 2 ^ 24 * m 79 + 2 ^ 32 * (addr / 2 ^ 32) ≡ addr)
          ↔ (m 79 ≡ addr / 2 ^ 24 % 2 ^ 8))
unfolding load_tss ltr segment_at high_at
load_tss-segment_at addr m h k =
    let e : addr % 2 ^ 8 + 2 ^ 8 * (addr / 2 ^ 8 % 2 ^ 8) + 2 ^ 16 * (addr / 2 ^ 16 % 2 ^ 8)
        ≡ addr % 2 ^ 24 =
      omega arith in
    let e0 : m 78 / 2 ^ 4 * 2 ^ 4 % 2 ^ 4 ≡ 0 = omega arith in
    (rw (e, e0) refl, omega arith, omega arith)

pub put_bytes-outside :
    (a : ℕ) (xs : List ℕ) (m : Memory) (b : ℕ)
    → (b < a) ⊎ (a + length xs ≤ b)
    → put_bytes a xs m b ≡ m b
unfolding put_bytes
put_bytes-outside a [] m b h = refl
put_bytes-outside a (x ∷ xs) m b h = ground (arith, put_bytes-outside (a + 1) xs m b, h)

pub put_bytes-get :
    (a : ℕ) (xs : List ℕ) (m : Memory) (j x : ℕ)
    → get_elem? xs j ≡ some x
    → put_bytes a xs m (a + j) ≡ x
unfolding put_bytes
put_bytes-get a [] m j x e = absurd (cc)
put_bytes-get a (y ∷ xs) m zero x e = ground (arith, e)
put_bytes-get a (y ∷ xs) m (suc j) x e =
    let ih : put_bytes (a + 1) xs m (a + 1 + j) ≡ x = put_bytes-get (a + 1) xs m j x e in
    let at' : a + suc j ≡ a + 1 + j = omega arith in rw at' (ground (arith, ih))

pub segment_at-same :
    (i : ℕ) (m m' : Memory)
    → ((b : ℕ) → 8 * i ≤ b → b < 8 * i + 8 → m' b ≡ m b)
    → segment_at m' i ≡ segment_at m i
unfolding segment_at
segment_at-same i m m' h =
    let at' = λ (j : ℕ) (lt : j < 8). h (8 * i + j) (omega arith) (omega arith) in
    rw
      (
        h (8 * i) (omega arith) (omega arith),
        at' 1 (omega arith),
        at' 2 (omega arith),
        at' 3 (omega arith),
        at' 4 (omega arith),
        at' 5 (omega arith),
        at' 6 (omega arith),
        at' 7 (omega arith),
      )
      refl

pub segment_at-put_bytes :
    (i l0 l1 b0 b1 b2 at fl b3 : ℕ) (rest : List ℕ) (m : Memory)
    → segment_at (put_bytes (8 * i) (l0 ∷ l1 ∷ b0 ∷ b1 ∷ b2 ∷ at ∷ fl ∷ b3 ∷ rest) m) i ≡ record {
      base = b0 + 2 ^ 8 * b1 + 2 ^ 16 * b2 + 2 ^ 24 * b3;
      limit = l0 + 2 ^ 8 * l1 + 2 ^ 16 * (fl % 2 ^ 4);
      access = at;
      flags = fl / 2 ^ 4;
    }
unfolding segment_at
segment_at-put_bytes i l0 l1 b0 b1 b2 at fl b3 rest m =
    let d = l0 ∷ l1 ∷ b0 ∷ b1 ∷ b2 ∷ at ∷ fl ∷ b3 ∷ rest in
    let get = put_bytes-get (8 * i) d m in
    let first : put_bytes (8 * i) d m (8 * i) ≡ l0 =
      (let e : 8 * i + 0 ≡ 8 * i = omega arith in rw e at (get 0 l0 refl)) in
    rw
      (
        first,
        get 1 l1 refl,
        get 2 b0 refl,
        get 3 b1 refl,
        get 4 b2 refl,
        get 5 at refl,
        get 6 fl refl,
        get 7 b3 refl,
      )
      refl

pub add_desc_lem :
    (d : List ℕ) (m : Memory) (i : ℕ)
    → i + 1 < 2 ^ 8
    → add_desc d (record { bytes = m; gdt_index = i })
      ≡ record { bytes = put_bytes (8 * (i + 1)) d m; gdt_index = i + 1 }
unfolding add_desc
add_desc_lem d m i h = let e : (i + 1) % 2 ^ 8 ≡ i + 1 = mod-eq_of_lt h in rw e refl

pub ltr-other : (i : ℕ) (m : Memory) (b : ℕ) → b ≢ 8 * i + 5 → ltr (8 * i) m b ≡ m b
unfolding ltr
ltr-other i m b ne = let e : 8 * i / 8 * 8 + 5 ≡ 8 * i + 5 = omega arith in rw e (ground arith)

ltr-busy : (i : ℕ) (m : Memory) → ltr (8 * i) m (8 * i + 5) ≡ bit_or (m (8 * i + 5)) 2
unfolding ltr
ltr-busy i m = let e : 8 * i / 8 * 8 + 5 ≡ 8 * i + 5 = omega arith in rw e (ground arith)

-- The task register makes the segment busy, and changes nothing else of it.
pub ltr-segment_at :
    (i : ℕ) (m : Memory)
    → segment_at (ltr (8 * i) m) i ≡ record (segment_at m i) { access = bit_or (m (8 * i + 5)) 2 }
unfolding segment_at
ltr-segment_at i m =
    rw
      (
        ltr-other i m (8 * i) (omega arith),
        ltr-other i m (8 * i + 1) (omega arith),
        ltr-other i m (8 * i + 2) (omega arith),
        ltr-other i m (8 * i + 3) (omega arith),
        ltr-other i m (8 * i + 4) (omega arith),
        ltr-other i m (8 * i + 6) (omega arith),
        ltr-other i m (8 * i + 7) (omega arith),
        ltr-busy i m,
      )
      refl
