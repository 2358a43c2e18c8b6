-- ===== src/Fs/Ramfs/Data/Laws.antt =====
-- fs/ramfs/ramfs.c: what a write leaves in a file, and what a read gets back.
use franklin.Base.{
  int_of, ℕ, zero, suc, ◌+◌, ◌*◌, ◌≤◌, ◌<◌, ◌≡◌, refl, ap, sym, ◌∙◌, false, arith, leb, ltb, Option,
  none, some, [], ◌∷◌, ◌++◌, take, drop, replicate, length, length-append, length-take, length-drop,
  length-replicate, take-append-drop, Run, ok, Bool-cases, inl, inr,
}
use mathlib.Core.List.{append-nil}
use franklin.Text.{Buffer, memcpy}
use franklin.Text.Laws.{memcpy-append}
use franklin.Fs.Ramfs.Data.{grow, bytes_of, make_room, write_file, read_file}

-- `memcpy` of `n` bytes, inside both buffers.
pub memcpy-take :
    (d s : Buffer) (n : ℕ) → n ≤ length d → n ≤ length s → memcpy d s n ≡ ok (take n s ++ drop n d)
memcpy-take d s n hd hs =
    let lt : length (take n s) ≡ n = omega (arith, length-take n s) in
    let ld : length (take n d) ≡ n = omega (arith, length-take n d) in
    ap (λ x. memcpy x s n) (sym (take-append-drop n d))
    ∙ ap (λ x. memcpy (take n d ++ drop n d) x n) (sym (take-append-drop n s))
    ∙ ap (λ k. memcpy (take n d ++ drop n d) (take n s ++ drop n s) k) (sym lt)
    ∙ memcpy-append (take n s) (take n d) (drop n d) (drop n s) (ld ∙ sym lt)

-- The loop ends above `need`, and is never short of fuel.
grow_lem :
    (fuel need n : ℕ)
    → 0 < n
    → need < n + fuel
    → (m : ℕ) × (grow (suc fuel) need n ≡ ok m) × (need < m) × (n ≤ m)
unfolding grow
grow_lem zero need n p h = (n, ground arith, omega arith, omega arith)
grow_lem (suc fuel) need n p h = elim (Bool-cases (leb n need)) [
  | inl more ↦
      let le : n ≤ need = ground arith in
      let (m, e, above, grows) = grow_lem fuel need (n * 2) (omega arith) (omega arith) in
      (m, rw more e, above, omega arith)
  | inr enough ↦ (n, rw enough, ground arith, omega arith)
]

-- The bytes of a file and its size belong together; a file with no block is empty.
abbrev pub IsFile : Option Buffer → ℕ → Type 0
IsFile none size = size ≡ 0
IsFile (some b) size = length b ≡ size

length-bytes_of :
    (bytes : Option Buffer) (size : ℕ) → IsFile bytes size → length (bytes_of bytes) ≡ size
unfolding bytes_of
length-bytes_of none size h = sym h
length-bytes_of (some b) size h = h

-- The old bytes, followed by zeros up to size `n`.
padded : Option Buffer → ℕ → ℕ → Buffer
padded bytes size n = bytes_of bytes ++ drop size (replicate n 0)

length-padded :
    (bytes : Option Buffer) (size n : ℕ)
    → IsFile bytes size
    → size ≤ n
    → length (padded bytes size n) ≡ n
unfolding padded
length-padded bytes size n h le = omega (
  arith,
  length-append (bytes_of bytes) (drop size (replicate n 0)),
  length-bytes_of bytes size h,
  length-drop {A = ℕ} size (replicate n 0),
  length-replicate {A = ℕ} n 0,
)

take-all : (xs : Buffer) → take (length xs) xs ≡ xs
take-all [] = refl
take-all (x ∷ xs) = ap (◌∷◌ x) (take-all xs)

drop-replicate : (n : ℕ) → drop n (replicate {A = ℕ} n 0) ≡ []
drop-replicate zero = refl
drop-replicate (suc n) = drop-replicate n

padded-same : (bytes : Option Buffer) (size : ℕ) → padded bytes size size ≡ bytes_of bytes
unfolding padded
padded-same bytes size = rw (drop-replicate size) (append-nil (bytes_of bytes))

take-size :
    (bytes : Option Buffer) (size : ℕ)
    → IsFile bytes size
    → take size (bytes_of bytes) ≡ bytes_of bytes
take-size bytes size h =
    ap (λ k. take k (bytes_of bytes)) (sym (length-bytes_of bytes size h))
    ∙ take-all (bytes_of bytes)

-- Room is made without loss: the old bytes stay in front.
make_room_lem :
    (bytes : Option Buffer) (size need : ℕ)
    → IsFile bytes size
    → (n : ℕ) × (make_room bytes size need ≡ ok (padded bytes size n, n)) × (need < n) × (size ≤ n)
unfolding make_room
make_room_lem bytes size need h = elim (Bool-cases (leb size need)) [
  | inl full ↦
      let (n, e, above, le) = grow_lem need need (size + 1) (omega arith) (omega arith) in
      let copied : memcpy (replicate n 0) (bytes_of bytes) size ≡ ok (padded bytes size n) =
        memcpy-take (replicate n 0) (bytes_of bytes) size
          (omega (arith, length-replicate {A = ℕ} n 0))
          (omega (arith, length-bytes_of bytes size h))
        ∙ ap (λ t. ok (t ++ drop size (replicate n 0))) (take-size bytes size h)
        ∙ unfold padded in refl in
      (n, rw (full, e, copied), above, omega arith)
  | inr room ↦ (
    size,
    rw room (ap (λ b. ok (b, size)) (sym (padded-same bytes size))),
    ground arith,
    omega arith,
  )
]

-- What a write leaves: `block` is the file's bytes, with zeros behind them as far as the block
-- reaches, and `count` bytes of it from `offset` on are those of the caller's buffer.
pub record Written (bytes : Option Buffer) (size : ℕ) (buf : Buffer) (offset count : ℕ)
    (r : Run (Buffer × ℕ)) : Type 0 where
  pub n : ℕ
  pub block : Buffer
  pub returns : r ≡ ok (take offset block ++ (take count buf ++ drop count (drop offset block)), n)
  pub full : length block ≡ n
  pub room : offset + count < n
  pub grows : size ≤ n
  pub old : take size block ≡ bytes_of bytes

take-append : (xs ys : Buffer) → take (length xs) (xs ++ ys) ≡ xs
take-append [] ys = refl
take-append (x ∷ xs) ys = ap (◌∷◌ x) (take-append xs ys)

-- A write inside the caller's buffer succeeds at every offset. The file grows as needed, and only
-- the bytes that are written change.
pub write_file-Written :
    (bytes : Option Buffer) (size : ℕ) (buf : Buffer) (offset count : ℕ)
    → IsFile bytes size
    → count ≤ length buf
    → Written bytes size buf offset count (write_file bytes size buf offset count)
unfolding write_file
write_file-Written bytes size buf offset count h fits =
    let (n, e, above, le) = make_room_lem bytes size (offset + count) h in
    let block = padded bytes size n in
    let len : length block ≡ n = length-padded bytes size n h le in
    record {
      n = n;
      block = block;
      returns = rw (
        e,
        memcpy-take (drop offset block) buf count (omega (arith, length-drop offset block)) fits,
      );
      full = len;
      room = above;
      grows = le;
      old =
          ap (λ k. take k block) (sym (length-bytes_of bytes size h))
          ∙ unfold padded in take-append (bytes_of bytes) (drop size (replicate n 0));
    }

drop-append : (xs ys : Buffer) (n : ℕ) → n ≡ length xs → drop n (xs ++ ys) ≡ ys
drop-append [] ys n e = rw e
drop-append (x ∷ xs) ys n e = rw e (drop-append xs ys (length xs) refl)

-- A read of the bytes that have just been written returns their number and puts them at the front
-- of the caller's buffer.
pub read_file-write_file :
    (bytes : Option Buffer) (size : ℕ) (buf out : Buffer) (offset count : ℕ)
    → IsFile bytes size
    → count ≤ length buf
    → count ≤ length out
    → (b : Buffer) × (n : ℕ) × (write_file bytes size buf offset count ≡ ok (b, n))
      × IsFile (some b) n
      × (read_file (some b) n out offset count
          ≡ ok (int_of count, take count buf ++ drop count out))
unfolding read_file
read_file-write_file bytes size buf out offset count h fits fits_out =
    let w = write_file-Written bytes size buf offset count h fits in
    let front = take offset w.block in
    let tail = drop count (drop offset w.block) in
    let t = take count buf in
    let lf : length front ≡ offset = omega (arith, length-take offset w.block, w.full, w.room) in
    let lt : length t ≡ count = omega (arith, length-take count buf) in
    let behind : drop offset (front ++ (t ++ tail)) ≡ t ++ tail =
      drop-append front (t ++ tail) offset (sym lf) in
    let whole : length (front ++ (t ++ tail)) ≡ w.n = omega (
      arith,
      length-append front (t ++ tail),
      length-append t tail,
      length-drop count (drop offset w.block),
      length-drop offset w.block,
      w.full,
      w.room,
    ) in
    let inside : ltb w.n (offset + count) ≡ false = ground (arith, w.room) in
    (
      front ++ (t ++ tail),
      w.n,
      w.returns,
      whole,
      rw (inside, behind)
          (rw (memcpy-take out (t ++ tail) count fits_out (omega (arith, length-append t tail))) (
            ap (λ x. ok (int_of count, x ++ drop count out))
              (ap (λ k. take k (t ++ tail)) (sym lt) ∙ take-append t tail))),
    )
