-- ===== src/Text.antt =====
-- kernel/string.c: the routines on memory and C strings. A buffer is the list of the bytes from
-- a pointer to the end of the object, with what follows the terminator included, so an access
-- past the end is a fault. Source and destination are distinct objects. A `size_t` counter
-- cannot wrap, since a buffer is shorter than 2 ^ 64 bytes.
pub mod Laws
pub mod Decimal
mod Tests
use franklin.Base.{
  ◌-◌, ℕ, zero, suc, ◌+◌, ◌*◌, ◌/◌, ◌%◌, ◌≡◌, ◌≢◌, Bool, true, false, Option, none, some, List, [],
  ◌∷◌, ◌++◌, ◌<◌, ltb, ◌==◌, if◌then◌else◌, length, get_elem?, set, drop, replicate, ℤ, pos, negsuc,
  is_zero, not, Run, ok, fault, and_then, or_fault,
}

abbrev pub Buffer : Type 0
Buffer = List ℕ

infixl 5 ◌>>=◌
abbrev pub ◌>>=◌ {ℓ κ} : {A : Type ℓ} {B : Type κ} → Run A → (A → Run B) → Run B
m >>= f = and_then m f

-- `b[i]`
unfoldable pub read : Buffer → ℕ → Run ℕ
read b i = or_fault (get_elem? b i)

-- `b[i] = c`
unfoldable pub write : Buffer → ℕ → ℕ → Run Buffer
write b i c = if ltb i (length b) then ok (set b i c) else fault

-- `for (; i < i + left; ++i) d[i] = s[i];`
unfoldable pub copy : ℕ → ℕ → Buffer → Buffer → Run Buffer
copy zero i d s = ok d
copy (suc left) i d s = do c ← read s i; d' ← write d i c; copy left (i + 1) d' s

unfoldable pub memcpy : Buffer → Buffer → ℕ → Run Buffer
unfolding copy read write
memcpy d s n = copy n 0 d s

fill : ℕ → ℕ → ℕ → Buffer → Run Buffer
fill zero i c s = ok s
fill (suc left) i c s = do s' ← write s i c; fill left (i + 1) c s'

-- The `int` is stored as a byte.
unfoldable pub memset : Buffer → ℕ → ℕ → Run Buffer
unfolding fill write
memset s c n = fill n 0 (c % 256) s

-- The counter is an `int`, which reaches every size below 2 ^ 31.
unfoldable pub memzero : Buffer → ℕ → Run Buffer
unfolding fill write
memzero mem n = fill n 0 0 mem

-- The bytes from index `n` on, up to the first zero.
unfoldable pub scan : Buffer → ℕ → Run ℕ
scan [] n = fault
scan (c ∷ cs) n = if c == 0 then ok n else scan cs (n + 1)

-- `while (++n && s[n]);` begins with `s[1]`.
unfoldable pub strlen : Buffer → Run ℕ
unfolding scan
strlen s = scan (drop 1 s) 1

unfoldable pub compare_bytes : ℕ → ℕ → Buffer → Buffer → Run ℤ
compare_bytes zero i s s2 = ok (pos 0)
compare_bytes (suc left) i s s2 =
    let rest = compare_bytes left (i + 1) s s2 in
    do a ← read s i; b ← read s2 i; if not (a == b) then ok (negsuc 0) else rest

unfoldable pub strcmp : Buffer → Buffer → Run ℤ
unfolding strlen compare_bytes read
strcmp s s2 = do
  len ← strlen s
  len2 ← strlen s2
  if not (len == len2) then ok (negsuc 0) else compare_bytes len 0 s s2

-- Unlike the C library's, it goes on behind a terminator.
unfoldable pub strncmp : Buffer → Buffer → ℕ → Run ℤ
unfolding compare_bytes read
strncmp s s2 n = compare_bytes n 0 s s2

-- The index that the returned pointer has in the string; at the terminator if `c` is not found.
find_char : Buffer → ℕ → ℕ → Run ℕ
find_char [] c i = fault
find_char (x ∷ s) c i =
    let rest = find_char s c (i + 1) in if x == c then ok i else if x == 0 then ok i else rest

unfoldable pub strchr : Buffer → ℕ → Run ℕ
unfolding find_char
strchr s c = find_char s c 0

unfoldable pub strcpy : Buffer → Buffer → Run Buffer
unfolding strlen copy read write
strcpy s s2 = do i ← strlen s2; s' ← copy i 0 s s2; write s' i 0

-- `kalloc` gives a new buffer. Every byte of it is written below, so it begins as zeros here.
unfoldable pub strldup : Buffer → ℕ → Run Buffer
unfolding copy read write
strldup s len = do ss ← copy len 0 (replicate (len + 1) 0) s; write ss len 0

unfoldable pub strdup : Buffer → Run Buffer
unfolding strlen strldup
strdup s = do len ← strlen s; strldup s len

-- The first loop of `itoa`: the digits, last one first, in an array with room for `room` more.
unfoldable pub split_digits : ℕ → ℕ → List ℕ → Run (List ℕ)
split_digits zero x arr = fault
split_digits (suc room) x arr =
    let rest = split_digits room (x / 10) ((x % 10) ∷ arr) in
    if x / 10 == 0 then ok ((x % 10) ∷ arr) else rest

-- The second: `while (i--) s[r++] = arr[i] + 48;`
unfoldable pub emit : List ℕ → ℕ → Buffer → Run Buffer
emit [] r s = ok s
emit (d ∷ ds) r s = do s' ← write s r (d + 48); emit ds (r + 1) s'

-- The same where the digits are not positive; each `d` stands for -d.
unfoldable pub emit_negative : List ℕ → ℕ → Buffer → Run Buffer
emit_negative [] r s = ok s
emit_negative (d ∷ ds) r s = do s' ← write s r (48 - d); emit_negative ds (r + 1) s'

-- `x` is an `int`, from -2 ^ 31 to 2 ^ 31 - 1. The remainders of a negative number by 10 are not
-- positive.
unfoldable pub itoa : ℤ → Buffer → Run Buffer
unfolding split_digits emit emit_negative write
itoa (pos x) s = do ds ← split_digits 10 x []; emit ds 0 s
itoa (negsuc x) s = do ds ← split_digits 10 (x + 1) []; emit_negative ds 0 s
