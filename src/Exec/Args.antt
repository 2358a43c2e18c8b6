-- ===== src/Exec/Args.antt =====
-- kernel/proc.c, `copyargs`: the arguments and the auxiliary values go on the new stack. A pointer
-- is an address below 2 ^ 64; `argv` is the list of the strings before its null pointer.
use franklin.Base.{ℕ, zero, suc, ◌+◌, ◌-◌, ◌*◌, ◌%◌, ◌^◌, List, [], ◌∷◌, length, Run, ok}
use franklin.Text.{Buffer, ◌>>=◌, read, strlen}
use franklin.Exec.Words.{Memory, put_byte, store_word}

-- `struct auxval`
pub record Auxval : Type 0 where
  pub at_entry : ℕ
  pub at_phdr : ℕ
  pub at_phent : ℕ
  pub at_phnum : ℕ

-- A pointer less `n` bytes.
unfoldable pub back : ℕ → ℕ → ℕ
back a n = (a + (2 ^ 64 - n)) % 2 ^ 64

-- `strcpy` to the address `a`: its loop, and its last store.
unfoldable pub put_text : (left i a : ℕ) → Buffer → Memory → Run Memory
unfolding read
put_text zero i a s m = ok (put_byte ((a + i) % 2 ^ 64) 0 m)
put_text (suc left) i a s m = do
  c ← read s i
  put_text left (i + 1) a s (put_byte ((a + i) % 2 ^ 64) c m)

-- The first loop. The result is `*stack` and the memory.
unfoldable pub copy_strings : List Buffer → ℕ → Memory → Run (ℕ × Memory)
unfolding strlen put_text back
copy_strings [] stack m = ok (stack, m)
copy_strings (s ∷ argv) stack m = do
  len ← strlen s
  m' ← put_text len 0 (back stack (len + 1)) s m
  copy_strings argv (back stack (len + 1)) m'

-- `*stack -= 2, (*stack)[0] = kind, (*stack)[1] = value`
unfoldable pub push_aux : (kind value : ℕ) → ℕ × Memory → ℕ × Memory
unfolding back
push_aux kind value r =
    let stack = back r.0 16 in
    (stack, store_word ((stack + 8) % 2 ^ 64) value (store_word stack kind r.1))

-- `*--(*stack) = w`
unfoldable pub push_word : ℕ → ℕ × Memory → ℕ × Memory
unfolding back
push_word w r = (back r.0 8, store_word (back r.0 8) w r.1)

-- The constants of <elf.h>
abbrev pub at_phdr_kind : ℕ
at_phdr_kind = 3

abbrev pub at_phent_kind : ℕ
at_phent_kind = 4

abbrev pub at_phnum_kind : ℕ
at_phnum_kind = 5

abbrev pub at_entry_kind : ℕ
at_entry_kind = 9

-- Behind a zero word the second decrement leaves a word as it is.
unfoldable pub push_auxval : Auxval → ℕ × Memory → ℕ × Memory
unfolding push_aux push_word
push_auxval aux r =
    let z = push_word 0 r in
    push_aux at_phnum_kind aux.at_phnum (
      push_aux at_phent_kind aux.at_phent
        (push_aux at_phdr_kind aux.at_phdr (push_aux at_entry_kind aux.at_entry (back z.0 8, z.1))))

-- The second loop: the pointers from index `i` on.
unfoldable pub put_pointers : List Buffer → (i oldrsp stack : ℕ) → Memory → Run Memory
unfolding strlen back
put_pointers [] i oldrsp stack m = ok m
put_pointers (s ∷ argv) i oldrsp stack m = do
  len ← strlen s
  let p = back oldrsp (len + 1)
  put_pointers argv (i + 1) p stack (store_word ((stack + i * 8) % 2 ^ 64) p m)

unfoldable pub copyargs : ℕ → List Buffer → Auxval → Memory → Run (ℕ × Memory)
unfolding copy_strings push_auxval push_word put_pointers
copyargs stack argv aux m = do
  r ← copy_strings argv stack m
  let z = push_word 0 (push_auxval aux r)
  let args = back z.0 (8 * length argv)
  m' ← put_pointers argv 0 stack args z.1
  ok (push_word (length argv) (args, m'))
