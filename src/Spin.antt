-- ===== src/Spin.antt =====
-- kernel/spinlock.c, as any number of processors run it at the same time: a step is one access of
-- one processor to the word of the lock, and the steps come in any order.
pub mod Safety
mod Tests
use franklin.Base.{ℕ, ◌<◌, ◌≡◌, ◌≢◌, Bool, true, false, ◌==◌, if◌then◌else◌}

-- Where a processor stands to the lock. `spinning` is in the loop of `acquire`, `inside` is behind
-- it and before the store of `release`.
pub data Stand : Type 0 where
  outside spinning inside : Stand

abbrev pub is_inside : Stand → Bool
is_inside Stand.inside = true
is_inside _ = false

-- A step of one processor: the word and where the processor stands, before and after.
pub data Move (w : ℕ) : Stand → ℕ → Stand → Type 0 where
  -- the call of `acquire`
  call : Move w Stand.outside w Stand.spinning
  -- `atomic_exchange` finds the lock taken, and writes 1 over it
  wait : w ≢ 0 → Move w Stand.spinning 1 Stand.spinning
  -- or free
  take : w ≡ 0 → Move w Stand.spinning 1 Stand.inside
  -- the store of `release`
  free : Move w Stand.inside 0 Stand.outside
  -- what does not touch the lock, and the load in `trylock`
  elsewhere : {p : Stand} → Move w p w p

pub record System : Type 0 where
  pub word : ℕ
  pub stand : ℕ → Stand

abbrev pub update {ℓ} : {A : Type ℓ} → (ℕ → A) → ℕ → A → ℕ → A
update f i a j = if i == j then a else f j

-- Processor `i` of `n` makes a step.
pub data Step (n : ℕ) (s : System) : System → Type 0 where
  move :
      (i : ℕ) {w : ℕ} {p : Stand}
      → i < n
      → Move s.word (s.stand i) w p
      → Step n s (record { word = w; stand = update s.stand i p })

-- After `init_lock`, with all processors outside.
abbrev pub init : System
init = record { word = 0; stand = λ _. Stand.outside }

pub data Steps (n : ℕ) (s : System) : System → Type 0 where
  here : Steps n s s
  next : {t u : System} → Steps n s t → Step n t u → Steps n s u
