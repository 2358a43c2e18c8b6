-- ===== src/Initramfs/Unpack.antt =====
-- fs/ramfs/initramfs.c, `initramfs`: what the walk does with an archive of regular files.
use franklin.Base.Commands.{and_then_assoc, and_then_same}
use franklin.Base.{
  ℕ, zero, suc, ◌+◌, ◌<◌, ◌≡◌, ◌≢◌, refl, ap, ◌∙◌, arith, Bool, true, false, List, [], ◌∷◌, ◌++◌,
  length, length-append, length-drop, drop, ◌==◌, if◌then◌else◌, ok, panicked, some, and_then, Cmd,
  pure, lift, ◌>>=◌, ◌>>◌,
}
use mathlib.Core.List.{append_assoc}
use franklin.Text.{Buffer, read, strcpy, strncmp, compare_bytes}
use franklin.Text.Laws.{IsText, c_string, strcpy-c_string}
use franklin.Initramfs.Walk.{Calls, unpack, walk, initramfs}
use franklin.Initramfs.Archive.{
  Member, IsMember, AreMembers, member_bytes, archive, magic_lem, size_lem, kind_lem, content_lem,
  next_lem,
}

-- The array behind its first byte, once a name has been copied to it.
abbrev pub renamed : Member → Buffer → Buffer
renamed m tail = c_string m.name (drop (suc (length m.name)) tail)

split_at :
    (n : ℕ) (xs : Buffer)
    → n < length xs
    → (old : Buffer) × (o : ℕ) × (xs ≡ old ++ o ∷ drop (suc n) xs) × (length old ≡ n)
split_at n [] h = absurd (omega arith)
split_at zero (x ∷ xs) h = ([], x, refl, refl)
split_at (suc n) (x ∷ xs) h =
    let (old, o, e, e') = split_at n xs (omega arith) in (x ∷ old, o, ap (◌∷◌ x) e, ap suc e')

length-renamed :
    (m : Member) (tail : Buffer)
    → length m.name < length tail
    → length (renamed m tail) ≡ length tail
length-renamed m tail h =
    length-append m.name (0 ∷ drop (suc (length m.name)) tail)
    ∙ omega (arith, length-drop (suc (length m.name)) tail)

copy_name :
    (t rest more tail : Buffer)
    → IsText t
    → t ≢ []
    → length t < length tail
    → strcpy tail (c_string t rest ++ more) ≡ ok (c_string t (drop (suc (length t)) tail))
copy_name t rest more tail h ne room =
    let (old, o, e, n) = split_at (length t) tail room in
    ap (λ b. strcpy b (c_string t rest ++ more)) e
    ∙ ap (strcpy (old ++ o ∷ drop (suc (length t)) tail)) (append_assoc t (0 ∷ rest) more)
    ∙ strcpy-c_string t (rest ++ more) old (drop (suc (length t)) tail) o h ne n

name_lem :
    (m : Member) (next tail : Buffer)
    → IsMember m
    → length m.name < length tail
    → strcpy tail (member_bytes m next) ≡ ok (renamed m tail)
name_lem m next tail h room = copy_name m.name m.name_rest _ tail h.is_text h.not_empty room

module _ {S : Type 0} (calls : Calls S) where
  -- What should happen to the files: each is created under its name behind a slash, its content
  -- is written, and it is closed. The buffer that is handed on goes to the end of the archive.
  unfoldable pub store_all : List Member → (end tail : Buffer) (vn : ℕ) → Cmd S (Unit {0})
  store_all [] end tail vn = pure tt
  store_all (m ∷ ms) end tail vn = do
    vn' ← calls.create (b'/' ∷ renamed m tail) vn
    if vn' == 0 then lift panicked else do
      calls.write_all vn' (m.content ++ (m.padding ++ archive ms end)) (length m.content)
      calls.close vn'
      store_all ms end (renamed m tail) vn'

  -- A round on a file.
  walk-member :
      (m : Member) (next tail : Buffer) (rounds vn : ℕ) (s : S)
      → IsMember m
      → length m.name < length tail
      → walk calls (suc rounds) (member_bytes m next) tail vn s
        ≡ and_then
            (unpack calls b'0'
              (member_bytes m next)
              (b'/' ∷ renamed m tail)
              (length m.content)
              vn
              s)
            (λ p.
              and_then (calls.close p.0 p.1) (λ q. walk calls rounds next (renamed m tail) p.0 q.1))
  unfolding walk
  walk-member m next tail rounds vn s h room = rw (magic_lem m next h) (
      rw (name_lem m next tail h room)
        (rw (size_lem m next h) (rw (kind_lem m next h) (rw (next_lem m next h) refl))))

  after_create :
      (failed : Bool) (v : ℕ) (s : S) (write_it : Cmd S (Unit {0})) (k k' : ℕ → Cmd S (Unit {0}))
      → ((v : ℕ) (s' : S) → k v s' ≡ k' v s')
      → and_then
          ((if failed then lift panicked else (write_it >> pure v)) s)
          (λ p. and_then (calls.close p.0 p.1) (λ q. k p.0 q.1))
        ≡ (if failed then lift panicked else (write_it >> (calls.close v >> k' v))) s
  after_create true v s write_it k k' same = refl
  after_create false v s write_it k k' same =
      and_then_assoc (write_it s) (λ p. ok (v, p.1))
        (λ p. and_then (calls.close p.0 p.1) (λ q. k p.0 q.1))
      ∙ and_then_same (write_it s) _ _
          (λ p. and_then_same (calls.close v p.1) _ _ (λ q. same v q.1))

  -- One file, over what the rest of the walk does.
  unpack-step :
      (m : Member) (next name : Buffer) (vn : ℕ) (s : S) (k k' : ℕ → Cmd S (Unit {0}))
      → IsMember m
      → ((v : ℕ) (s' : S) → k v s' ≡ k' v s')
      → and_then
          (unpack calls b'0' (member_bytes m next) name (length m.content) vn s)
          (λ p. and_then (calls.close p.0 p.1) (λ q. k p.0 q.1))
        ≡ and_then (calls.create name vn s) (λ p.
          (if p.0 == 0
              then lift panicked
              else (calls.write_all p.0 (m.content ++ (m.padding ++ next)) (length m.content)
                  >> (calls.close p.0 >> k' p.0)))
            p.1)
  unfolding unpack
  unpack-step m next name vn s k k' h same = rw (content_lem m next h) (
      and_then_assoc (calls.create name vn s)
        (λ p.
          (if p.0 == 0
              then lift panicked
              else (calls.write_all p.0 (m.content ++ (m.padding ++ next)) (length m.content)
                  >> pure p.0))
            p.1)
        (λ p. and_then (calls.close p.0 p.1) (λ q. k p.0 q.1))
      ∙ and_then_same (calls.create name vn s) _ _ (λ p.
        after_create (p.0 == 0) p.0 p.1
          (calls.write_all p.0 (m.content ++ (m.padding ++ next)) (length m.content)) k k' same))

  walk_end :
      (rounds : ℕ) (end more tail : Buffer) (vn : ℕ) (s : S)
      → drop 257 end ≡ 0 ∷ more
      → walk calls (suc rounds) end tail vn s ≡ ok (tt, s)
  unfolding walk strncmp compare_bytes read
  walk_end rounds end more tail vn s e = rw e refl

  -- On an archive of regular files, in front of a block that has a zero byte in the place of the
  -- magic, `initramfs` creates each file in turn under its name behind a slash, writes its content
  -- and closes it, and panics where `vfs_create` leaves the vnode 0. A round for each file and one
  -- for the last block are enough.
  pub initramfs-store_all :
      (ms : List Member) (end more tail : Buffer) (spare vn : ℕ) (s : S)
      → AreMembers ms
      → drop 257 end ≡ 0 ∷ more
      → length tail ≡ 99
      → initramfs calls (suc (length ms) + spare) (some (archive ms end)) tail vn s
        ≡ store_all ms end tail vn s
  unfolding initramfs store_all
  initramfs-store_all [] end more tail spare vn s h e n =
      let r : suc 0 + spare ≡ suc spare = omega arith in rw r (walk_end spare end more tail vn s e)
  initramfs-store_all (m ∷ ms) end more tail spare vn s h e n =
      let r : suc (suc (length ms)) + spare ≡ suc (suc (length ms) + spare) = omega arith in
      let next = archive ms end in
      let tail' = renamed m tail in
      let n' : length tail' ≡ 99 = length-renamed m tail (omega (arith, h.0.fits)) ∙ n in
      rw r (
        walk-member m next tail (suc (length ms) + spare) vn s h.0 (omega (arith, h.0.fits))
        ∙ unpack-step m next (b'/' ∷ tail') vn s
            (λ v. walk calls (suc (length ms) + spare) next tail' v) (λ v. store_all ms end tail' v)
            h.0 (λ v s'. initramfs-store_all ms end more tail' spare v s' h.1 e n'))
