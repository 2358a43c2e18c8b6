-- ===== src/Initramfs/Archive.antt =====
-- fs/ramfs/initramfs.c: archives of regular files.
use franklin.Base.{
  ℕ, zero, suc, ◌+◌, ◌-◌, ◌*◌, ◌/◌, ◌%◌, ◌^◌, ◌≤◌, ◌<◌, ◌≡◌, ◌≢◌, refl, sym, ap, ◌∙◌, arith, List,
  [], ◌∷◌, ◌++◌, length, length-append, drop, inl, ok, pos,
}
use mathlib.Core.List.{append_assoc}
use franklin.Text.{Buffer, read, strncmp, compare_bytes}
use franklin.Text.Laws.{IsText, c_string}
use franklin.Initramfs.{oct2int}
use franklin.Initramfs.Octal.{octal, oct2int-octal}
use franklin.Initramfs.Walk.{ustar, align_up}

-- A file of the archive: its name and its content, with the fields of the header that the walk
-- does not read, and what fills up the last block.
pub record Member : Type 0 where
  pub name : List ℕ
  pub name_rest : Buffer
  pub ids : Buffer
  pub times : Buffer
  pub link : Buffer
  pub owner : Buffer
  pub content : Buffer
  pub padding : Buffer

-- The sizes that the fields have. The name leaves room for its terminator in an array with one
-- byte less than its field.
pub record IsMember (m : Member) : Type 0 where
  pub is_text : IsText m.name
  pub not_empty : m.name ≢ []
  pub fits : length m.name ≤ 98
  pub name_field : length (c_string m.name m.name_rest) ≡ 100
  pub ids_field : length m.ids ≡ 24
  pub times_field : length m.times ≡ 20
  pub link_field : length m.link ≡ 100
  pub owner_field : length m.owner ≡ 250
  pub size : length m.content < 8 ^ 11
  pub blocks : length (m.content ++ m.padding) ≡ (length m.content + 511) / 512 * 512

abbrev pub AreMembers : List Member → Type 0
AreMembers [] = Unit {0}
AreMembers (m ∷ ms) = IsMember m × AreMembers ms

-- The bytes behind the fields, from the type on.
abbrev from_kind : Member → Buffer → Buffer
from_kind m next =
    b'0'
    ∷ (m.link
        ++ (b'u' ∷ b's' ∷ b't' ∷ b'a' ∷ b'r' ∷ (m.owner ++ (m.content ++ (m.padding ++ next)))))

abbrev size_field : Member → Buffer
size_field m = octal 11 (length m.content) ++ 0 ∷ []

-- The header and the content, in front of what follows.
abbrev pub member_bytes : Member → Buffer → Buffer
member_bytes m next =
    c_string m.name m.name_rest ++ (m.ids ++ (size_field m ++ (m.times ++ from_kind m next)))

-- The archive ends with a block of zeros.
abbrev pub archive : List Member → Buffer → Buffer
archive [] end = end
archive (m ∷ ms) end = member_bytes m (archive ms end)

pub drop-past :
    {A : Type 0} (n : ℕ) (xs ys : List A)
    → length xs ≤ n
    → drop n (xs ++ ys) ≡ drop (n - length xs) ys
drop-past n [] ys h = ap (λ k. drop k ys) (omega arith)
drop-past zero (x ∷ xs) ys h = absurd (omega arith)
drop-past (suc n) (x ∷ xs) ys h =
    let e : suc n - suc (length xs) ≡ n - length xs = omega arith in
    rw e (drop-past n xs ys (omega arith))

drop-field :
    {A : Type 0} (n k left : ℕ) (xs ys : List A)
    → length xs ≡ k
    → n ≡ k + left
    → drop n (xs ++ ys) ≡ drop left ys
drop-field n k left xs ys e e' = drop-past n xs ys (omega arith) ∙ ap (λ j. drop j ys) (omega arith)

length-octal : (width n : ℕ) → length (octal width n) ≡ width
length-octal zero n = refl
length-octal (suc width) n =
    length-append (octal width (n / 8)) ((n % 8 + 48) ∷ [])
    ∙ omega (arith, length-octal width (n / 8))

module _ (m : Member) (next : Buffer) (h : IsMember m) where
  length-size_field : length (size_field m) ≡ 12
  length-size_field =
      length-append (octal 11 (length m.content)) (0 ∷ [])
      ∙ omega (arith, length-octal 11 (length m.content))

  at_size : drop 124 (member_bytes m next) ≡ size_field m ++ (m.times ++ from_kind m next)
  at_size =
      drop-field 124 100 24 (c_string m.name m.name_rest) _ h.name_field refl
      ∙ drop-field 24 24 0 m.ids _ h.ids_field refl

  from_kind_lem : (k : ℕ) → drop (156 + k) (member_bytes m next) ≡ drop k (from_kind m next)
  from_kind_lem k =
      drop-field (156 + k) 100 (56 + k) (c_string m.name m.name_rest) _ h.name_field (omega arith)
      ∙ drop-field (56 + k) 24 (32 + k) m.ids _ h.ids_field (omega arith)
      ∙ drop-field (32 + k) 12 (20 + k) (size_field m) (m.times ++ from_kind m next)
          length-size_field (omega arith)
      ∙ drop-field (20 + k) 20 k m.times (from_kind m next) h.times_field (omega arith)

  abbrev from_magic : Buffer
  from_magic = b'u' ∷ b's' ∷ b't' ∷ b'a' ∷ b'r' ∷ (m.owner ++ (m.content ++ (m.padding ++ next)))

  from_magic_lem : (k : ℕ) → drop (257 + k) (member_bytes m next) ≡ drop k from_magic
  from_magic_lem k =
      ap (λ j. drop j (member_bytes m next)) (omega arith)
      ∙ from_kind_lem (101 + k)
      ∙ drop-field (101 + k) 1 (100 + k) (b'0' ∷ []) (m.link ++ from_magic) refl (omega arith)
      ∙ drop-field (100 + k) 100 k m.link from_magic h.link_field (omega arith)

  from_content_lem :
      (k : ℕ) → drop (512 + k) (member_bytes m next) ≡ drop k (m.content ++ (m.padding ++ next))
  from_content_lem k =
      ap (λ j. drop j (member_bytes m next)) (omega arith)
      ∙ from_magic_lem (255 + k)
      ∙ drop-field (255 + k) 5 (250 + k) (b'u' ∷ b's' ∷ b't' ∷ b'a' ∷ b'r' ∷ [])
          (m.owner ++ (m.content ++ (m.padding ++ next))) refl (omega arith)
      ∙ drop-field (250 + k) 250 k m.owner (m.content ++ (m.padding ++ next)) h.owner_field
          (omega arith)

  pub magic_lem : strncmp (drop 257 (member_bytes m next)) ustar 5 ≡ ok (pos 0)
  unfolding strncmp compare_bytes read
  magic_lem = rw (from_magic_lem 0) refl

  pub size_lem : oct2int (drop 124 (member_bytes m next)) 12 ≡ ok (length m.content)
  size_lem =
      rw
        (at_size, append_assoc (octal 11 (length m.content)) (0 ∷ []) (m.times ++ from_kind m next))
        (oct2int-octal 11 (length m.content) 12 0 (m.times ++ from_kind m next) h.size
          (omega (arith, h.size)) (omega arith) (inl refl))

  pub kind_lem : read (drop 156 (member_bytes m next)) 0 ≡ ok b'0'
  unfolding read
  kind_lem = rw (from_kind_lem 0) refl

  pub content_lem : drop 512 (member_bytes m next) ≡ m.content ++ (m.padding ++ next)
  content_lem = from_content_lem 0

  align_up_lem : align_up (length m.content) ≡ length (m.content ++ m.padding)
  unfolding align_up
  align_up_lem = omega (arith, h.size, h.blocks)

  pub next_lem : drop (512 + align_up (length m.content)) (member_bytes m next) ≡ next
  next_lem =
      from_content_lem (align_up (length m.content))
      ∙ ap (drop (align_up (length m.content))) (sym (append_assoc m.content m.padding next))
      ∙ drop-field (align_up (length m.content)) (align_up (length m.content)) 0
          (m.content ++ m.padding) next (sym align_up_lem) (omega arith)
