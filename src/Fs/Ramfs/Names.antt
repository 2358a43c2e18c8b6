-- ===== src/Fs/Ramfs/Names.antt =====
-- fs/ramfs/ramfs.c: which entry of a directory a name finds, in `ramfs_dir_lookup` and in
-- `ramfs_lookup`, told on texts.
use franklin.Base.{
  is_zero, ℤ, pure, ◌>>=◌, ◌>>◌, ℕ, ◌+◌, ◌≡◌, ◌≢◌, refl, ap, ◌∙◌, Bool, true, false, arith, ◌==◌,
  if◌then◌else◌, Option, none, some, List, [], ◌∷◌, ◌++◌, length, length-append, pos, negsuc, ok,
  Bool-cases, inl, inr,
}
use mathlib.Core.List.{append_assoc}
use franklin.Text.{Buffer, strcmp, strncmp, compare_bytes}
use franklin.Text.Laws.{IsText, c_string, same, same_iff, strcmp-c_string, read-append}
use franklin.Fs.Errors.{enoent}
use franklin.Fs.State.{Ptr, null, Vnode, is_dir, get_vnode}
use franklin.Fs.Ramfs.Store.{
  Dentry, Payload, Ramnode, State, get_node, put_node, lock_node, unlock_node, entries_of,
}
use franklin.Fs.Ramfs.Entries.{find_entry}
use franklin.Fs.Ramfs.Vnodes.{find_prefix, search_dir, ramfs_lookup, ramfs_vget, dot, dotdot}

-- Whether the first text begins the second.
unfoldable pub begins : List ℕ → List ℕ → Bool
begins [] ys = true
begins (x ∷ xs) [] = false
begins (x ∷ xs) (y ∷ ys) = if y == x then begins xs ys else false

-- The first entry whose name passes a test.
abbrev pub first : (Dentry → Bool) → List Dentry → Option Dentry
first p [] = none
first p (d ∷ ds) = if p d then some d else first p ds

-- Every entry holds the C string of its text, which is not empty.
abbrev pub AllNamed : (Dentry → List ℕ) → List Dentry → Type 0
AllNamed text [] = Unit {0}
AllNamed text (d ∷ ds) =
    (IsText (text d) × (text d ≢ []) × ((rest : Buffer) × (d.name ≡ c_string (text d) rest)))
    × AllNamed text ds

strcmp-same :
    (t u rest rest2 : List ℕ)
    → IsText t
    → IsText u
    → t ≢ []
    → u ≢ []
    → strcmp (c_string t rest) (c_string u rest2) ≡ ok (if same t u then pos 0 else negsuc 0)
strcmp-same t u rest rest2 h h2 ne ne2 = elim (strcmp-c_string t u rest rest2 h h2 ne ne2) [
  | inl (e, eq) ↦ (let yes' : same t u ≡ true = (same_iff t u).1 eq in rw yes' e)
  | inr (e, differ) ↦ elim (Bool-cases (same t u)) [
    | inl yes' ↦ absurd (differ ((same_iff t u).0 yes'))
    | inr no' ↦ rw no' e
  ]
]

module _ (text : Dentry → List ℕ) (t rest : List ℕ) (h : IsText t) (ne : t ≢ []) where
  -- `ramfs_dir_lookup` finds the first entry whose name is the text, which is not empty.
  pub find_entry-first :
      (es : List Dentry)
      → AllNamed text es
      → find_entry (c_string t rest) es ≡ ok (first (λ d. same (text d) t) es)
  unfolding find_entry
  find_entry-first [] named = refl
  find_entry-first (d ∷ ds) ((isd, ned, (r, e)), named) =
      let c : strcmp d.name (c_string t rest) ≡ ok (if same (text d) t then pos 0 else negsuc 0) =
        ap (λ x. strcmp x (c_string t rest)) e ∙ strcmp-same (text d) t r rest isd h ned ne in
      rw c (elim (Bool-cases (same (text d) t)) [
        | inl yes' ↦ rw yes'
        | inr no' ↦ rw no' (find_entry-first ds named)
      ])

-- The loop of `strncmp` with `done` equal bytes behind it: the end of the entry's name differs
-- from each byte of the component.
compare_bytes-begins :
    (done done2 t u rest rest2 : List ℕ) (i : ℕ)
    → i ≡ length done
    → i ≡ length done2
    → IsText t
    → compare_bytes (length t) i (done ++ c_string u rest2) (done2 ++ (t ++ rest))
      ≡ ok (if begins t u then pos 0 else negsuc 0)
unfolding compare_bytes begins
compare_bytes-begins done done2 [] u rest rest2 i e e2 h = refl
compare_bytes-begins done done2 (x ∷ t) [] rest rest2 i e e2 (nz, h) =
    let differ : (0 == x) ≡ false = ground arith in
    rw (read-append done rest2 0 i e, read-append done2 (t ++ rest) x i e2) (rw differ)
compare_bytes-begins done done2 (x ∷ t) (y ∷ u) rest rest2 i e e2 (nz, h) =
    rw (read-append done (c_string u rest2) y i e, read-append done2 (t ++ rest) x i e2)
      (elim (Bool-cases (y == x)) [
        | inl eq ↦ rw eq (
            simp append_assoc at (
              compare_bytes-begins (done ++ y ∷ []) (done2 ++ x ∷ []) t u rest rest2 (i + 1)
                (omega (arith, length-append done (y ∷ [])))
                (omega (arith, length-append done2 (x ∷ []))) h))
        | inr differ ↦ rw differ
      ])

module _ (text : Dentry → List ℕ) (t rest : List ℕ) (h : IsText t) where
  -- The loop of `ramfs_lookup` over the entries stops at the first one whose name begins with the
  -- component.
  pub find_prefix-first :
      (es : List Dentry)
      → AllNamed text es
      → find_prefix (t ++ rest) (length t) es ≡ ok (first (λ d. begins t (text d)) es)
  unfolding find_prefix strncmp
  find_prefix-first [] named = refl
  find_prefix-first (d ∷ ds) ((isd, ned, (r, e)), named) =
      let c : compare_bytes (length t) 0 d.name (t ++ rest)
          ≡ ok (if begins t (text d) then pos 0 else negsuc 0) =
        ap (λ x. compare_bytes (length t) 0 x (t ++ rest)) e
        ∙ compare_bytes-begins [] [] t (text d) rest r 0 refl refl h in
      rw c (elim (Bool-cases (begins t (text d))) [
        | inl yes' ↦ rw yes'
        | inr no' ↦ rw no' (find_prefix-first ds named)
      ])

module _ (text : Dentry → List ℕ) (vdir : Ptr) (t rest : List ℕ) (vpp : Ptr) (s : State) (v : Vnode)
    (n : Ramnode) (es : List Dentry) (parent lastseq : ℕ) (c c2 : ℤ) where
  -- `ramfs_lookup` of a component in an unlocked directory whose entries hold
  -- names that are not empty, where the whole name, which is what is
  -- left of the path, is neither `.` nor `..`: it takes the first entry whose name begins with the
  -- component, and returns what `ramfs_vget` returns for the node of that entry; without such an
  -- entry it is -ENOENT. The node of the directory is locked meanwhile and released behind it.
  pub ramfs_lookup-first :
      s.vnodes vdir ≡ some v
      → is_dir v.kind ≡ true
      → s.disk.nodes v.node ≡ some n
      → n.ramlock ≡ false
      → n.payload ≡ Payload.dir es parent lastseq
      → AllNamed text es
      → IsText t
      → strcmp (t ++ rest) dot ≡ ok c
      → is_zero c ≡ false
      → strcmp (t ++ rest) dotdot ≡ ok c2
      → is_zero c2 ≡ false
      → ramfs_lookup vdir (t ++ rest) (length t) vpp s
        ≡ (do
          lock_node v.node
          r ← elim (first (λ d. begins t (text d)) es) [
            | none ↦ pure (enoent, null)
            | some d ↦ ramfs_vget v.vfs d.node
          ]
          unlock_node v.node
          pure r)
            s
  unfolding ramfs_lookup get_vnode lock_node get_node put_node search_dir entries_of
  ramfs_lookup-first here directory node_here unlocked contents named h e nz e2 nz2 =
      let found = find_prefix-first text t rest h es named in
      ground (arith, here, node_here, unlocked, directory, contents, e, nz, e2, nz2, found)
