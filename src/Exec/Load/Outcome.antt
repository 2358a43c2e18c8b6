-- ===== src/Exec/Load/Outcome.antt =====
-- kernel/proc.c, `loadelf`: what the load of a segment leaves, and the pages that it takes.
use franklin.Base.{
  ℕ, zero, suc, ◌+◌, ◌*◌, ◌%◌, ◌^◌, ◌≤◌, ◌<◌, ◌≡◌, refl, ap, ◌⊎◌, inl, inr, true, arith, List, [],
  ◌∷◌, length, take, drop, get_elem?, some, Run, ok, fault, ℕ_discrete,
}
use franklin.Text.{Buffer}
use franklin.Bitmap.Laws.{used}
use franklin.Pmm.{Pmm, page_size}
use franklin.Pmm.Scan.{Fits}
use franklin.Pmm.Alloc.{MarksRun}
use franklin.Vmm.{Vm}
use franklin.Vmm.Tree.{Label, IsTree, page_at}
use franklin.Vmm.View.{view}
use franklin.Vmm.Refines.{page_of, IsIn, Takes}
use franklin.Vmm.Series.{or_else}
use franklin.Vmm.Range.{range_entry}
use franklin.Exec.Load.{Machine, Files, Phdr, get_bytes, page_count, segment_flags}

-- A file: where its state satisfies `I`, a read inside it gives its bytes, and `I` stays.
pub record FileAt {F : Type 0} (calls : Files F) (vn : ℕ) (content : Buffer) (I : F → Type 0)
    : Type 0 where
  pub reads :
      (f : F)
      → I f
      → (b : Buffer) (offset count : ℕ) → offset + count ≤ length content
      → length b ≡ count
      → (f' : F) × (calls.read_file vn b offset count f ≡ ok (take count (drop offset content), f'))
        × I f'

-- A segment that lies in the file, at a page of the program, and inside the addresses.
pub record IsSegment (content : Buffer) (h : Phdr) : Type 0 where
  pub in_file : h.p_offset + h.p_filesz ≤ length content
  pub sizes : h.p_filesz ≤ h.p_memsz
  pub bounded : h.p_memsz + page_size ≤ 2 ^ 64
  pub aligned : h.p_vaddr % page_size ≡ 0
  pub low : page_of h.p_vaddr + page_count h ≤ 2 ^ 36

-- No run of `k` free pages avoids `xs`; both are at most `n`.
pub record Starved (s : Vm) (n : ℕ) : Type 0 where
  pub run :
      (k : ℕ) × (xs : List ℕ) × (k ≤ n)
      × (length xs ≤ n)
      × ((q : ℕ) → Fits s.pages.bitmap k q → ¬ ((i : ℕ) → q ≤ i → i < q + k → ¬ IsIn i xs))

-- What the load of a segment does.
pub record SegmentLoaded {F : Type 0} (content : Buffer) (h : Phdr) (top : ℕ) (s t : Machine F)
    : Type 0 where
  pub page : ℕ
  pub free : Fits s.vm.pages.bitmap (page_count h) page
  pub in_use : (q : ℕ) → page ≤ q → q < page + page_count h → used t.vm.pages.bitmap q ≡ true
  pub entries :
      (v : ℕ)
      → view t.vm.mem 3 top v
        ≡ or_else
            (view s.vm.mem 3 top v)
            (range_entry (page_count h) h.p_vaddr (page * page_size) (segment_flags h.p_flags) v)
  pub outside : (b : ℕ) → (b < page_at page) ⊎ (page_at page + h.p_filesz ≤ b) → t.ram b ≡ s.ram b
  pub bytes :
      (j c : ℕ)
      → j < h.p_filesz
      → get_elem? content (h.p_offset + j) ≡ some c
      → t.ram (page_at page + j) ≡ c
  pub takes : Takes s.vm t.vm (4 * page_count h + 1)

pub data LoadsSegment {F : Type 0} (I : F → Type 0) (content : Buffer) (h : Phdr) (top : ℕ)
    (s : Machine F) : Run (Unit {0} × Machine F) → Type 0 where
  loaded :
      {t : Machine F} (at : ℕ → Label)
      → IsTree t.vm at
      → at top ≡ some (3, 0)
      → I t.files
      → SegmentLoaded content h top s t
      → LoadsSegment I content h top s (ok (tt, t))
  starved : Starved s.vm (4 * page_count h + 1) → LoadsSegment I content h top s fault

pub get_elem?-take : (n j : ℕ) (xs : Buffer) → j < n → get_elem? (take n xs) j ≡ get_elem? xs j
get_elem?-take zero j xs h = absurd (omega arith)
get_elem?-take (suc n) j [] h = refl
get_elem?-take (suc n) zero (x ∷ xs) h = refl
get_elem?-take (suc n) (suc j) (x ∷ xs) h = get_elem?-take n j xs (omega arith)

pub get_elem?-drop : (n j : ℕ) (xs : Buffer) → get_elem? (drop n xs) j ≡ get_elem? xs (n + j)
get_elem?-drop zero j xs = (let e : 0 + j ≡ j = omega arith in rw e refl)
get_elem?-drop (suc n) j [] = refl
get_elem?-drop (suc n) j (x ∷ xs) =
    let e : suc n + j ≡ suc (n + j) = omega arith in rw e (get_elem?-drop n j xs)

pub length-get_bytes : (count a : ℕ) (m : ℕ → ℕ) → length (get_bytes count a m) ≡ count
length-get_bytes zero a m = refl
length-get_bytes (suc count) a m = ap suc (length-get_bytes count (a + 1) m)

pub IsTree-pages :
    {s : Vm} {at : ℕ → Label} (pages : Pmm) (p n : ℕ)
    → MarksRun s.pages.bitmap p n true pages.bitmap
    → IsTree s at
    → IsTree (record s { pages = pages }) at
IsTree-pages {s} {at} pages p n marks tree = record {
  small = omega (arith, tree.small, marks.size);
  backed = λ a x h.
      let (q, e, lt, u) = tree.backed a x h in
      (q, e, omega (arith, marks.size), ground (arith, marks.bits q, u));
  child = tree.child;
}

-- The pages of a run.
run_list : (n p : ℕ) → List ℕ
run_list zero p = []
run_list (suc n) p = p ∷ run_list n (p + 1)

length-run_list : (n p : ℕ) → length (run_list n p) ≡ n
unfolding run_list
length-run_list zero p = refl
length-run_list (suc n) p = ap suc (length-run_list n (p + 1))

run_list-IsIn : (n p q : ℕ) → p ≤ q → q < p + n → IsIn q (run_list n p)
unfolding run_list
run_list-IsIn zero p q le lt = absurd (omega arith)
run_list-IsIn (suc n) p q le lt = elim (ℕ_discrete q p) [
  | yes e ↦ inl e
  | no ne ↦ inr (run_list-IsIn n (p + 1) q (omega arith) (omega arith))
]

pub alloc-Takes :
    (s : Vm) (pages : Pmm) (p n : ℕ)
    → MarksRun s.pages.bitmap p n true pages.bitmap
    → Takes s (record s { pages = pages }) n
alloc-Takes s pages p n marks = record {
  size = marks.size;
  keeps = λ q u. ground (arith, marks.bits q, u);
  pages = (
    run_list n p,
    omega (arith, length-run_list n p),
    λ q u. elim (dec_run p n q) [
      | inl r ↦ inr (run_list-IsIn n p q r.0 r.1)
      | inr out ↦ inl (ground (arith, marks.bits q, u, out))
    ],
  );
}
  where
    dec_run : (p n q : ℕ) → ((p ≤ q) × (q < p + n)) ⊎ ((q < p) ⊎ (p + n ≤ q))
    dec_run p n q = omega arith
