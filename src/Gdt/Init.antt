-- ===== src/Gdt/Init.antt =====
-- kernel/gdt.c, `init_gdt`: the new table.
use franklin.Pmm.{Pmm, palloc}
use franklin.Base.{
  bit_or, ok, ℕ, ◌+◌, ◌*◌, ◌/◌, ◌%◌, ◌^◌, ◌≤◌, ◌<◌, ◌≡◌, refl, arith, ltb, if◌then◌else◌, [], ◌∷◌,
  inl, ap, ◌∙◌,
}
use franklin.Exec.Words.{Memory}
use franklin.Gdt.{
  ltr, tss_desc, Gdt, desc_bytes, tss_bytes, put_bytes, add_desc, alloc_tss, init_tss, init_gdt,
  userdata, usercode,
}
use franklin.Gdt.Segments.{Segment, segment_at, high_at}
use franklin.Gdt.Tss.{
  ltr-other, ltr-segment_at, put_bytes-outside, put_bytes-get, segment_at-same,
  segment_at-put_bytes, add_desc_lem,
}

-- The table `r`, with its selector and limit, after an old one whose last index is `k`.
pub record Installed (old : Memory) (k tss : ℕ) (r : (Gdt × ℕ) × ℕ) : Type 0 where
  pub kept : (b : ℕ) → b < 8 * k + 7 → r.0.0.bytes b ≡ old b
  pub lost : r.0.0.bytes (8 * k + 7) ≡ 0
  pub userdata :
      segment_at r.0.0.bytes (k + 1) ≡ record { base = 0; limit = 0; access = 0xf2; flags = 0 }
  pub usercode :
      segment_at r.0.0.bytes (k + 2) ≡ record { base = 0; limit = 0; access = 0xf8; flags = 2 }
  pub task :
      segment_at r.0.0.bytes (k + 3)
      ≡ record { base = tss % 2 ^ 24; limit = 0x67; access = 0x8b; flags = 0 }
  pub high : high_at r.0.0.bytes (k + 3) ≡ tss / 2 ^ 32
  pub selector : r.0.1 ≡ 8 * (k + 3)
  pub limit : r.1 ≡ 4096

module _ (k tss : ℕ) (m : Memory) where
  abbrev with_data : Memory
  with_data = put_bytes (8 * (k + 1)) (desc_bytes userdata) m

  abbrev with_code : Memory
  with_code = put_bytes (8 * (k + 1 + 1)) (desc_bytes usercode) with_data

  abbrev filled : Memory
  filled = put_bytes (8 * (k + 1 + 1 + 1)) (tss_bytes (tss_desc tss)) with_code

  added_lem :
      (mid last : Pmm) (a : ℕ)
      → k + 3 < 2 ^ 8
      → palloc 1 mid ≡ ok (a, last)
      → init_tss tss
          (add_desc
            (desc_bytes usercode)
            (add_desc (desc_bytes userdata) (record { bytes = m; gdt_index = k })))
          mid
        ≡ ok ((record { bytes = filled; gdt_index = k + 1 + 1 + 1 }, 8 * (k + 3)), last)
  unfolding init_tss alloc_tss
  added_lem mid last a h given =
      let e : 8 * (k + 1 + 1 + 1) % 2 ^ 16 ≡ 8 * (k + 3) = omega arith in
      rw (add_desc_lem (desc_bytes userdata) m k (omega arith)) (
        rw (add_desc_lem (desc_bytes usercode) with_data (k + 1) (omega arith)) (
          rw given (
            rw (add_desc_lem (tss_bytes (tss_desc tss)) with_code (k + 1 + 1) (omega arith))
              (rw e refl))))

  filled-front : (b : ℕ) → b < 8 * (k + 1) → filled b ≡ m b
  filled-front b lt =
      put_bytes-outside (8 * (k + 1 + 1 + 1)) (tss_bytes (tss_desc tss)) with_code b
        (inl (omega arith))
      ∙ put_bytes-outside (8 * (k + 1 + 1)) (desc_bytes usercode) with_data b (inl (omega arith))
      ∙ put_bytes-outside (8 * (k + 1)) (desc_bytes userdata) m b (inl lt)

  filled-userdata :
      segment_at filled (k + 1) ≡ record { base = 0; limit = 0; access = 0xf2; flags = 0 }
  unfolding desc_bytes
  filled-userdata =
      segment_at-same (k + 1) with_data filled (λ b le lt.
        put_bytes-outside (8 * (k + 1 + 1 + 1)) (tss_bytes (tss_desc tss)) with_code b
          (inl (omega arith))
        ∙ put_bytes-outside (8 * (k + 1 + 1)) (desc_bytes usercode) with_data b (inl (omega arith)))
      ∙ segment_at-put_bytes (k + 1) 0 0 0 0 0 0xf2 0 0 [] m

  filled-usercode :
      segment_at filled (k + 1 + 1) ≡ record { base = 0; limit = 0; access = 0xf8; flags = 2 }
  unfolding desc_bytes
  filled-usercode =
      segment_at-same (k + 1 + 1) with_code filled (λ b le lt.
        put_bytes-outside (8 * (k + 1 + 1 + 1)) (tss_bytes (tss_desc tss)) with_code b
          (inl (omega arith)))
      ∙ segment_at-put_bytes (k + 1 + 1) 0 0 0 0 0 0xf8 0x20 0 [] with_data

  filled-task :
      segment_at filled (k + 1 + 1 + 1)
      ≡ record { base = tss % 2 ^ 24; limit = 0x67; access = 0x89; flags = 0 }
  unfolding desc_bytes tss_bytes tss_desc
  filled-task =
      let h = tss / 2 ^ 32 % 2 ^ 32 in
      let e : tss % 2 ^ 8
            + 2 ^ 8 * (tss / 2 ^ 8 % 2 ^ 8)
            + 2 ^ 16 * (tss / 2 ^ 16 % 2 ^ 8)
            + 2 ^ 24 * 0
          ≡ tss % 2 ^ 24 =
        omega arith in
      segment_at-put_bytes (k + 1 + 1 + 1) 0x67 0 (tss % 2 ^ 8) (tss / 2 ^ 8 % 2 ^ 8)
        (tss / 2 ^ 16 % 2 ^ 8) 0x89 0 0
        ((h % 2 ^ 8) ∷ (h / 2 ^ 8 % 2 ^ 8) ∷ (h / 2 ^ 16 % 2 ^ 8) ∷ (h / 2 ^ 24) ∷ []) with_code
      ∙ ap (λ (b : ℕ). record { base = b; limit = 0x67; access = 0x89; flags = 0 }) e

  filled-high : tss < 2 ^ 64 → high_at filled (k + 1 + 1 + 1) ≡ tss / 2 ^ 32
  unfolding desc_bytes tss_bytes tss_desc high_at
  filled-high small =
      let get = put_bytes-get (8 * (k + 1 + 1 + 1)) (tss_bytes (tss_desc tss)) with_code in
      rw (get 8 _ refl, get 9 _ refl, get 10 _ refl, get 11 _ refl) (omega arith)

  -- The same with the task register loaded.
  abbrev loaded : Memory
  loaded = ltr (8 * (k + 3)) filled

  loaded-same : (i : ℕ) → i < k + 3 → segment_at loaded i ≡ segment_at filled i
  loaded-same i lt =
      segment_at-same i filled loaded λ b ge le. ltr-other (k + 3) filled b (omega arith)

  loaded-task :
      segment_at loaded (k + 3)
      ≡ record { base = tss % 2 ^ 24; limit = 0x67; access = 0x8b; flags = 0 }
  unfolding segment_at
  loaded-task =
      let e : k + 3 ≡ k + 1 + 1 + 1 = omega arith in
      let task : segment_at filled (k + 3)
          ≡ record { base = tss % 2 ^ 24; limit = 0x67; access = 0x89; flags = 0 } =
        rw e filled-task in
      ltr-segment_at (k + 3) filled
      ∙ ap (λ (g : Segment). record g { access = bit_or g.access 2 }) task

  loaded-high : tss < 2 ^ 64 → high_at loaded (k + 3) ≡ tss / 2 ^ 32
  unfolding high_at
  loaded-high small =
      let e : k + 3 ≡ k + 1 + 1 + 1 = omega arith in
      let other = λ (b : ℕ) (ge : 8 * (k + 3) + 8 ≤ b). ltr-other (k + 3) filled b (omega arith) in
      rw
        (
          other (8 * (k + 3) + 8) (omega arith),
          other (8 * (k + 3) + 9) (omega arith),
          other (8 * (k + 3) + 10) (omega arith),
          other (8 * (k + 3) + 11) (omega arith),
        )
        (rw e (filled-high small))

-- After a table whose limit is that of the last index `k`, at most 252, and with two pages to be
-- had, `init_gdt` takes these and keeps every byte of the table but the last, which becomes 0; the
-- next three descriptors are those of the data and the code of programs, at privilege level 3, and
-- the task state segment, busy, without the bits 24 to 31 of its address, of 64 bits; the selector
-- for the task register has its index.
pub init_gdt-Installed :
    (old : Memory) (k : ℕ) (page : Memory) (tss : ℕ) (pages mid last : Pmm) (a b : ℕ)
    → k ≤ 252
    → tss < 2 ^ 64
    → palloc 1 pages ≡ ok (a, mid)
    → palloc 1 mid ≡ ok (b, last)
    → (r : (Gdt × ℕ) × ℕ) × (init_gdt old (8 * k + 7) page tss pages ≡ ok (r, last))
      × Installed old k tss r
unfolding init_gdt
init_gdt-Installed old k page tss pages mid last a b le small first second =
    let m : Memory = λ b. if ltb b (8 * k + 7) then old b else (if ltb b 4096 then 0 else page b) in
    let index : (8 * k + 7) / 8 % 2 ^ 8 ≡ k = omega arith in
    let bytes = loaded k tss m in
    let front = λ (c : ℕ) (lt : c < 8 * (k + 1)).
      ltr-other (k + 3) (filled k tss m) c (omega arith) ∙ filled-front k tss m c lt in
    (
      ((record { bytes = bytes; gdt_index = k + 1 + 1 + 1 }, 8 * (k + 3)), 4096),
      rw first (rw index (rw (added_lem k tss m mid last b (omega arith) second) refl)),
      record {
        kept = λ c lt. front c (omega arith) ∙ ground arith;
        lost = front (8 * k + 7) (omega arith) ∙ ground arith;
        userdata = loaded-same k tss m (k + 1) (omega arith) ∙ filled-userdata k tss m;
        usercode =
            loaded-same k tss m (k + 2) (omega arith)
            ∙ (let e : k + 2 ≡ k + 1 + 1 = omega arith in rw e (filled-usercode k tss m));
        task = loaded-task k tss m;
        high = loaded-high k tss m small;
        selector = refl;
        limit = refl;
      },
    )
