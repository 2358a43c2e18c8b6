-- ===== src/Gdt/Segments.antt =====
-- kernel/gdt.c: a descriptor as the processor reads it.
use franklin.Base.{ℕ, ◌+◌, ◌*◌, ◌/◌, ◌%◌, ◌^◌}
use franklin.Exec.Words.{Memory}

pub record Segment : Type 0 where
  pub base : ℕ
  pub limit : ℕ
  pub access : ℕ
  pub flags : ℕ

-- The descriptor of eight bytes with the index `i`.
unfoldable pub segment_at : Memory → ℕ → Segment
segment_at m i = record {
  base = m (8 * i + 2) + 2 ^ 8 * m (8 * i + 3) + 2 ^ 16 * m (8 * i + 4) + 2 ^ 24 * m (8 * i + 7);
  limit = m (8 * i) + 2 ^ 8 * m (8 * i + 1) + 2 ^ 16 * (m (8 * i + 6) % 2 ^ 4);
  access = m (8 * i + 5);
  flags = m (8 * i + 6) / 2 ^ 4;
}

-- The upper half of the address, behind the descriptor of a task state segment.
unfoldable pub high_at : Memory → ℕ → ℕ
high_at m i =
    m (8 * i + 8) + 2 ^ 8 * m (8 * i + 9) + 2 ^ 16 * m (8 * i + 10) + 2 ^ 24 * m (8 * i + 11)
