-- ===== src/Proto/Buffer.antt =====
-- The growing buffer of src/proto.c: a block, a cursor into it, and its capacity.
pub mod Room
use employee_database.Prelude.{ℕ, ◌+◌, ◌-◌, ◌%◌, ◌^◌, List, ltb, if◌then◌else◌, length}
use employee_database.Memory.{Result, ok, ◌>>=◌, Block, store, Allocator, realloc}

-- `*buf`, `*cursor - *buf` and `*capacity`
pub record Buffer : Type 0 where
  pub block : Block
  pub cursor : ℕ
  pub capacity : ℕ

-- The arithmetic is that of `size_t`.
unfoldable pub resize_buffer : Allocator → Buffer → ℕ → Result Buffer
resize_buffer m b data_len =
    let delta = (b.capacity + 2 ^ 64 - b.cursor) % 2 ^ 64 in
    let capacity = (b.capacity + (data_len - delta)) % 2 ^ 64 in
    if ltb delta data_len
    then (do
      new_buf ← realloc m capacity b.block
      ok (record { block = new_buf; cursor = b.cursor; capacity = capacity }))
    else ok b

-- A store at the cursor, which then moves past it.
unfoldable pub emit : List ℕ → Buffer → Result Buffer
emit xs b = do
  block ← store b.cursor xs b.block
  ok (record { block = block; cursor = b.cursor + length xs; capacity = b.capacity })
