-- ===== src/Memory/Cursor.antt =====
-- What stands from an offset of a block on.
use employee_database.Prelude.{
  ℕ, ◌+◌, ◌≡◌, sym, ◌∙◌, ◌++◌, arith, length, length-append, append_assoc,
}
use employee_database.Memory.{Block}

-- From offset `at` on, `buf` holds `rest`.
pub record At (at : ℕ) (rest buf : Block) : Type 0 where
  pub front : Block
  pub bytes : buf ≡ front ++ rest
  pub offset : at ≡ length front

pub At-skip :
    (at n : ℕ) (xs rest buf : Block) → n ≡ length xs → At at (xs ++ rest) buf → At (at + n) rest buf
At-skip at n xs rest buf e a = record {
  front = a.front ++ xs;
  bytes = a.bytes ∙ sym (append_assoc a.front xs rest);
  offset = omega (arith, a.offset, length-append a.front xs);
}
