-- ===== src/Serialize/InMemory.antt =====
-- serialize_employee and deserialize_employee of src/serialize.c, which work on a buffer in memory.
pub mod Overrun
use employee_database.Prelude.{ℕ, ◌+◌, ◌*◌, ◌%◌, ◌^◌, List, [], ◌∷◌, drop}
use employee_database.Memory.{Result, ok, ◌>>=◌, ◌>>◌, check, Block, Allocator, fresh}
use employee_database.Memory.Bytes.{be16, be32}
use employee_database.Memory.Text.{strlen, strncpy}
use employee_database.Employee.{Employee}
use employee_database.Proto.Buffer.{Buffer, emit}
use employee_database.Proto.Options.{load_u16, load_u32}

-- The fresh buffer, `p` at its start.
abbrev pub new_buffer : Allocator → ℕ → Buffer
new_buffer m buf_len = record { block = fresh m.junk 0 buf_len; cursor = 0; capacity = buf_len }

-- The buffer has `buf_len` bytes; `p` is its cursor. `strncpy` has copied a terminator already when
-- `*p++ = '\0'` writes another one.
unfoldable pub serialize_employee : Allocator → Employee → Result Buffer
serialize_employee m e = do
  name_strlen ← strlen e.name
  let name_len = (name_strlen + 1) % 2 ^ 16
  address_strlen ← strlen e.address
  let address_len = (address_strlen + 1) % 2 ^ 16
  let buf_len = name_len + address_len + 2 * 2 + 4
  check (m.can_grow buf_len)
  b₁ ← emit (be16 name_len) (new_buffer m buf_len)
  name ← strncpy e.name name_len
  b₂ ← emit name b₁
  b₃ ← emit (0 ∷ []) b₂
  b₄ ← emit (be16 address_len) b₃
  address ← strncpy e.address address_len
  b₅ ← emit address b₄
  b₆ ← emit (0 ∷ []) b₅
  b₇ ← emit (be32 e.hours) b₆
  ok b₇

-- The name and the address point into the buffer.
unfoldable pub deserialize_employee : Block → Result Employee
deserialize_employee buf = do
  name_len ← load_u16 0 buf
  address_len ← load_u16 (2 + name_len + 1) buf
  hours ← load_u32 (2 + name_len + 1 + 2 + address_len + 1) buf
  ok (record { name = drop 2 buf; address = drop (2 + name_len + 1 + 2) buf; hours = hours })
