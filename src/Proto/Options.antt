-- ===== src/Proto/Options.antt =====
-- The options of a request: the serialisers that the client calls, and the deserialisers of the
-- server. A serialiser writes the option's letter and fields at the cursor of the request buffer; a
-- deserialiser reads the fields at an offset of the server's copy and returns the offset behind.
pub mod Format
pub mod Serialize
pub mod Deserialize
use employee_database.Prelude.{ℕ, ◌+◌, ◌*◌, List, [], ◌∷◌, ◌++◌, leb, if◌then◌else◌, drop}
use employee_database.Memory.{Result, ok, error, ◌>>=◌, ◌>>◌, check, Block, load, Allocator}
use employee_database.Memory.Bytes.{be16, be32, of_be}
use employee_database.Memory.Text.{strlen, strncpy}
use employee_database.Employee.{Employee}
use employee_database.Parse.{parse_employee_vals, parse_employee_hours}
use employee_database.Proto.Buffer.{Buffer, resize_buffer, emit}

-- UINT16_MAX
abbrev pub uint16_max : ℕ
uint16_max = 65535

unfoldable pub serialize_add_employee_option : Allocator → Buffer → Block → Result Buffer
serialize_add_employee_option m b₀ add_employee_str = do
  v ← parse_employee_vals add_employee_str
  name_len ← strlen v.name
  check (leb name_len uint16_max)
  address_len ← strlen v.address
  check (leb address_len uint16_max)
  b₁ ← resize_buffer m b₀ (name_len + address_len + 2 * 2 + 4 + 1)
  b₂ ← emit (b'a' ∷ []) b₁
  b₃ ← emit (be16 name_len) b₂
  name ← strncpy v.name name_len
  b₄ ← emit name b₃
  b₅ ← emit (be16 address_len) b₄
  address ← strncpy v.address address_len
  b₆ ← emit address b₅
  b₇ ← emit (be32 v.hours) b₆
  ok b₇

unfoldable pub serialize_update_employee_option : Allocator → Buffer → Block → Block → Result Buffer
serialize_update_employee_option m b₀ update_employee_name shours = do
  hours ← parse_employee_hours shours
  name_len ← strlen update_employee_name
  check (leb name_len uint16_max)
  b₁ ← resize_buffer m b₀ (2 + 4 + name_len + 1)
  b₂ ← emit (b'u' ∷ []) b₁
  b₃ ← emit (be16 name_len) b₂
  name ← strncpy update_employee_name name_len
  b₄ ← emit name b₃
  b₅ ← emit (be32 hours) b₄
  ok b₅

unfoldable pub serialize_delete_employee_option : Allocator → Buffer → Block → Result Buffer
serialize_delete_employee_option m b₀ delete_employee_name = do
  name_len ← strlen delete_employee_name
  check (leb name_len uint16_max)
  b₁ ← resize_buffer m b₀ (2 + name_len + 1)
  b₂ ← emit (b'd' ∷ []) b₁
  b₃ ← emit (be16 name_len) b₂
  name ← strncpy delete_employee_name name_len
  b₄ ← emit name b₃
  ok b₄

unfoldable pub serialize_list_option : Allocator → Buffer → Result Buffer
serialize_list_option m b₀ = do b₁ ← resize_buffer m b₀ 1; b₂ ← emit (b'l' ∷ []) b₁; ok b₂

-- `ntohs(*(uint16_t *)cursor)` and `ntohl(*(uint32_t *)cursor)`
unfoldable pub load_u16 : ℕ → Block → Result ℕ
load_u16 at buf = do bytes ← load at 2 buf; ok (of_be bytes 0)

unfoldable pub load_u32 : ℕ → Block → Result ℕ
load_u32 at buf = do bytes ← load at 4 buf; ok (of_be bytes 0)

-- `n` bytes copied by `strncpy` into a fresh block of `n + 1`, and a terminator behind them.
unfoldable pub copy_text : ℕ → ℕ → Block → Result Block
copy_text at n buf = do text ← strncpy (drop at buf) n; ok (text ++ (0 ∷ []))

unfoldable pub deserialize_add_employee_option : Block → ℕ → Result (Employee × ℕ)
deserialize_add_employee_option buf at = do
  name_len ← load_u16 at buf
  name ← copy_text (at + 2) name_len buf
  address_len ← load_u16 (at + 2 + name_len) buf
  address ← copy_text (at + 2 + name_len + 2) address_len buf
  hours ← load_u32 (at + 2 + name_len + 2 + address_len) buf
  ok (
    record { name = name; address = address; hours = hours },
    at + 2 + name_len + 2 + address_len + 4,
  )

unfoldable pub deserialize_update_employee_option : Block → ℕ → Result (Block × ℕ × ℕ)
deserialize_update_employee_option buf at = do
  name_len ← load_u16 at buf
  employee_name ← copy_text (at + 2) name_len buf
  hours ← load_u32 (at + 2 + name_len) buf
  ok (employee_name, hours, at + 2 + name_len + 4)

unfoldable pub deserialize_delete_employee_option : Block → ℕ → Result (Block × ℕ)
deserialize_delete_employee_option buf at = do
  name_len ← load_u16 at buf
  employee_name ← copy_text (at + 2) name_len buf
  ok (employee_name, at + 2 + name_len)
