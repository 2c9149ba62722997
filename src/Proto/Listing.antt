-- ===== src/Proto/Listing.antt =====
-- The list response: the server's serialiser and the client's deserialiser.
pub mod Rows
pub mod Read
use employee_database.Prelude.{
  ℕ, zero, suc, ◌+◌, ◌*◌, ◌%◌, ◌^◌, Bool, true, false, Option, none, some, List, [], ◌∷◌, ◌++◌, ltb,
  ◌==◌, if◌then◌else◌, drop, take, replicate, length,
}
use employee_database.Memory.{Result, ok, error, fault, ◌>>=◌, ◌>>◌, check, Block, Allocator}
use employee_database.Memory.Bytes.{be16, be32}
use employee_database.Memory.Text.{strlen, strncpy}
use employee_database.Employee.{Employee}
use employee_database.Proto.Buffer.{Buffer, resize_buffer, emit}
use employee_database.Proto.Options.{load_u16, load_u32}

-- One round of the loop of serialize_list_employee_response. Both lengths count the terminator, and
-- are held in 16 bits; `*buf_len` is held in 32 bits.
serialize_row : Allocator → Buffer → Employee → Result Buffer
serialize_row m b₀ e = do
  name_strlen ← strlen e.name
  address_strlen ← strlen e.address
  let name_len = (name_strlen + 1) % 2 ^ 16
  let address_len = (address_strlen + 1) % 2 ^ 16
  b₁ ← resize_buffer m b₀ (name_len + address_len + 2 * 2 + 4)
  b₂ ← emit (be16 name_len) (record b₁ { capacity = b₁.capacity % 2 ^ 32 })
  name ← strncpy e.name name_len
  b₃ ← emit name b₂
  b₄ ← emit (be16 address_len) b₃
  address ← strncpy e.address address_len
  b₅ ← emit address b₄
  b₆ ← emit (be32 e.hours) b₅
  ok b₆

-- The buffer's block and capacity are `*buf` and `*buf_len` of the caller.
unfoldable pub serialize_list_employee_response : Allocator → Buffer → List Employee → Result Buffer
unfolding serialize_row
serialize_list_employee_response m b [] = ok b
serialize_list_employee_response m b (e ∷ es) = do
  b' ← serialize_row m b e
  serialize_list_employee_response m b' es

-- An employee array; an element that nothing was written to is `none`.
abbrev pub Slots : Type 0
Slots = List (Option Employee)

-- `*(array + i) = e`
put_slot : ℕ → Employee → Slots → Result Slots
put_slot i e [] = fault
put_slot zero e (x ∷ xs) = ok (some e ∷ xs)
put_slot (suc i) e (x ∷ xs) = do r ← put_slot i e xs; ok (x ∷ r)

-- A full array is replaced by a fresh one of twice the size; `*employees_size` is the length.
grow_slots : Allocator → ℕ → Slots → Result Slots
grow_slots m employees_len employees =
    if employees_len == length employees
    then (do
      check (m.can_grow (length employees * 2 * 24))
      ok (replicate (length employees * 2) none))
    else ok employees

-- One employee of the response, and the offset behind it. The copies have no terminator of their
-- own.
read_row : Block → ℕ → Result (Employee × ℕ)
read_row buf at = do
  name_len ← load_u16 at buf
  name ← strncpy (drop (at + 2) buf) name_len
  address_len ← load_u16 (at + 2 + name_len) buf
  address ← strncpy (drop (at + 2 + name_len + 2) buf) address_len
  hours ← load_u32 (at + 2 + name_len + 2 + address_len) buf
  ok (
    record { name = name; address = address; hours = hours },
    at + 2 + name_len + 2 + address_len + 4,
  )

-- The loop with `total_bytes_read` equal to the offset of the cursor; the first argument bounds the
-- number of rounds, and a round reads 8 bytes at least.
pub read_rows : ℕ → Allocator → Block → ℕ → ℕ → Slots → ℕ → Result (Slots × ℕ)
unfolding read_row grow_slots put_slot
read_rows zero m buf buf_size at employees employees_len = ok (employees, employees_len)
read_rows (suc fuel) m buf buf_size at employees employees_len =
    if ltb at buf_size
    then (do
      row ← read_row buf at
      grown ← grow_slots m employees_len employees
      filled ← put_slot employees_len row.0 grown
      read_rows fuel m buf buf_size row.1 filled (employees_len + 1))
    else ok (employees, employees_len)

unfoldable pub deserialize_list_employee_response : Allocator → Block → ℕ → Result Slots
unfolding read_rows
deserialize_list_employee_response m buf buf_size = do
  r ← read_rows (buf_size + 1) m buf buf_size 0 (replicate 32 none) 0
  check (m.can_grow (r.1 * 24))
  ok (take r.1 r.0)
