-- ===== src/Proto/Options/Format.antt =====
-- The bytes of each option, and what a serialiser may answer.
use employee_database.Prelude.{ℕ, ◌<◌, ◌≤◌, ◌^◌, ◌≡◌, false, List, ◌++◌, length}
use employee_database.Memory.{Result, ok, error, fault, Block, Allocator}
use employee_database.Memory.Bytes.{be16, be32}
use employee_database.Memory.Text.{IsText}
use employee_database.Employee.{Entry}
use employee_database.Proto.Buffer.{Buffer}
use employee_database.Proto.Buffer.Room.{Holds}

-- A text behind its length.
abbrev pub sized_text : List ℕ → Block
sized_text s = be16 (length s) ++ s

abbrev pub add_fields : Entry → Block
add_fields e = sized_text e.name ++ (sized_text e.address ++ be32 e.hours)

abbrev pub update_fields : List ℕ → ℕ → Block
update_fields name hours = sized_text name ++ be32 hours

-- A text whose length fits the 16 bits of the format.
pub record IsShort (s : List ℕ) : Type 0 where
  pub text : IsText s
  pub short : length s < 2 ^ 16

-- The serialiser wrote `written` in all and stayed within the buffer, or `realloc` refused a size
-- and it answered STATUS_ERROR; it did not fault. At most `room` bytes are left behind the cursor.
abbrev pub Appends : Allocator → Block → ℕ → Result Buffer → Type 0
Appends m written room (ok b) = (left : ℕ) × (left ≤ room) × Holds written left b
Appends m written room error = (n : ℕ) × (m.can_grow n ≡ false)
Appends m written room fault = ⊥

-- A buffer that a call of a serialiser may start from: `written` stands before the cursor, `room` bytes follow it, and all
-- sizes fit a `size_t`.
pub record IsReady (written : Block) (room : ℕ) (b : Buffer) : Type 0 where
  pub held : Holds written room b
  pub written_small : length written < 2 ^ 63
  pub capacity_small : b.capacity < 2 ^ 63
