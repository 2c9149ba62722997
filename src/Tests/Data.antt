-- ===== src/Tests/Data.antt =====
-- The inputs of the tests.
use employee_database.Prelude.{ℕ, true, [], ◌∷◌, arith}
use employee_database.Memory.{Allocator, Block}
use employee_database.Employee.{Entry, IsEntry}
use employee_database.Proto.Buffer.{Buffer}

abbrev pub ada : Entry
ada = record { name = b'a' ∷ b'd' ∷ b'a' ∷ []; address = b'x' ∷ []; hours = 40 }

abbrev pub bob : Entry
bob = record { name = b'b' ∷ b'o' ∷ b'b' ∷ []; address = b'y' ∷ b'z' ∷ []; hours = 7 }

pub ada-IsEntry : IsEntry ada
ada-IsEntry = omega arith

pub bob-IsEntry : IsEntry bob
bob-IsEntry = omega arith

-- An allocator that grants every request.
abbrev pub ample : Allocator
ample = record { can_grow = λ _. true; junk = λ _. 0xaa }

-- The request buffer as the client allocates it: the message type, an unwritten length, no room.
abbrev pub request_header : Block
request_header = 2 ∷ 0 ∷ 0 ∷ 0 ∷ 0xaa ∷ 0xaa ∷ 0xaa ∷ 0xaa ∷ []

abbrev pub empty_request : Buffer
empty_request = record { block = request_header; cursor = 8; capacity = 8 }

-- `,`
abbrev pub comma : ℕ
comma = 44
