-- ===== src/Tests/Protocol.antt =====
-- src/proto.c on concrete requests and responses.
use employee_database.Prelude.{
  ℕ, zero, suc, ◌≡◌, ◌⊎◌, refl, false, none, List, [], ◌∷◌, ◌++◌, map, arith, length, max, All,
  replicate,
}
use employee_database.Memory.{ok, error, Block}
use employee_database.Employee.{IsEntry, stored}
use employee_database.Proto.Buffer.{Buffer, resize_buffer}
use employee_database.Proto.Buffer.Room.{Holds, resize_buffer-Holds}
use employee_database.Proto.Options.Format.{IsShort, IsReady}
use employee_database.Proto.Listing.{
  read_rows, serialize_list_employee_response, deserialize_list_employee_response,
}
use employee_database.Proto.Listing.Rows.{rows, Fills, serialize_list_employee_response-Fills}
use employee_database.Proto.Listing.Read.{filled, deserialize_list_employee_response-rows}
use employee_database.Proto.Listing.Read.Fuel.{read_rows-enough}
use employee_database.Proto.Listing.Read.Lost.{deserialize_list_employee_response-lost}
use employee_database.Tests.Data.{
  ada, bob, ada-IsEntry, bob-IsEntry, ample, request_header, empty_request,
}

abbrev ada_name : List ℕ
ada_name = b'a' ∷ b'd' ∷ b'a' ∷ []

empty_request-Holds : Holds request_header 0 empty_request
empty_request-Holds = record { rest = []; bytes = refl; at_end = refl; sized = refl; roomy = refl }

empty_request-IsReady : IsReady request_header 0 empty_request
empty_request-IsReady = record {
  held = empty_request-Holds;
  written_small = omega arith;
  capacity_small = omega arith;
}

ada-IsShort : IsShort ada_name
ada-IsShort = omega arith

resize_buffer-Holds_example :
    ((c : Buffer) × (resize_buffer ample empty_request 5 ≡ ok c) × Holds request_header (max 0 5) c)
    ⊎ ((n : ℕ) × (ample.can_grow n ≡ false) × (resize_buffer ample empty_request 5 ≡ error))
resize_buffer-Holds_example =
    resize_buffer-Holds ample 5 request_header 0 empty_request empty_request-Holds (omega arith)
      (omega arith)

abbrev response_header : Block
response_header = 3 ∷ 0 ∷ 0 ∷ 0 ∷ 0 ∷ 0xaa ∷ 0xaa ∷ 0xaa ∷ 0xaa ∷ []

abbrev response : Buffer
response = record { block = response_header; cursor = 9; capacity = 9 }

serialize_list_employee_response-Fills_example :
    Fills ample
      (response_header ++ rows (ada ∷ bob ∷ []))
      (serialize_list_employee_response ample response (map stored (ada ∷ bob ∷ [])))
unfolding rows
serialize_list_employee_response-Fills_example =
    serialize_list_employee_response-Fills ample (ada ∷ bob ∷ []) response_header response
      (ada-IsEntry, (bob-IsEntry, tt))
      (record { rest = []; bytes = refl; at_end = refl; sized = refl; roomy = refl }) (omega arith)

deserialize_list_employee_response-rows_example :
    deserialize_list_employee_response ample
      (rows (ada ∷ bob ∷ []))
      (length (rows (ada ∷ bob ∷ [])))
    ≡ ok (filled (ada ∷ bob ∷ []))
deserialize_list_employee_response-rows_example =
    deserialize_list_employee_response-rows ample (ada ∷ bob ∷ []) (ada-IsEntry, (bob-IsEntry, tt))
      (omega arith) refl

read_rows-enough_example :
    read_rows 5 ample (0 ∷ 1 ∷ 0 ∷ []) 3 0 (replicate 32 none) 0
    ≡ read_rows 4 ample (0 ∷ 1 ∷ 0 ∷ []) 3 0 (replicate 32 none) 0
read_rows-enough_example =
    read_rows-enough 4 ample (0 ∷ 1 ∷ 0 ∷ []) 3 0 (replicate 32 none) 0 (omega arith)

All-replicate : (n : ℕ) → All IsEntry (replicate n ada)
All-replicate zero = tt
All-replicate (suc n) = (ada-IsEntry, All-replicate n)

deserialize_list_employee_response-lost_example :
    deserialize_list_employee_response ample
      (rows (replicate 32 ada ++ (bob ∷ [])))
      (length (rows (replicate 32 ada ++ (bob ∷ []))))
    ≡ ok (replicate 32 none ++ filled (bob ∷ []))
deserialize_list_employee_response-lost_example =
    deserialize_list_employee_response-lost ample (replicate 32 ada) bob [] (All-replicate 32)
      (bob-IsEntry, tt) refl (omega arith) refl refl
