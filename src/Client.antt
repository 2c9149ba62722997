-- ===== src/Client.antt =====
-- executable_src/client/client.c: main from the connected socket on: the handshake, the request that
-- it builds from the command line, and the response.
pub mod Asks
pub mod Build
pub mod Session
pub mod Converses
pub mod Setup
use employee_database.Prelude.{
  ℕ, ◌+◌, ◌-◌, ◌%◌, ◌^◌, Bool, true, false, Option, none, some, List, [], ◌∷◌, ◌++◌, ◌==◌,
  if◌then◌else◌,
}
use employee_database.Memory.{Result, ok, error, fault, ◌>>=◌, Block, load, store, Allocator, fresh}
use employee_database.Memory.Bytes.{be16, be32, le32, of_le, of_be}
use employee_database.Memory.Text.{strlen}
use employee_database.Models.{code, handshake_request, handshake_response, invalid_request}
use employee_database.Employee.{Employee}
use employee_database.Socket.{Socket, send_all, receive_all}
use employee_database.Proto.Listing.{Slots, deserialize_list_employee_response}
use employee_database.Proto.Buffer.{Buffer}
use employee_database.Proto.Options.{
  serialize_add_employee_option, serialize_update_employee_option, serialize_delete_employee_option,
  serialize_list_option,
}

-- The options of the command line; `none` is a null pointer.
pub record Arguments : Type 0 where
  pub add_employee_str : Option Block
  pub update_employee_str : Option Block
  pub update_hours_str : Option Block
  pub delete_employee_str : Option Block
  pub list_flag : Bool

add_part : Allocator → Option Block → Buffer → Result Buffer
add_part m none b = ok b
add_part m (some s) b = serialize_add_employee_option m b s

-- Either both arguments are given or none; otherwise main prints the usage and exits.
update_part : Allocator → Option Block → Option Block → Buffer → Result Buffer
update_part m none none b = ok b
update_part m none (some hours) b = error
update_part m (some name) none b = error
update_part m (some name) (some hours) b = serialize_update_employee_option m b name hours

delete_part : Allocator → Option Block → Buffer → Result Buffer
delete_part m none b = ok b
delete_part m (some name) b = serialize_delete_employee_option m b name

list_part : Allocator → Bool → Buffer → Result Buffer
list_part m false b = ok b
list_part m true b = serialize_list_option m b

-- The length is written over the four bytes behind the message type, and the bytes in front of the
-- cursor are sent.
finish_request : Buffer → Result Block
finish_request b = do
  let data_len = (b.cursor - 8) % 2 ^ 32
  block ← store 4 (be32 data_len) b.block
  load 0 b.cursor block

-- The message that main sends. An exit with a message is `error`.
unfoldable pub build_request : Allocator → Arguments → Result Block
unfolding add_part update_part delete_part list_part finish_request
build_request m arguments = do
  b₁ ←
      add_part m arguments.add_employee_str
        (record { block = le32 2 ++ fresh m.junk 4 4; cursor = 8; capacity = 8 })
  b₂ ← update_part m arguments.update_employee_str arguments.update_hours_str b₁
  b₃ ← delete_part m arguments.delete_employee_str b₂
  b₄ ← list_part m arguments.list_flag b₃
  finish_request b₄

-- HANDSHAKE_REQ_SIZE is 6.
unfoldable pub send_handshake : ℕ → Socket → Result Socket
send_handshake protocol_version c =
    send_all (le32 (code handshake_request) ++ be16 protocol_version) c

handshake_flag : Block × ℕ × Socket → Result Socket
handshake_flag r = do flag ← load 0 1 r.0; if of_le flag == 0 then ok r.2 else error

unfoldable pub receive_handshake : Allocator → Socket → Result Socket
unfolding handshake_flag
receive_handshake m c = do
  r ← receive_all (fresh m.junk 0 4) 4 c
  msg_type ← load 0 4 r.0
  if of_le msg_type == code handshake_response
      then (receive_all (fresh m.junk 0 1) 1 r.2 >>= handshake_flag)
      else error

-- The employees that are printed: an element that was never written is no employee, and `%s` reads
-- each text up to its terminator.
print_slots : Slots → Result (List Employee)
print_slots [] = ok []
print_slots (none ∷ es) = fault
print_slots (some e ∷ es) = do
  _ ← strlen e.name
  _ ← strlen e.address
  printed ← print_slots es
  ok (e ∷ printed)

receive_listing : Allocator → ℕ → Socket → Result (List Employee × Socket)
unfolding print_slots
receive_listing m data_len c = do
  r ← receive_all (fresh m.junk 0 data_len) data_len c
  employees ← deserialize_list_employee_response m r.0 data_len
  printed ← print_slots employees
  ok (printed, r.2)

-- `data_len` and the flag of a response.
read_response : Allocator → ℕ → ℕ → ℕ → Socket → Result (List Employee × Socket)
unfolding receive_listing
read_response m response_type error_flag data_len c =
    if response_type == code invalid_request
    then error
    else if error_flag == 0
    then if data_len == 0 then ok ([], c) else receive_listing m data_len c
    else error

-- A receive that ends early leaves the rest of its buffer unwritten, and counts as a success.
unfoldable pub deserialize_response : Allocator → Socket → Result (List Employee × Socket)
unfolding read_response
deserialize_response m c = do
  r ← receive_all (fresh m.junk 0 9) 9 c
  response_type ← load 0 4 r.0
  error_flag ← load 4 1 r.0
  data_len ← load 5 4 r.0
  read_response m (of_le response_type) (of_le error_flag) (of_be data_len 0) r.2

-- main from the connected socket on: the employees that are printed, and the socket.
unfoldable pub converse : Allocator → ℕ → Arguments → Socket → Result (List Employee × Socket)
converse m protocol_version arguments c = do
  c₁ ← send_handshake protocol_version c
  c₂ ← receive_handshake m c₁
  msg ← build_request m arguments
  c₃ ← send_all msg c₂
  deserialize_response m c₃
