-- ===== src/Server.antt =====
-- executable_src/server/server.c: what the server does when one client's socket is ready. A client
-- has its connection and socket; all clients share the employees, the header and the file.
pub mod Connection
pub mod Reach
pub mod Answers
pub mod Version
pub mod Keeps
pub mod Loop
pub mod Setup
pub mod Clients
use employee_database.Prelude.{
  ℕ, ◌+◌, ◌-◌, ◌%◌, ◌^◌, Bool, true, false, Option, none, some, List, [], ◌∷◌, ◌++◌, length, ◌==◌,
  if◌then◌else◌, replicate,
}
use employee_database.Memory.{Result, ok, error, fault, ◌>>=◌, Block, load, store, Allocator, fresh}
use employee_database.Memory.Bytes.{le32, of_le, of_be}
use employee_database.Models.{
  code, handshake_request, handshake_response, db_access_request, db_access_response,
  invalid_request, ClientState, uninitialized, initialized, request, ClientConnection,
}
use employee_database.Employee.{Employee, DbHeader}
use employee_database.Disk.{File, IoResult, done, failed, crash}
use employee_database.Socket.{Socket, recv, send_all, is_empty}
use employee_database.Request.{Work, deserialize_request_options}

pub record Server : Type 0 where
  pub conn : ClientConnection
  pub socket : Socket
  pub employees : List Employee
  pub dbhdr : DbHeader
  pub file : File

-- The states UNINITIALIZED and INITIALIZED receive the rest of a header of `size` bytes.
pub receive_header : ℕ → Server → Result (ℕ × Server)
receive_header size s = do
  r ← recv ((size + 2 ^ 64 - s.conn.header_cursor) % 2 ^ 64) s.socket
  header ← store s.conn.header_cursor r.0 s.conn.header
  let header_cursor = s.conn.header_cursor + length r.0
  if is_empty r.0
      then ok (0, record s { socket = r.1 })
      else ok (
        header_cursor,
        record s {
          socket = r.1;
          conn = record s.conn { header = header; header_cursor = header_cursor };
        },
      )

-- The state REQUEST receives the rest of the request.
pub receive_buf : Option Block → Server → Result (ℕ × Server)
receive_buf none s = fault
receive_buf (some b) s = do
  r ← recv ((s.conn.buf_size + 2 ^ 64 - s.conn.buf_cursor) % 2 ^ 64) s.socket
  buf ← store s.conn.buf_cursor r.0 b
  let buf_cursor = s.conn.buf_cursor + length r.0
  if is_empty r.0
      then ok (0, record s { socket = r.1 })
      else ok (
        buf_cursor,
        record s { socket = r.1; conn = record s.conn { buf = some buf; buf_cursor = buf_cursor } },
      )

pub receive_by : ClientState → Server → Result (ℕ × Server)
unfolding receive_header receive_buf
receive_by uninitialized s = receive_header 6 s
receive_by initialized s = receive_header 8 s
receive_by request s = receive_buf s.conn.buf s

-- The bytes of the header or the request received so far, or 0 if the client has gone.
unfoldable pub receive_from_client : Server → Result (ℕ × Server)
unfolding receive_by
receive_from_client s = receive_by s.conn.state s

-- A message that is sent to the client.
pub send_message : Block → Server → Result Server
send_message msg s = do socket ← send_all msg s.socket; ok (record s { socket = socket })

unfoldable pub send_handshake_response : ℕ → Server → Result Server
unfolding send_message
send_handshake_response flag s = send_message (le32 (code handshake_response) ++ (flag ∷ [])) s

-- Only the message type is sent.
unfoldable pub send_invalid_request_response : Server → Result Server
unfolding send_message
send_invalid_request_response s = send_message (le32 (code invalid_request)) s

unfoldable pub send_empty_response : Server → Result Server
unfolding send_message
send_empty_response s = send_message (le32 (code db_access_response) ++ (0 ∷ replicate 4 0)) s

-- `conn->header_cursor = conn->header`
abbrev pub rewind : Server → Server
rewind s = record s { conn = record s.conn { header_cursor = 0 } }

-- A wrong protocol version leaves the connection as it is.
pub check_version : Bool → Server → Result Server
check_version false s = send_handshake_response 1 s
check_version true s =
    send_handshake_response 0
      (record s { conn = record s.conn { state = initialized; header_cursor = 0 } })

unfoldable pub handle_uninitialized_client : ℕ → Server → Result Server
unfolding check_version
handle_uninitialized_client protocol_version s = do
  msg_type ← load 0 4 s.conn.header
  version ← load 4 2 s.conn.header
  if of_le msg_type == code handshake_request
      then check_version (of_be version 0 == protocol_version) s
      else (send_invalid_request_response s >>= λ s'. ok (rewind s'))

-- A request of `data_len` bytes: the buffer is allocated, and what has arrived is received.
pub start_request : Allocator → ℕ → Server → Result (ℕ × Server)
start_request m data_len s = receive_from_client (record s {
  conn = record s.conn {
    buf = some (fresh m.junk 0 data_len);
    buf_cursor = 0;
    buf_size = data_len;
    state = request;
  };
})

-- `nbytes_read` and the state afterwards.
unfoldable pub handle_initialized_client : Allocator → ℕ → Server → Result (ℕ × Server)
unfolding start_request
handle_initialized_client m nbytes_read s = do
  msg_type ← load 0 4 s.conn.header
  len ← load 4 4 s.conn.header
  let data_len = of_be len 0 % 2 ^ 32
  if of_le msg_type == code db_access_request
      then if data_len == 0
        then (send_empty_response s >>= λ s'. ok (nbytes_read, rewind s'))
        else start_request m data_len s
      else (send_invalid_request_response s >>= λ s'. ok (nbytes_read, rewind s'))

pub of_io {ℓ} : {A : Type ℓ} → IoResult A → Result (A × File)
of_io (done a f) = ok (a, f)
of_io (failed f) = error
of_io crash = fault

-- The request that the buffer holds is carried out and answered.
pub answer_request : Allocator → Option Block → Server → Result Server
unfolding of_io send_message
answer_request m none s = fault
answer_request m (some b) s = do
  r ← of_io (
      deserialize_request_options m b s.conn.buf_size
        (record {
          employees = s.employees;
          dbhdr = s.dbhdr;
          response_buf = le32 (code db_access_response) ++ fresh m.junk 4 5;
          response_buf_size = 9;
          cursor = s.conn.buf_cursor;
        })
        s.file)
  response ← load 0 r.0.response_buf_size r.0.response_buf
  send_message response (record s { employees = r.0.employees; dbhdr = r.0.dbhdr; file = r.1 })

unfoldable pub handle_db_access_request : Allocator → Server → Result Server
unfolding answer_request
handle_db_access_request m s = do
  s' ← answer_request m s.conn.buf s
  ok (record s' {
    conn = record s.conn { state = initialized; header_cursor = 0; buf = none; buf_cursor = 0 };
  })

pub handle_header : ClientState → ℕ → Allocator → ℕ → Server → Result (ℕ × Server)
handle_header uninitialized version m n s =
    if n == 6 then (handle_uninitialized_client version s >>= λ s'. ok (n, s')) else ok (n, s)
handle_header initialized version m n s =
    if n == 8 then handle_initialized_client m n s else ok (n, s)
handle_header request version m n s = ok (n, s)

pub handle_complete : ClientState → Allocator → ℕ → Server → Result Server
handle_complete uninitialized m n s = ok s
handle_complete initialized m n s = ok s
handle_complete request m n s = if n == s.conn.buf_size then handle_db_access_request m s else ok s

-- The part of main's loop for one client: `false` if the client has gone. STATUS_ERROR ends the
-- server.
unfoldable pub serve_client : ℕ → Allocator → Server → Result (Bool × Server)
unfolding handle_header handle_complete
serve_client version m s = do
  r ← receive_from_client s
  let next = (do
    q ← handle_header r.1.conn.state version m r.0 r.1
    s' ← handle_complete q.1.conn.state m q.0 q.1
    ok (true, s'))
  if r.0 == 0 then ok (false, r.1) else next
