-- ===== src/Models.antt =====
-- include/models.h: messages and the state that the server keeps of a connection.
use employee_database.Prelude.{ℕ, Option, none}
use employee_database.Memory.{Block, Allocator, fresh}

-- proto_msg, by the numbers that stand in the first four bytes of each message.
pub data ProtoMsg : Type 0 where
  handshake_request : ProtoMsg
  handshake_response : ProtoMsg
  db_access_request : ProtoMsg
  db_access_response : ProtoMsg
  invalid_request : ProtoMsg

abbrev pub code : ProtoMsg → ℕ
code handshake_request = 0
code handshake_response = 1
code db_access_request = 2
code db_access_response = 3
code invalid_request = 4

pub data ClientState : Type 0 where
  uninitialized : ClientState
  initialized : ClientState
  request : ClientState

-- The cursors are offsets from `header` and `buf`; `buf` is `none` where the pointer is null.
pub record ClientConnection : Type 0 where
  pub header : Block
  pub header_cursor : ℕ
  pub buf : Option Block
  pub buf_cursor : ℕ
  pub buf_size : ℕ
  pub conn_idx : ℕ
  pub state : ClientState

-- The struct and its header of 8 bytes are fresh, and `buf_size` stays unwritten.
abbrev pub client_connection_init : Allocator → ℕ → ClientConnection
client_connection_init m conn_idx = record {
  header = fresh m.junk 0 8;
  header_cursor = 0;
  buf = none;
  buf_cursor = 0;
  buf_size = m.junk 0;
  conn_idx = conn_idx;
  state = uninitialized;
}

-- A header for a handshake only; no program calls it.
abbrev client_connection_set_handshake_header : Allocator → ClientConnection → ClientConnection
client_connection_set_handshake_header m conn = record conn { header = fresh m.junk 0 6 }
