-- ===== src/Tests/Serving.antt =====
-- A client of the server on concrete data.
use employee_database.Prelude.{
  ℕ, ◌≡◌, refl, true, false, List, [], ◌∷◌, ◌++◌, map, arith, length, take, drop, replicate,
}
use employee_database.Memory.{ok, fresh, store, load}
use employee_database.Memory.Bytes.{le32, be32}
use employee_database.Memory.Access.{length-fresh}
use employee_database.Models.{initialized, client_connection_init}
use employee_database.Employee.{stored}
use employee_database.Disk.{partial}
use employee_database.Socket.{Arrival, arrives, put_back, recv, send_all}
use employee_database.Request.Database.{Serves, header_of}
use employee_database.Request.Meaning.{request_bytes, serve}
use employee_database.Server.{
  Server, serve_client, receive_from_client, handle_uninitialized_client, send_handshake_response,
}
use employee_database.Server.Connection.{IsConnection, Receives, receive_from_client-Receives}
use employee_database.Server.Connection.Turn.{Turns, serve_client-Turns}
use employee_database.Server.Reach.{Reach, here, next, turn, meanwhile, Reach-IsConnection}
use employee_database.Server.Version.{with_arrivals, handle_uninitialized_client-refuses}
use employee_database.Models.{code, handshake_response}
use employee_database.Server.Answers.{Runs, InHeader}
use employee_database.Server.Answers.Reply.{Answered, work_of, serve_client-answers}
use employee_database.Tests.Data.{ada, ample}
use employee_database.Tests.Requests.{
  whole_request, whole_request-IsRequest, loaded_file, one-IsDirectory, two-IsDirectory,
}

-- The message that the client sends.
abbrev message : List ℕ
message = (le32 2 ++ be32 (length (request_bytes whole_request))) ++ request_bytes whole_request

-- It arrives in three pieces, none of which ends with the header.
abbrev arrivals : List Arrival
arrivals =
    put_back (take 3 message) (put_back (take 7 (drop 3 message)) (put_back (drop 10 message) []))

-- After the handshake.
abbrev waiting : Server
waiting = record {
  conn = record (client_connection_init ample 1) { state = initialized };
  socket = record { incoming = arrivals; sent = []; sends = partial 2 ∷ [] };
  employees = map stored (ada ∷ []) ++ [];
  dbhdr = header_of (ada ∷ []);
  file = loaded_file;
}

waiting-InHeader :
    InHeader []
      (le32 2 ++ be32 (length (request_bytes whole_request)))
      (request_bytes whole_request ++ [])
      waiting
waiting-InHeader = record {
  back = waiting.conn.header;
  state = refl;
  header = refl;
  same = length-fresh ample.junk 0 8;
  cursor = refl;
  incoming = refl;
  clean = refl;
}

waiting-Serves : Serves (ada ∷ []) (work_of ample waiting) waiting.file
waiting-Serves = record {
  spare = [];
  array = refl;
  header = refl;
  directory = one-IsDirectory;
  saved = record { left = []; pos = 18; file = refl };
}

serve_client-answers_example :
    (t : Server) × Runs 1 ample waiting t
    × Answered ample (serve whole_request (ada ∷ [])) [] waiting t
serve_client-answers_example =
    serve_client-answers ample (λ n. refl) 1 whole_request (ada ∷ []) [] waiting waiting-InHeader
      (omega arith) (omega arith) whole_request-IsRequest waiting-Serves two-IsDirectory refl

waiting-IsConnection : IsConnection waiting.conn
waiting-IsConnection = record { header = length-fresh ample.junk 0 8; in_state = omega arith }

receive_from_client-Receives_example : Receives waiting.conn (receive_from_client waiting)
receive_from_client-Receives_example = receive_from_client-Receives waiting waiting-IsConnection

serve_client-Turns_example : Turns 1 ample waiting (serve_client 1 ample waiting)
serve_client-Turns_example = serve_client-Turns 1 ample waiting waiting-IsConnection

-- A client that has just connected: the first piece of its handshake request is on its way.
abbrev connected : Server
connected = record waiting {
  conn = client_connection_init ample 1;
  socket = record { incoming = arrives 0 (0 ∷ 0 ∷ []) ∷ []; sent = []; sends = [] };
}

-- Half of the request is there.
abbrev half : Server
half = record connected {
  conn = record (client_connection_init ample 1) {
    header = 0 ∷ 0 ∷ 0 ∷ replicate 5 0xaa;
    header_cursor = 3;
  };
  socket = record { incoming = []; sent = []; sends = [] };
}

-- The rest arrives while another client deletes the entry.
abbrev resumed : Server
resumed = record half {
  socket = record { incoming = arrives 0 (0 ∷ 1 ∷ []) ∷ []; sent = []; sends = [] };
  employees = [];
  dbhdr = header_of [];
}

abbrev greeted : Server
greeted = record resumed {
  conn = record (client_connection_init ample 1) {
    header = 0 ∷ 0 ∷ 0 ∷ 0 ∷ 0 ∷ 1 ∷ 0xaa ∷ 0xaa ∷ [];
    header_cursor = 0;
    state = initialized;
  };
  socket = record { incoming = []; sent = 1 ∷ 0 ∷ 0 ∷ 0 ∷ 0 ∷ []; sends = [] };
}

first_turn : serve_client 1 ample connected ≡ ok (true, half)
unfolding serve_client receive_from_client recv store fresh
first_turn = refl

second_turn : serve_client 1 ample resumed ≡ ok (true, greeted)
unfolding serve_client receive_from_client recv store handle_uninitialized_client load
    send_handshake_response send_all
second_turn = refl

handshake : Reach 1 ample connected greeted
handshake =
    next
      (next (next here (turn first_turn))
        (meanwhile half resumed.socket [] (header_of []) loaded_file))
      (turn second_turn)

Reach-IsConnection_example : IsConnection greeted.conn
Reach-IsConnection_example = Reach-IsConnection 1 ample 1 connected greeted refl handshake

-- The same client with version 2 and a server with version 1.
abbrev outdated : Server
outdated = record greeted {
  conn = record (client_connection_init ample 1) {
    header = 0 ∷ 0 ∷ 0 ∷ 0 ∷ 0 ∷ 2 ∷ 0xaa ∷ 0xaa ∷ [];
    header_cursor = 6;
  };
}

handle_uninitialized_client-refuses_example :
    (t : Server) × (handle_uninitialized_client 1 outdated ≡ ok t)
    × (t.socket.sent ≡ outdated.socket.sent ++ (le32 (code handshake_response) ++ (1 ∷ [])))
    × ((arrivals : List Arrival)
        → serve_client 1 ample (with_arrivals arrivals t) ≡ ok (false, with_arrivals arrivals t))
handle_uninitialized_client-refuses_example =
    handle_uninitialized_client-refuses 1 ample 0 2 (0xaa ∷ 0xaa ∷ []) outdated refl refl refl refl
      (omega arith) refl
