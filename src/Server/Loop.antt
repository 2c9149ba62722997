-- ===== src/Server/Loop.antt =====
-- executable_src/server/server.c: main's loop over the descriptors that are ready, on the state of
-- the whole server: the polled descriptors with the map, each client's socket, and what all share.
pub mod Invariant
pub mod Turns
pub mod Joins
pub mod Reach
pub mod Buckets
pub mod Round
use employee_database.Prelude.{
  ℕ, zero, suc, ◌+◌, Bool, true, false, Option, none, some, List, length, ◌==◌, ltb, if◌then◌else◌,
}
use employee_database.Memory.{Result, ok, fault, ◌>>=◌, Allocator}
use employee_database.Models.{ClientConnection}
use employee_database.Connections.{write, live}
use employee_database.Employee.{Employee, DbHeader}
use employee_database.Disk.{File}
use employee_database.Socket.{Socket}
use employee_database.Server.{Server, serve_client}
use employee_database.Server.Clients.{
  Clients, nth, with_conns, Accepted, accept_new_client, handle_client_disconnect, client_of,
}

-- `sockets` has the socket of each descriptor.
pub record System : Type 0 where
  pub clients : Clients
  pub sockets : ℕ → Socket
  pub employees : List Employee
  pub dbhdr : DbHeader
  pub file : File

-- The server as the turn of one client sees it.
abbrev pub server_of : ClientConnection → ℕ → System → Server
server_of conn fd s = record {
  conn = conn;
  socket = s.sockets fd;
  employees = s.employees;
  dbhdr = s.dbhdr;
  file = s.file;
}

abbrev pub set_conns : (ℕ → Option ClientConnection) → Clients → Clients
set_conns conns s = record s { client_connections = with_conns s.client_connections conns }

-- What the turn did, to the connection at `c` and the socket of `fd`.
abbrev pub put_back : ℕ → ℕ → Server → System → System
put_back c fd t s = record {
  clients = set_conns (write c (some t.conn) s.clients.client_connections.conns) s.clients;
  sockets = write fd t.socket s.sockets;
  employees = t.employees;
  dbhdr = t.dbhdr;
  file = t.file;
}

-- Accepting may fail: the server goes on.
pub accept_turn : Allocator → Accepted → System → Result System
accept_turn m accepted s = do
  r ← accept_new_client m accepted s.clients
  ok (record s { clients = r.1 })

pub disconnect : ℕ → System → Result System
disconnect c s = do
  clients ← handle_client_disconnect c s.clients
  ok (record s { clients = clients })

pub client_turn : ℕ → Allocator → ℕ → System → Result System
unfolding disconnect
client_turn version m fd s = do
  c ← client_of fd s.clients
  conn ← live (s.clients.client_connections.conns c)
  r ← serve_client version m (server_of conn fd s)
  if r.0 then ok (put_back c fd r.1 s) else disconnect c (put_back c fd r.1 s)

-- The body of the loop for the place `i`, if its descriptor is ready. `accepted` is what `accept`
-- answers, if it is called.
unfoldable pub visit : ℕ → Allocator → ℕ → Accepted → ℕ → System → Result System
unfolding accept_turn client_turn
visit version m listener accepted i s = do
  fd ← live (nth i s.clients.pfds)
  if fd == listener then accept_turn m accepted s else client_turn version m fd s

-- One round over the places from `i` on, whose number `fd_count` may change on the way; `ready`
-- tells for which of them `poll` set POLLIN, or, behind them, what the memory held. A removal moves
-- the last element to the place of the client that is gone, which the round has come to already.
-- The fuel bounds the places.
unfoldable pub poll_round :
    ℕ → ℕ → Allocator → ℕ → Accepted → (ℕ → Bool) → ℕ → System → Result System
poll_round zero version m listener accepted ready i s = fault
poll_round (suc fuel) version m listener accepted ready i s =
    let next = (do
      t ← if ready i then visit version m listener accepted i s else ok s
      poll_round fuel version m listener accepted ready (suc i) t) in
    if ltb i (length s.clients.pfds) then next else ok s
