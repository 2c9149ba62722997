-- ===== src/Server/Setup.antt =====
-- executable_src/server/server.c: main up to its loop.
pub mod Listener
pub mod Ready
use employee_database.Prelude.{
  ℕ, Bool, true, false, Option, none, some, List, [], ◌∷◌, ◌==◌, ltb, if◌then◌else◌,
}
use employee_database.Memory.{Result, ok, error, fault, Block, Allocator}
use employee_database.Employee.{Employee}
use employee_database.Serialize.{load_db}
use employee_database.Socket.{Socket}
use employee_database.Startup.{
  Started, started, exited, aborted, ◌>>=◌, or_exit, or_exit_io, Answer, parse_version, Storage,
  open_db,
}
use employee_database.Server.Clients.{Clients, poll_listener}
use employee_database.Server.Loop.{System}

-- The variables that the options set.
pub record Options : Type 0 where
  pub address : Option Block
  pub port : Option Block
  pub protocol_version_str : Option Block
  pub fname : Option Block
  pub new_file_flag : Bool

abbrev pub no_options : Options
no_options = record {
  address = none;
  port = none;
  protocol_version_str = none;
  fname = none;
  new_file_flag = false;
}

-- The body of the loop.
set_option : ℕ → Option Block → Options → Started Options
set_option c optarg o =
    if c == b'a'
    then started (record o { address = optarg })
    else if c == b'p'
    then started (record o { port = optarg })
    else if c == b'v'
    then started (record o { protocol_version_str = optarg })
    else if c == b'f'
    then started (record o { fname = optarg })
    else if c == b'n'
    then started (record o { new_file_flag = true })
    else if c == b':'
    then exited 1
    else if c == b'?'
    then exited 1
    else aborted

-- The loop over the answers of `getopt`.
unfoldable pub get_options : List Answer → Options → Started Options
unfolding set_option
get_options [] o = started o
get_options (a ∷ answers) o = do o' ← set_option a.c a.optarg o; get_options answers o'

pub record Required : Type 0 where
  pub address : Block
  pub port : Block
  pub version : Block
  pub fname : Block

require : Option Block → Option Block → Option Block → Option Block → Started Required
require (some address) (some port) (some version) (some fname) =
    started (record { address = address; port = port; version = version; fname = fname })
require _ _ _ _ = exited 1

-- What the system does with an address: the descriptor that `socket` returns, if any, and whether
-- `setsockopt` and `bind` succeed on it.
pub record Address : Type 0 where
  pub fd : Option ℕ
  pub reusable : Bool
  pub binds : Bool

-- What `getaddrinfo`, `listen` and `getnameinfo` answer: no addresses if the first fails; `unnamed`
-- says that `getnameinfo` returns -1.
pub record Network : Type 0 where
  pub addresses : Option (List Address)
  pub listens : Bool
  pub unnamed : Bool

-- The body of the loop, with what the further addresses give: the descriptor that is bound, and
-- those that are left open.
at_address : Address → Option ℕ → Result ℕ × List ℕ → Result ℕ × List ℕ
at_address a none rest = rest
at_address a (some fd) rest =
    if a.reusable then if a.binds then (ok fd, fd ∷ []) else rest else (error, fd ∷ [])

bind_loop : List Address → Result ℕ × List ℕ
unfolding at_address
bind_loop [] = (error, [])
bind_loop (a ∷ addresses) = at_address a a.fd (bind_loop addresses)

-- After the loop.
after_binding : Network → Result ℕ × List ℕ → Result ℕ × List ℕ
after_binding net (ok fd, left) =
    if net.listens then if net.unnamed then (error, left) else (ok fd, left) else (error, left)
after_binding net (error, left) = (error, left)
after_binding net (fault, left) = (fault, left)

-- The listener, and the descriptors that are left open.
unfoldable pub get_listener_socket : Network → Result ℕ × List ℕ
unfolding bind_loop after_binding
get_listener_socket net = elim (net.addresses) [
  | none ↦ (error, [])
  | some addresses ↦ after_binding net (bind_loop addresses)
]

-- The listener is the only descriptor that is polled.
only_listener : Bool × Clients → Started Clients
only_listener (true, clients) = started clients
only_listener (false, clients) = exited 1

-- main up to its loop: the version, the listener and the state. `erange` says that `errno` was
-- ERANGE before the version is parsed, and `sockets` what the clients will send.
unfoldable pub start_server :
    Allocator
    → (ℕ → ℕ → Bool)
    → List ℕ
    → Bool
    → (Block → Storage)
    → (Block → Block → Network)
    → (ℕ → Socket)
    → ℕ
    → List Answer
    → Started (ℕ × ℕ × System)
unfolding require only_listener
start_server m exceeds before erange storage resolve sockets argc answers =
    let serve = (do
      o ← get_options answers no_options
      r ← require o.address o.port o.protocol_version_str o.fname
      f ← open_db o.new_file_flag (storage r.fname)
      db ← or_exit_io (load_db before f)
      version ← parse_version erange r.version
      listener ← or_exit ((get_listener_socket (resolve r.address r.port)).0)
      opened ← or_exit (poll_listener m exceeds listener)
      clients ← only_listener opened
      started (
        version,
        listener,
        record {
          clients = clients;
          sockets = sockets;
          employees = db.0.1;
          dbhdr = db.0.0;
          file = db.1;
        },
      )) in
    if ltb argc 5 then exited 0 else serve
