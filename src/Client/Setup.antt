-- ===== src/Client/Setup.antt =====
-- executable_src/client/client.c: main up to the connected socket, and the whole of it.
pub mod Connects
use employee_database.Prelude.{
  ℕ, Bool, true, false, Option, none, some, List, [], ◌∷◌, ◌==◌, ltb, if◌then◌else◌,
}
use employee_database.Memory.{Result, ok, error, fault, Block, Allocator}
use employee_database.Employee.{Employee}
use employee_database.Socket.{Socket}
use employee_database.Startup.{
  Started, started, exited, aborted, ◌>>=◌, or_exit, Answer, parse_version,
}
use employee_database.Client.{Arguments, converse}

-- The variables that the options set.
pub record Options : Type 0 where
  pub protocol_version_str : Option Block
  pub host : Option Block
  pub port : Option Block
  pub arguments : Arguments

abbrev pub no_options : Options
no_options = record {
  protocol_version_str = none;
  host = none;
  port = none;
  arguments = record {
    add_employee_str = none;
    update_employee_str = none;
    update_hours_str = none;
    delete_employee_str = none;
    list_flag = false;
  };
}

-- The body of the loop.
set_option : ℕ → Option Block → Options → Started Options
set_option c optarg o =
    if c == b'v'
    then started (record o { protocol_version_str = optarg })
    else if c == b'h'
    then started (record o { host = optarg })
    else if c == b'p'
    then started (record o { port = optarg })
    else if c == b'a'
    then started (record o { arguments = record o.arguments { add_employee_str = optarg } })
    else if c == b'u'
    then started (record o { arguments = record o.arguments { update_employee_str = optarg } })
    else if c == b'n'
    then started (record o { arguments = record o.arguments { update_hours_str = optarg } })
    else if c == b'd'
    then started (record o { arguments = record o.arguments { delete_employee_str = optarg } })
    else if c == b'l'
    then started (record o { arguments = record o.arguments { list_flag = true } })
    else if c == b'?'
    then exited 1
    else aborted

-- The loop over the answers of `getopt`.
unfoldable pub get_options : List Answer → Options → Started Options
unfolding set_option
get_options [] o = started o
get_options (a ∷ answers) o = do o' ← set_option a.c a.optarg o; get_options answers o'

-- The host, the port and the version are required.
require : Option Block → Option Block → Option Block → Started (Block × Block × Block)
require (some host) (some port) (some version) = started (host, port, version)
require _ _ _ = exited 1

-- What the system does with an address: the descriptor that `socket` returns, if any, and the socket
-- that `connect` connects it to, if it does.
pub record Address : Type 0 where
  pub fd : Option ℕ
  pub peer : Option Socket

-- What `getaddrinfo` returns: addresses, the status -1, or another status that is not 0. After that
-- `servinfo` has not been written.
pub data Lookup : Type 0 where
  found : List Address → Lookup
  minus_one : Lookup
  other_status : Lookup

-- The first address for which there is a descriptor.
first_socket : List Address → Result (ℕ × Address)
first_socket [] = error
first_socket (a ∷ addresses) = or_next a.fd (first_socket addresses)
  where
    or_next : Option ℕ → Result (ℕ × Address) → Result (ℕ × Address)
    or_next none rest = rest
    or_next (some fd) rest = ok (fd, a)

connected : ℕ → Option Socket → Result (ℕ × Socket)
connected fd none = error
connected fd (some peer) = ok (fd, peer)

connect_first : Result (ℕ × Address) → Result (ℕ × Socket)
unfolding connected
connect_first (ok (fd, a)) = connected fd a.peer
connect_first error = error
connect_first fault = fault

-- The descriptor, with the socket behind it.
unfoldable pub get_socket : Lookup → Result (ℕ × Socket)
unfolding first_socket connect_first
get_socket minus_one = error
get_socket other_status = fault
get_socket (found addresses) = connect_first (first_socket addresses)

-- main: what is printed, and the socket. `closes` says for which descriptors `close` succeeds.
unfoldable pub main :
    Allocator
    → (Block → Block → Lookup)
    → (ℕ → Bool)
    → ℕ
    → List Answer
    → Started (List Employee × Socket)
unfolding require
main m resolve closes argc answers =
    let ask = (do
      o ← get_options answers no_options
      r ← require o.host o.port o.protocol_version_str
      version ← parse_version false r.2
      s ← or_exit (get_socket (resolve r.0 r.1))
      printed ← or_exit (converse m version o.arguments s.1)
      if closes s.0 then started printed else exited 1) in
    if ltb argc 4 then exited 0 else ask
