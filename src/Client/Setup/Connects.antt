-- ===== src/Client/Setup/Connects.antt =====
-- Which address the client connects to, and what it does there.
use employee_database.Prelude.{
  ℕ, ◌^◌, ◌<◌, ◌≤◌, ◌≡◌, refl, ◌∙◌, Bool, false, if◌then◌else◌, Option, none, some, List, [], ◌∷◌,
  ◌++◌, All, ltb, lt→ltb, arith,
}
use employee_database.Memory.{ok, Block, Allocator}
use employee_database.Memory.Text.{c_string}
use employee_database.Employee.{Employee}
use employee_database.Parse.Standard.Decimal.{decimal}
use employee_database.Parse.Fields.{IsNumeral}
use employee_database.Socket.{Socket}
use employee_database.Startup.{Started, started, exited, ◌>>=◌, or_exit, Answer, parse_version}
use employee_database.Startup.Versions.{parse_version-decimal}
use employee_database.Client.{converse}
use employee_database.Client.Setup.{
  Options, no_options, get_options, Address, Lookup, found, first_socket, get_socket, connected,
  connect_first, main,
}

-- The address is the first one for which there is a descriptor.
pub record IsFirst (address : Address) (fd : ℕ) (addresses : List Address) : Type 0 where
  pub front : List Address
  pub back : List Address
  pub split : addresses ≡ front ++ (address ∷ back)
  pub without : All (λ a. a.fd ≡ none) front
  pub socket : address.fd ≡ some fd

first_socket-front :
    (front : List Address) (a : Address) (back : List Address) (fd : ℕ)
    → All (λ a. a.fd ≡ none) front
    → a.fd ≡ some fd
    → first_socket (front ++ (a ∷ back)) ≡ ok (fd, a)
unfolding first_socket
first_socket-front [] a back fd h e = rw e refl
first_socket-front (b ∷ front) a back fd (p, h) e = rw p (first_socket-front front a back fd h e)

get_socket-IsFirst :
    (addresses : List Address) (a : Address) (fd : ℕ)
    → IsFirst a fd addresses
    → get_socket (found addresses) ≡ connected fd a.peer
unfolding get_socket connect_first
get_socket-IsFirst addresses a fd h =
    rw (h.split, first_socket-front h.front a h.back fd h.without h.socket) refl

-- The options that main requires.
pub record Gives (o : Options) (h p v : Block) : Type 0 where
  pub host : o.host ≡ some h
  pub port : o.port ≡ some p
  pub version : o.protocol_version_str ≡ some v

-- What main does with the socket, if there is one.
abbrev pub on_socket :
    Option Socket → (Socket → Started (List Employee × Socket)) → Started (List Employee × Socket)
on_socket none k = exited 1
on_socket (some c) k = k c

connected-on_socket :
    (fd : ℕ) (p : Option Socket) (k : ℕ → Socket → Started (List Employee × Socket))
    → (or_exit (connected fd p) >>= λ s. k s.0 s.1) ≡ on_socket p (k fd)
unfolding connected
connected-on_socket fd none k = refl
connected-on_socket fd (some c) k = refl

-- If main's options, of which there are enough, give a host, a port and a version that is a decimal
-- number below 2 ^ 16, and getaddrinfo finds addresses, of which one is the first for which there
-- is a socket, then main talks to the server behind this address, with that version and the other
-- options, and to no other, and then closes the socket: if connect fails there, or close, it exits
-- with the status 1.
pub main-converse :
    (m : Allocator) (resolve : Block → Block → Lookup) (closes : ℕ → Bool) (argc : ℕ)
    (answers : List Answer) (o : Options) (host port version : Block) (addresses : List Address)
    (a : Address) (fd : ℕ)
    → 4 ≤ argc
    → get_options answers no_options ≡ started o
    → Gives o host port (c_string version)
    → IsNumeral version
    → decimal 0 version < 2 ^ 16
    → resolve host port ≡ found addresses
    → IsFirst a fd addresses
    → main m resolve closes argc answers
      ≡ on_socket a.peer (λ c. or_exit (converse m (decimal 0 version) o.arguments c) >>= λ printed.
          if closes fd then started printed else exited 1)
unfolding main
main-converse m resolve closes argc answers o host port version addresses a fd many parsed g numeral
      small resolved h =
    let enough : ltb argc 4 ≡ false = ground (arith, many) in
    let versioned : parse_version false (c_string version) ≡ started (decimal 0 version) =
      parse_version-decimal version numeral
      ∙ (rw (lt→ltb (decimal 0 version) (2 ^ 16) small) refl) in
    rw
      (
        enough,
        parsed,
        g.host,
        g.port,
        g.version,
        versioned,
        resolved,
        get_socket-IsFirst addresses a fd h,
      )
      (connected-on_socket fd a.peer (λ d c.
        or_exit (converse m (decimal 0 version) o.arguments c) >>= λ printed.
        if closes d then started printed else exited 1))
