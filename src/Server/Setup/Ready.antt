-- ===== src/Server/Setup/Ready.antt =====
-- The state in which the server's loop starts.
use employee_database.Prelude.{
  ℕ, ◌^◌, ◌<◌, ◌≤◌, ◌≡◌, refl, sym, ap, ◌∙◌, Bool, false, none, some, List, [], ◌∷◌, ltb, arith,
  lt→ltb, append-nil, map,
}
use employee_database.Memory.{ok, Block, Allocator}
use employee_database.Memory.Text.{c_string}
use employee_database.Employee.{stored}
use employee_database.Employee.Directory.{Directory}
use employee_database.Serialize.Image.{quiet}
use employee_database.Serialize.Reopen.{image, image_size, load_db-image}
use employee_database.Request.Database.{Saved, IsDirectory, header_of}
use employee_database.Parse.Standard.Decimal.{decimal}
use employee_database.Parse.Fields.{IsNumeral}
use employee_database.Socket.{Socket}
use employee_database.Startup.{started, Answer, Storage, parse_version}
use employee_database.Startup.Versions.{parse_version-decimal}
use employee_database.Startup.Files.{Offers, open_db-opened}
use employee_database.Connections.{connection_map_init}
use employee_database.Connections.Refines.{everywhere}
use employee_database.Server.Clients.{Clients, poll_listener, add_fd}
use employee_database.Server.Loop.{System}
use employee_database.Server.Loop.Invariant.{IsSystem}
use employee_database.Server.Loop.Reach.{poll_listener-IsSystem}
use employee_database.Server.Setup.{
  Options, no_options, get_options, Network, get_listener_socket, start_server, only_listener,
}

-- Before the first client comes: the loop's invariant holds, and the array, the header and the file
-- hold the directory.
pub record IsReady (listener : ℕ) (es : Directory) (waiting : ℕ → Socket) (s : System)
    : Type 0 where
  pub system : IsSystem listener everywhere (λ k. none) s
  pub employees : s.employees ≡ map stored es
  pub dbhdr : s.dbhdr ≡ header_of es
  pub saved : Saved es s.file
  pub sockets : s.sockets ≡ waiting

-- The options that main requires.
pub record Gives (o : Options) (a p v n : Block) : Type 0 where
  pub address : o.address ≡ some a
  pub port : o.port ≡ some p
  pub version : o.protocol_version_str ≡ some v
  pub fname : o.fname ≡ some n

-- If main's options, of which there are enough, give an address, a port, a version that is a
-- decimal number below 2 ^ 16, and the name of a file that holds exactly a well-formed directory,
-- or ask with -n for a new file under a name that is free, for the empty directory, every system
-- call on the file succeeds, errno was not ERANGE, get_listener_socket returns a listener, and the
-- map is not too full at its start, then the server comes to its loop, with that version and that
-- listener, and the loop's invariant holds, with array, header and file holding the directory.
pub start_server-IsReady :
    (m : Allocator) (exceeds : ℕ → ℕ → Bool) (before : List ℕ) (storage : Block → Storage)
    (resolve : Block → Block → Network) (sockets : ℕ → Socket) (argc : ℕ) (answers : List Answer)
    (o : Options) (address port version fname : Block) (listener : ℕ) (es : Directory)
    → exceeds 0 101 ≡ false
    → 5 ≤ argc
    → get_options answers no_options ≡ started o
    → Gives o address port (c_string version) fname
    → Offers o.new_file_flag (storage fname) es
    → IsDirectory es
    → IsNumeral version
    → decimal 0 version < 2 ^ 16
    → (get_listener_socket (resolve address port)).0 ≡ ok listener
    → (s : System) × (start_server m exceeds before false storage resolve sockets argc answers
        ≡ started (decimal 0 version, listener, s))
      × IsReady listener es sockets s
unfolding start_server poll_listener add_fd only_listener
start_server-IsReady m exceeds before storage resolve sockets argc answers o address port version
      fname listener es light many parsed g offers d numeral small listens =
    let clients : Clients = record {
      pfds = listener ∷ [];
      room = 16;
      fd_size = 16;
      conns_made = 0;
      client_connections = connection_map_init exceeds (λ a. none);
    } in
    let s : System = record {
      clients = clients;
      sockets = sockets;
      employees = map stored es;
      dbhdr = header_of es;
      file = quiet (image es) (image_size es);
    } in
    let enough : ltb argc 5 ≡ false = ground (arith, many) in
    let versioned : parse_version false (c_string version) ≡ started (decimal 0 version) =
      parse_version-decimal version numeral
      ∙ (rw (lt→ltb (decimal 0 version) (2 ^ 16) small) refl) in
    (
      s,
      rw
          (
            enough,
            parsed,
            g.address,
            g.port,
            g.version,
            g.fname,
            open_db-opened o.new_file_flag (storage fname) es offers,
            load_db-image before es d.entries (omega (arith, d.small)),
            versioned,
            listens,
          )
          refl,
      record {
        system = poll_listener-IsSystem m exceeds listener s light refl;
        employees = refl;
        dbhdr = refl;
        saved = record {
          left = [];
          pos = image_size es;
          file = ap (λ c. quiet c (image_size es)) (sym (append-nil (image es)));
        };
        sockets = refl;
      },
    )
