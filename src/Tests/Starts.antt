-- ===== src/Tests/Starts.antt =====
-- How the server and the client start.
use employee_database.Prelude.{
  ℕ, ◌≡◌, refl, true, false, none, some, List, [], ◌∷◌, ltb, ◌*◌, arith, ◌==◌, if◌then◌else◌,
}
use employee_database.Memory.{ok, Block}
use employee_database.Memory.Text.{c_string}
use employee_database.Parse.Standard.Decimal.{decimal}
use employee_database.Parse.Fields.{IsNumeral}
use employee_database.Serialize.Reopen.{image}
use employee_database.Socket.{Socket, arrives}
use employee_database.Parse.Standard.{chars, strtol}
use employee_database.Startup.{parse_version, started, exited, ◌>>=◌, Answer, Storage, or_exit}
use employee_database.Client.{Arguments, converse}
use employee_database.Client.Setup.{found}
use employee_database.Client.Setup.{
  Address as ClientAddress, main as client_main, get_options as get_client_options,
}
use employee_database.Client.Setup.Connects.{on_socket, main-converse}
use employee_database.Server.Loop.{System}
use employee_database.Server.Setup.{Network, get_options, start_server, get_listener_socket}
use employee_database.Server.Setup.Listener.{ListensWith, get_listener_socket-ListensWith}
use employee_database.Server.Setup.Ready.{IsReady, start_server-IsReady}
use employee_database.Tests.Data.{ada, ample}
use employee_database.Tests.Requests.{one-IsDirectory}

-- The second address is bound, to the descriptor 4.
abbrev network : Network
network = record {
  addresses = some (
      record { fd = some 3; reusable = true; binds = false }
      ∷ record { fd = some 4; reusable = true; binds = true }
      ∷ record { fd = none; reusable = true; binds = true }
      ∷ []);
  listens = true;
  unnamed = false;
}

get_listener_socket-ListensWith_example :
    (ListensWith 4 network → get_listener_socket network ≡ (ok 4, 4 ∷ []))
    × ((left : List ℕ) → get_listener_socket network ≡ (ok 4, left) → ListensWith 4 network)
get_listener_socket-ListensWith_example = get_listener_socket-ListensWith network 4

-- `-f db -a localhost -p 8080 -v 1`
abbrev text : Block
text = c_string (b'd' ∷ b'b' ∷ [])

abbrev server_answers : List Answer
server_answers =
    record { c = b'f'; optarg = some text }
    ∷ record { c = b'a'; optarg = some text }
    ∷ record { c = b'p'; optarg = some text }
    ∷ record { c = b'v'; optarg = some (c_string (b'1' ∷ [])) }
    ∷ []

abbrev with_file : Block → Storage
with_file name = record { existing = some (image (ada ∷ [])); granted = true; script = [] }

abbrev silent : ℕ → Socket
silent fd = record { incoming = []; sent = []; sends = [] }

one-IsNumeral : IsNumeral (b'1' ∷ [])
one-IsNumeral = record { digits = omega arith; filled = λ e. cc }

start_server-IsReady_example :
    (s : System) × (start_server ample
        (λ count capacity. ltb capacity (2 * count))
        []
        false
        with_file
        (λ a p. network)
        silent
        9
        server_answers
      ≡ started (decimal 0 (b'1' ∷ []), 4, s))
    × IsReady 4 (ada ∷ []) silent s
unfolding get_options get_listener_socket decimal
start_server-IsReady_example =
    start_server-IsReady ample (λ count capacity. ltb capacity (2 * count)) [] with_file
      (λ a p. network) silent 9 server_answers
      (record {
        address = some text;
        port = some text;
        protocol_version_str = some (c_string (b'1' ∷ []));
        fname = some text;
        new_file_flag = false;
      })
      text text (b'1' ∷ []) text 4 (ada ∷ []) refl (omega arith) refl
      (record { address = refl; port = refl; version = refl; fname = refl }) refl one-IsDirectory
      one-IsNumeral (omega arith) refl

-- `-v 1 -h db -p db -l`
abbrev client_answers : List Answer
client_answers =
    record { c = b'v'; optarg = some (c_string (b'1' ∷ [])) }
    ∷ record { c = b'h'; optarg = some text }
    ∷ record { c = b'p'; optarg = some text }
    ∷ record { c = b'l'; optarg = none }
    ∷ []

abbrev client_arguments : Arguments
client_arguments = record {
  add_employee_str = none;
  update_employee_str = none;
  update_hours_str = none;
  delete_employee_str = none;
  list_flag = true;
}

-- There is no socket for the first address; the second one accepts the connection.
abbrev accepted : Socket
accepted = record { incoming = arrives 0 (1 ∷ 0 ∷ []) ∷ []; sent = []; sends = [] }

abbrev reachable : List ClientAddress
reachable = record { fd = none; peer = none } ∷ record { fd = some 3; peer = some accepted } ∷ []

main-converse_example :
    client_main ample (λ h p. found reachable) (λ d. d == 3) 8 client_answers
    ≡ on_socket (some accepted) (λ c.
      or_exit (converse ample (decimal 0 (b'1' ∷ [])) client_arguments c) >>= λ printed.
      if 3 == 3 then started printed else exited 1)
unfolding get_client_options decimal
main-converse_example =
    main-converse ample (λ h p. found reachable) (λ d. d == 3) 8 client_answers
      (record {
        protocol_version_str = some (c_string (b'1' ∷ []));
        host = some text;
        port = some text;
        arguments = client_arguments;
      })
      text text (b'1' ∷ []) reachable (record { fd = some 3; peer = some accepted }) 3 (omega arith)
      refl (record { host = refl; port = refl; version = refl }) one-IsNumeral (omega arith) refl
      (record {
        front = record { fd = none; peer = none } ∷ [];
        back = [];
        split = refl;
        without = (refl, tt);
        socket = refl;
      })

-- A text in which strtol converts nothing is no version.
parse_version_sign :
    (parse_version false (c_string (b'-' ∷ [])) ≡ exited 1)
    × (parse_version false (c_string (b' ' ∷ [])) ≡ exited 1)
unfolding parse_version chars strtol
parse_version_sign = (refl, refl)

-- An empty text is the version 0.
parse_version_empty : parse_version false (c_string []) ≡ started 0
unfolding parse_version chars strtol
parse_version_empty = refl
