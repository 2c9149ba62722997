-- ===== src/Tests/Exchanges.antt =====
-- A whole session of a client on concrete data.
use employee_database.Prelude.{ℕ, ◌≡◌, refl, false, List, [], ◌∷◌, ◌++◌, map, arith, take, drop}
use employee_database.Models.{client_connection_init}
use employee_database.Memory.Text.{text_eq}
use employee_database.Employee.{stored}
use employee_database.Employee.Directory.{set_hours, swap_out}
use employee_database.Serialize.Loop.{refuses}
use employee_database.Disk.{partial}
use employee_database.Socket.{put_back, Socket}
use employee_database.Socket.Arrivals.{bytes, breaks}
use employee_database.Request.Database.{Serves, header_of}
use employee_database.Request.Meaning.{serve}
use employee_database.Server.{Server}
use employee_database.Server.Answers.{Runs}
use employee_database.Server.Answers.Reply.{work_of}
use employee_database.Client.Converses.{handshake_message, request_message}
use employee_database.Exchange.{IsShort, Understands, converse-Understands}
use employee_database.Tests.Data.{ada, ample}
use employee_database.Tests.Requests.{
  whole_request, whole_request-IsRequest, loaded_file, one-IsDirectory, two-IsDirectory,
}
use employee_database.Tests.Sessions.{arguments, arguments-Asks}

-- The handshake and the request, with nothing behind them.
abbrev conversation : List ℕ
conversation = (handshake_message 1 ++ request_message whole_request) ++ []

-- They arrive in three pieces: some of the handshake, its end with some of the request, the rest.
abbrev listening : Server
listening = record {
  conn = client_connection_init ample 1;
  socket = record {
    incoming =
        put_back (take 5 conversation)
          (put_back (take 4 (drop 5 conversation)) (put_back (drop 9 conversation) []));
    sent = [];
    sends = partial 2 ∷ [];
  };
  employees = map stored (ada ∷ []) ++ [];
  dbhdr = header_of (ada ∷ []);
  file = loaded_file;
}

listening-Serves : Serves (ada ∷ []) (work_of ample listening) listening.file
listening-Serves = record {
  spare = [];
  array = refl;
  header = refl;
  directory = one-IsDirectory;
  saved = record { left = []; pos = 18; file = refl };
}

one-IsShort : IsShort (serve whole_request (ada ∷ [])).1
unfolding set_hours swap_out text_eq
one-IsShort = omega arith

converse-Understands_example :
    (t : Server) × Runs 1 ample listening t
    × Serves (serve whole_request (ada ∷ [])).0 (work_of ample t) t.file
    × ((c : Socket)
        → c.sent ≡ []
        → bytes c.incoming ≡ t.socket.sent
        → breaks c.incoming ≡ false
        → refuses c.sends ≡ false
        → Understands ample 1 arguments (serve whole_request (ada ∷ [])).1 [] listening t c)
converse-Understands_example =
    converse-Understands ample ample 1 1 arguments whole_request (ada ∷ []) [] listening (λ n. refl)
      (λ n. refl) (omega arith) arguments-Asks whole_request-IsRequest (omega arith) one-IsShort
      refl refl refl refl refl listening-Serves two-IsDirectory
