-- ===== src/Exchange.antt =====
-- A client and the server together: executable_src/client/client.c against
-- executable_src/server/server.c, from the connected socket to the printed employees.
use employee_database.Prelude.{
  ℕ, ◌^◌, ◌<◌, ◌≤◌, ◌≡◌, refl, sym, ap, ◌∙◌, true, false, Bool, Option, some, none, List, [], ◌++◌,
  arith, length, append_assoc, append-nil,
}
use employee_database.Memory.{Allocator}
use employee_database.Memory.Access.{length-fresh}
use employee_database.Memory.Bytes.{le32, be32}
use employee_database.Models.{client_connection_init}
use employee_database.Employee.Directory.{Directory}
use employee_database.Serialize.Loop.{refuses}
use employee_database.Request.Database.{Serves, IsDirectory}
use employee_database.Request.Meaning.{
  Request, request_bytes, IsRequest, added, updated, deleted, serve, serve_list, serve_delete,
  proceed, Reply, missing, finished, listed, reply_bytes,
}
use employee_database.Socket.{Socket}
use employee_database.Socket.Arrivals.{bytes, breaks}
use employee_database.Server.{Server}
use employee_database.Server.Answers.{Runs, here, turn}
use employee_database.Server.Answers.Handshake.{handshake_turns}
use employee_database.Server.Answers.Reply.{work_of, new_response, serve_client-answers}
use employee_database.Client.{Arguments, converse}
use employee_database.Client.Asks.{Asks, length-request_bytes}
use employee_database.Client.Converses.{
  outcome, IsReadable, handshake_message, request_message, accepted, converse-Reads,
}

-- A listing, if there is one, of at most 32 entries.
abbrev pub IsShort : Reply → Type 0
IsShort missing = Unit {0}
IsShort finished = Unit {0}
IsShort (listed es) = length es ≤ 32

abbrev Readable : Directory × Reply → Type 0
Readable p = IsDirectory p.0 → IsShort p.1 → IsReadable p.1

serve_list-Readable : (l : Bool) (es : Directory) → Readable (serve_list l es)
serve_list-Readable true es d few = (d.entries, few, omega (arith, d.small))
serve_list-Readable false es d few = tt

proceed-Readable :
    (next : Directory → Directory × Reply) (es : Directory) (o : Option Directory)
    → ((ds : Directory) → Readable (next ds))
    → Readable (proceed next es o)
proceed-Readable next es none h = λ d few. tt
proceed-Readable next es (some ds) h = h ds

serve-Readable : (r : Request) (es : Directory) → Readable (serve r es)
serve-Readable r es =
    proceed-Readable (serve_delete r.delete r.list) (added r.add es)
      (updated r.update (added r.add es))
      (λ ds.
        proceed-Readable (serve_list r.list) ds (deleted r.delete ds) (serve_list-Readable r.list))

Runs-trans :
    {version : ℕ} {m : Allocator} {s t u : Server}
    → Runs version m s t
    → Runs version m t u
    → Runs version m s u
Runs-trans here r = r
Runs-trans (turn e q) r = turn e (Runs-trans q r)

-- The client reads what the server has sent, however it is split, and prints what the request means;
-- what it sends is what the server has received.
pub record Understands (m : Allocator) (version : ℕ) (a : Arguments) (reply : Reply) (rest : List ℕ)
    (s t : Server) (c : Socket) : Type 0 where
  pub after : Socket
  pub run : converse m version a c ≡ outcome reply after
  pub sent : after.sent ++ rest ≡ bytes s.socket.incoming

-- If no allocation is refused on either side, no `send` is refused and every system call on the
-- file succeeds in full, the version fits 16 bits, the client's command line asks for a request
-- with well-formed options that is not empty, the server's connection is new, array, header and
-- file hold one well-formed directory, which with the added entry still fits 32 bits, a listing, if
-- the request means one, has at most 32 entries, and the bytes of a handshake and of the request
-- arrive at the server in any pieces, then some turns of the client lead to a state whose array,
-- header and file hold the directory that the request means; and a client to which the bytes that
-- the server has sent arrive, in any pieces, sends exactly the bytes that the server has received,
-- and prints the entries of the listing, or none if the request means no listing, or fails if a
-- name to update or delete is missing.
pub converse-Understands :
    (m n : Allocator) (version conn_idx : ℕ) (a : Arguments) (r : Request) (es : Directory)
    (rest : List ℕ) (s : Server)
    → ((k : ℕ) → m.can_grow k ≡ true)
    → ((k : ℕ) → n.can_grow k ≡ true)
    → version < 2 ^ 16
    → Asks a r
    → IsRequest r
    → 0 < length (request_bytes r)
    → IsShort (serve r es).1
    → s.conn ≡ client_connection_init n conn_idx
    → s.socket.sent ≡ []
    → bytes s.socket.incoming ≡ (handshake_message version ++ request_message r) ++ rest
    → breaks s.socket.incoming ≡ false
    → refuses s.socket.sends ≡ false
    → Serves es (work_of n s) s.file
    → IsDirectory (added r.add es)
    → (t : Server) × Runs version n s t
      × Serves (serve r es).0 (work_of n t) t.file
      × ((c : Socket)
          → c.sent ≡ []
          → bytes c.incoming ≡ t.socket.sent
          → breaks c.incoming ≡ false
          → refuses c.sends ≡ false
          → Understands m version a (serve r es).1 rest s t c)
converse-Understands m n version conn_idx a r es rest s grows serves word q i some_bytes few new
      nothing e clean quiet d fits =
    let (u, greeting, g) =
      handshake_turns 6 version n [] (handshake_message version) (request_message r ++ rest) s word
        (record {
          back = s.conn.header;
          state = ap (λ c. c.state) new;
          header = refl;
          same = ap (λ c. length c.header) new ∙ length-fresh n.junk 0 8;
          cursor = ap (λ c. c.header_cursor) new;
          incoming = e ∙ append_assoc (handshake_message version) (request_message r) rest;
          clean = clean;
        })
        refl (omega arith) (omega arith) quiet in
    let (t, answering, w) =
      serve_client-answers n serves version r es rest u
        (record {
          back = u.conn.header;
          state = g.state;
          header = refl;
          same = g.header;
          cursor = g.cursor;
          incoming =
              g.incoming
              ∙ append_assoc (le32 2 ++ be32 (length (request_bytes r))) (request_bytes r) rest;
          clean = g.clean;
        })
        some_bytes (length-request_bytes a r q) i
        (record {
          spare = d.spare;
          array = g.employees ∙ d.array;
          header = g.dbhdr ∙ d.header;
          directory = d.directory;
          saved = rw g.file d.saved;
        })
        fits g.sends in
    let reply = (serve r es).1 in
    let answers = reply_bytes (new_response n) reply in
    (
      t,
      Runs-trans greeting answering,
      w.serves,
      λ c fresh_client arrives unbroken accepting.
          (let whole : bytes c.incoming ≡ accepted ++ (answers ++ []) =
              arrives
              ∙ w.sent
              ∙ ap (λ b. b ++ answers) (g.sent ∙ ap (λ b. b ++ accepted) nothing)
              ∙ ap (λ b. accepted ++ b) (sym (append-nil answers)) in
            let (after, run, sent) =
              converse-Reads m n version a r reply [] c grows q
                (serve-Readable r es w.serves.directory few) whole unbroken accepting in
            record {
              after = after;
              run = run;
              sent =
                  ap (λ b. b ++ rest)
                    (sent
                      ∙ ap (λ b. b ++ (handshake_message version ++ request_message r))
                          fresh_client)
                  ∙ sym e;
            }),
    )
