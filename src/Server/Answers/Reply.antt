-- ===== src/Server/Answers/Reply.antt =====
-- A complete request is carried out and answered.
use employee_database.Prelude.{
  ℕ, ◌+◌, ◌^◌, ◌<◌, ◌≡◌, refl, sym, ap, ◌∙◌, true, false, List, [], ◌∷◌, ◌++◌, arith, length, some,
  none, take, drop, length-append, length-nil, append-nil, length-take, length-drop, take-all,
  le→leb,
}
use employee_database.Memory.{ok, Allocator, load, fresh, Block}
use employee_database.Memory.Access.{length-fresh}
use employee_database.Memory.Bytes.{le32, be32}
use employee_database.Models.{code, db_access_response, initialized}
use employee_database.Employee.Directory.{Directory}
use employee_database.Proto.Listing.Rows.{rows}
use employee_database.Request.{Work}
use employee_database.Request.Database.{Serves, IsDirectory}
use employee_database.Request.Meaning.{
  Request, request_bytes, IsRequest, added, serve, Reply, missing, finished, listed, reply_bytes,
  reply_size,
}
use employee_database.Request.Served.{deserialize_request_options-serve}
use employee_database.Serialize.Loop.{refuses}
use employee_database.Socket.Arrivals.{bytes}
use employee_database.Socket.Sends.{send_all-Sent}
use employee_database.Server.{Server, of_io, send_message, answer_request, handle_db_access_request}
use employee_database.Server.Answers.{Runs, Kept, InHeader, InBody}
use employee_database.Server.Answers.Header.{header_turns}

-- The response as it is allocated.
abbrev pub new_response : Allocator → Block
new_response m = le32 (code db_access_response) ++ fresh m.junk 4 5

-- What the handling of a request works on.
abbrev pub work_of : Allocator → Server → Work
work_of m s = record {
  employees = s.employees;
  dbhdr = s.dbhdr;
  response_buf = new_response m;
  response_buf_size = 9;
  cursor = s.conn.buf_cursor;
}

length-new_response : (m : Allocator) → length (new_response m) ≡ 9
length-new_response m = omega (arith, length-fresh m.junk 4 5)

length-reply_bytes :
    (b : Block) (reply : Reply) → length b ≡ 9 → length (reply_bytes b reply) ≡ reply_size 9 reply
length-reply_bytes b missing nine =
    omega (arith, nine, length-append (take 4 b) (1 ∷ drop 5 b), length-take 4 b, length-drop 5 b)
length-reply_bytes b finished nine =
    omega (arith, nine, length-append (take 4 b) (0 ∷ be32 0), length-take 4 b)
length-reply_bytes b (listed es) nine =
    let tail = 0 ∷ (be32 (length (rows es)) ++ rows es) in
    omega (arith, nine, length-append (take 4 b) tail, length-take 4 b)

load_all : (n : ℕ) (b : Block) → length b ≡ n → load 0 n b ≡ ok b
unfolding load
load_all n b e = rw (le→leb (0 + n) (length b) (omega (arith, e)), take-all n b (omega (arith, e)))

-- The request was answered: the reply is sent, the database is the one that the request means, and
-- the connection waits for the next header.
pub record Answered (m : Allocator) (p : Directory × Reply) (rest : List ℕ) (s t : Server)
    : Type 0 where
  pub state : t.conn.state ≡ initialized
  pub cursor : t.conn.header_cursor ≡ 0
  pub incoming : bytes t.socket.incoming ≡ rest
  pub sent : t.socket.sent ≡ s.socket.sent ++ reply_bytes (new_response m) p.1
  pub serves : Serves p.0 (work_of m t) t.file

module _ (m : Allocator) (granted : (n : ℕ) → m.can_grow n ≡ true) where
  handle_db_access_request-Answered :
      (r : Request) (es : Directory) (rest : List ℕ) (s : Server)
      → InBody (request_bytes r) [] rest s
      → IsRequest r
      → Serves es (work_of m s) s.file
      → IsDirectory (added r.add es)
      → refuses s.socket.sends ≡ false
      → (t : Server) × (handle_db_access_request m s ≡ ok t) × Answered m (serve r es) rest s t
  unfolding handle_db_access_request answer_request send_message of_io
  handle_db_access_request-Answered r es rest s h i d fits clean =
      let buf = request_bytes r in
      let back : h.back ≡ [] = length-nil h.back h.same in
      let held : s.conn.buf ≡ some buf =
        h.buf ∙ ap (λ b. some (buf ++ b)) back ∙ ap some (append-nil buf) in
      let size : s.conn.buf_size ≡ length buf = omega (arith, h.size) in
      let (w, g, run, q) =
        deserialize_request_options-serve m granted buf r es (work_of m s) s.file refl i d fits
          (length-new_response m) in
      let whole : length w.response_buf ≡ w.response_buf_size =
        ap length q.response
        ∙ length-reply_bytes (new_response m) (serve r es).1 (length-new_response m)
        ∙ sym q.size in
      let (c, sends, (script, clean', e)) = send_all-Sent w.response_buf s.socket clean in
      (
        record {
          conn = record s.conn {
            state = initialized;
            header_cursor = 0;
            buf = none;
            buf_cursor = 0;
          };
          socket = c;
          employees = w.employees;
          dbhdr = w.dbhdr;
          file = g;
        },
        rw (held, size, run, load_all w.response_buf_size w.response_buf whole, sends),
        record {
          state = refl;
          cursor = refl;
          incoming = ap (λ c. bytes c.incoming) e ∙ h.incoming;
          sent = ap (λ c. c.sent) e ∙ ap (λ b. s.socket.sent ++ b) q.response;
          serves = record {
            spare = q.serves.spare;
            array = q.serves.array;
            header = q.serves.header;
            directory = q.serves.directory;
            saved = q.serves.saved;
          };
        },
      )

  Serves-Kept :
      (es : Directory) (s t : Server)
      → Kept s t
      → Serves es (work_of m s) s.file
      → Serves es (work_of m t) t.file
  Serves-Kept es s t k h = record {
    spare = h.spare;
    array = k.employees ∙ h.array;
    header = k.dbhdr ∙ h.header;
    directory = h.directory;
    saved = rw k.file h.saved;
  }

  -- If no allocation is refused, every system call on the file succeeds in full and no `send` is
  -- refused, an initialized connection waits for the first byte of a header, array, header and file
  -- hold one well-formed directory, which with the added entry still fits 32 bits, and the bytes
  -- yet to arrive start with the message of a request with well-formed options, at least one byte
  -- and fewer than 2 ^ 31 of them, then however these bytes are split into arrivals, without an
  -- error of `recv`, finitely many turns of the client lead to a state in which exactly the reply
  -- that the request means was sent, array, header and file hold the directory that the request
  -- means, what followed the message is yet to arrive, and the connection waits for the next
  -- header.
  pub serve_client-answers :
      (version : ℕ) (r : Request) (es : Directory) (rest : List ℕ) (s : Server)
      → InHeader [] (le32 2 ++ be32 (length (request_bytes r))) (request_bytes r ++ rest) s
      → 0 < length (request_bytes r)
      → length (request_bytes r) < 2 ^ 31
      → IsRequest r
      → Serves es (work_of m s) s.file
      → IsDirectory (added r.add es)
      → refuses s.socket.sends ≡ false
      → (t : Server) × Runs version m s t × Answered m (serve r es) rest s t
  serve_client-answers version r es rest s h some_bytes word i d fits clean =
      let c =
        header_turns 8 version m [] (le32 2 ++ be32 (length (request_bytes r))) (request_bytes r)
          rest s h refl (omega arith) (omega arith) some_bytes (omega (arith, word)) in
      let (t, run, a) =
        handle_db_access_request-Answered r es rest c.complete c.in_body i
          (Serves-Kept es s c.complete c.kept d) fits (ap refuses c.kept.sends ∙ clean) in
      (
        t,
        c.reach t run,
        record {
          state = a.state;
          cursor = a.cursor;
          incoming = a.incoming;
          sent = a.sent ∙ ap (λ b. b ++ reply_bytes (new_response m) (serve r es).1) c.kept.sent;
          serves = a.serves;
        },
      )
