-- ===== src/Client/Session.antt =====
-- The client's message in the hands of the server.
use employee_database.Prelude.{arith, ℕ, ◌≡◌, refl, ap, true, ◌++◌, length, take, drop}
use employee_database.Memory.{Result, ok, error, fault, Block, Allocator}
use employee_database.Memory.Bytes.{be32, le32, of_be, of_le, of_be-be32}
use employee_database.Employee.Directory.{Directory}
use employee_database.Disk.{File}
use employee_database.Request.{Work, deserialize_request_options}
use employee_database.Request.Database.{Serves, IsDirectory}
use employee_database.Request.Meaning.{Request, request_bytes, IsRequest, added, serve}
use employee_database.Request.Answer.{Replies}
use employee_database.Request.Served.{deserialize_request_options-serve}
use employee_database.Client.{Arguments, build_request}
use employee_database.Client.Asks.{Asks, length-request_bytes}
use employee_database.Client.Build.{Sends, build_request-Sends}

pub Sends-ok :
    (m : Allocator) (msg : Block) (r : Result Block)
    → ((n : ℕ) → m.can_grow n ≡ true)
    → Sends m msg r
    → r ≡ ok msg
Sends-ok m msg (ok x) granted h = ap ok h
Sends-ok m msg error granted h = absurd (cc (h.1, granted h.0))
Sends-ok m msg fault granted h = absurd h

-- If no allocation is refused on either side and every system call on the file succeeds in full,
-- the command line asks for a request with well-formed options, and the server's array, header and
-- file hold one well-formed directory, which with the added entry still fits 32 bits, then
-- build_request makes a message whose header gives the type DB_ACCESS_REQUEST and the length of
-- what follows, and on what follows deserialize_request_options returns with the directory and the
-- reply that the request means.
pub build_request-serve :
    (m n : Allocator) (a : Arguments) (r : Request) (es : Directory) (w : Work) (f : File)
    → ((k : ℕ) → m.can_grow k ≡ true)
    → ((k : ℕ) → n.can_grow k ≡ true)
    → Asks a r
    → IsRequest r
    → Serves es w f
    → IsDirectory (added r.add es)
    → length w.response_buf ≡ 9
    → (msg : Block) × (build_request m a ≡ ok msg)
      × (of_le (take 4 msg) ≡ 2)
      × (of_be (take 4 (drop 4 msg)) 0 ≡ length (drop 8 msg))
      × Replies
          (serve r es)
          w
          (deserialize_request_options n (drop 8 msg) (length (drop 8 msg)) w f)
build_request-serve m n a r es w f grows serves q i s d nine = (
  le32 2 ++ (be32 (length (request_bytes r)) ++ request_bytes r),
  Sends-ok m _ (build_request m a) grows (build_request-Sends m a r q),
  refl,
  of_be-be32 (length (request_bytes r)) (omega (arith, length-request_bytes a r q)),
  deserialize_request_options-serve n serves (request_bytes r) r es w f refl i s d nine,
)
