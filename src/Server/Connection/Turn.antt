-- ===== src/Server/Connection/Turn.antt =====
-- A whole turn of a client keeps its connection, and only the handling of a complete request may
-- leave the defined behaviour.
use employee_database.Prelude.{
  ℕ, ◌≡◌, refl, sym, ◌∙◌, Bool, true, false, Option, none, some, arith, length, eq→==, Bool-cases,
  ◌==◌, inl, inr, if◌then◌else◌, ◌≢◌, subst,
}
use employee_database.Memory.{Result, ok, error, fault, ◌>>=◌, Block, Allocator}
use employee_database.Models.{ClientState, uninitialized, initialized, request, ClientConnection}
use employee_database.Server.{
  Server, receive_from_client, handle_db_access_request, handle_header, handle_complete,
  serve_client, answer_request,
}
use employee_database.Server.Connection.{
  Pending, InState, IsConnection, Receives, receive_from_client-Receives,
}
use employee_database.Server.Connection.Refused.{
  Refuses, receive_from_client-Refuses, handle_header-Refuses,
}
use employee_database.Server.Connection.Headed.{Requested, ReadyIn, Headed, handle_header-Headed}

-- All bytes of a request are there.
pub record IsComplete (c : ClientConnection) : Type 0 where
  pub state : c.state ≡ request
  pub buf : Block
  pub held : c.buf ≡ some buf
  pub size : length buf ≡ c.buf_size
  pub cursor : c.buf_cursor ≡ c.buf_size

-- The turn that starts at `s` has received bytes, has handled the header, and has so come to `u`,
-- where the last byte of a request has arrived.
pub record Comes (version : ℕ) (m : Allocator) (s u : Server) : Type 0 where
  pub bytes_read : ℕ
  pub received : Server
  pub receives : receive_from_client s ≡ ok (bytes_read, received)
  pub some_read : bytes_read ≢ 0
  pub count : ℕ
  pub header : handle_header received.conn.state version m bytes_read received ≡ ok (count, u)
  pub full : count ≡ u.conn.buf_size
  pub complete : IsComplete u.conn

-- The turn that starts at `s` leaves the defined behaviour, and where.
pub record Faults (version : ℕ) (m : Allocator) (s : Server) : Type 0 where
  pub server : Server
  pub comes : Comes version m s server
  pub run : handle_db_access_request m server ≡ fault

-- The call that ends the turn that starts at `s` with an error, and, before the request is complete,
-- the call on the socket that the system refuses.
pub data Fails (version : ℕ) (m : Allocator) (s : Server) : Type 0 where
  in_receive : receive_from_client s ≡ error → Refuses s.socket → Fails version m s
  in_header :
      (n : ℕ) (t : Server)
      → receive_from_client s ≡ ok (n, t)
      → n ≢ 0
      → handle_header t.conn.state version m n t ≡ error
      → Refuses t.socket
      → Fails version m s
  in_request :
      (u : Server) → Comes version m s u → handle_db_access_request m u ≡ error → Fails version m s

-- How a turn that starts at `s` ends: with a well-formed connection, in an error of one of its calls,
-- or in a fault of the handling of the complete request that it has come to.
abbrev pub Turns : ℕ → Allocator → Server → Result (Bool × Server) → Type 0
Turns version m s (ok (here, t)) = IsConnection t.conn
Turns version m s error = Fails version m s
Turns version m s fault = Faults version m s

handled :
    (version : ℕ) (m : Allocator) (start s : Server) (r : Result Server)
    → length s.conn.header ≡ 8
    → Comes version m start s
    → handle_db_access_request m s ≡ (
        r >>= λ s'. ok (record s' {
          conn = record s.conn {
            state = initialized;
            header_cursor = 0;
            buf = none;
            buf_cursor = 0;
          };
        }))
    → Turns version m start (handle_db_access_request m s >>= λ t. ok (true, t))
handled version m start s (ok t) eight c e =
    rw e (record { header = eight; in_state = omega arith })
handled version m start s error eight c e =
    subst (λ r. Turns version m start (r >>= λ t. ok (true, t))) (sym e) (in_request s c e)
handled version m start s fault eight c e =
    subst (λ r. Turns version m start (r >>= λ t. ok (true, t))) (sym e)
      (record { server = s; comes = c; run = e })

-- The requested bytes, where all of them are there.
pub Requested-IsComplete :
    (n : ℕ) (o : Option Block) (c : ClientConnection)
    → c.state ≡ request
    → c.buf ≡ o
    → Requested n o c
    → n ≡ c.buf_size
    → IsComplete c
Requested-IsComplete n none c s e h full = absurd h
Requested-IsComplete n (some b) c s e (size, word, inl (zero_read, inside)) full =
    absurd (omega (arith, zero_read, inside, full))
Requested-IsComplete n (some b) c s e (size, word, inr (at, inside, positive)) full = record {
  state = s;
  buf = b;
  held = e;
  size = size;
  cursor = sym at ∙ full;
}

Requested-Pending :
    (n : ℕ) (o : Option Block) (c : ClientConnection)
    → Requested n o c
    → n ≢ c.buf_size
    → Pending o c
Requested-Pending n none c h part = h
Requested-Pending n (some b) c (size, word, inl (zero_read, inside)) part = (size, inside, word)
Requested-Pending n (some b) c (size, word, inr (at, inside, positive)) part =
    (size, omega (arith, at, inside, part), word)

-- What the calls before it have come to.
record Starts (version : ℕ) (m : Allocator) (start : Server) (count : ℕ) (s : Server) : Type 0 where
  bytes_read : ℕ
  received : Server
  receives : receive_from_client start ≡ ok (bytes_read, received)
  some_read : bytes_read ≢ 0
  header : handle_header received.conn.state version m bytes_read received ≡ ok (count, s)

handle_complete-Turns :
    (state : ClientState) (version : ℕ) (m : Allocator) (start : Server) (n : ℕ) (s : Server)
    → s.conn.state ≡ state
    → length s.conn.header ≡ 8
    → ReadyIn state n s.conn
    → Starts version m start n s
    → Turns version m start (handle_complete state m n s >>= λ t. ok (true, t))
unfolding handle_complete handle_db_access_request
handle_complete-Turns uninitialized version m start n s e eight h b = record {
  header = eight;
  in_state = rw e h;
}
handle_complete-Turns initialized version m start n s e eight h b = record {
  header = eight;
  in_state = rw e h;
}
handle_complete-Turns request version m start n s e eight h b =
    elim (Bool-cases (n == s.conn.buf_size)) [
      | inl y ↦
          let full : n ≡ s.conn.buf_size = ground (arith, y) in
          rw y (
            handled version m start s (answer_request m s.conn.buf s) eight
              (record {
                bytes_read = b.bytes_read;
                received = b.received;
                receives = b.receives;
                some_read = b.some_read;
                count = n;
                header = b.header;
                full = full;
                complete = Requested-IsComplete n s.conn.buf s.conn e refl h full;
              })
              refl)
      | inr d ↦ rw d (record {
        header = eight;
        in_state =
            subst (λ q. InState q s.conn) (sym e)
              (Requested-Pending n s.conn.buf s.conn h (ground (arith, d)));
      })
    ]

turn-Headed :
    (version : ℕ) (m : Allocator) (start : Server) (n : ℕ) (s : Server) (r : Result (ℕ × Server))
    → receive_from_client start ≡ ok (n, s)
    → n ≢ 0
    → handle_header s.conn.state version m n s ≡ r
    → Headed r
    → Turns version m start
        (r >>= λ q. handle_complete q.1.conn.state m q.0 q.1 >>= λ t. ok (true, t))
turn-Headed version m start n s (ok (k, t)) e some_read run (eight, h) =
    handle_complete-Turns t.conn.state version m start k t refl eight h
      (record { bytes_read = n; received = s; receives = e; some_read = some_read; header = run })
turn-Headed version m start n s error e some_read run h =
    in_header n s e some_read run (handle_header-Refuses s.conn.state version m n s run)
turn-Headed version m start n s fault e some_read run h = absurd h

received_turn :
    (version : ℕ) (m : Allocator) (s : Server) (r : Result (ℕ × Server))
    → receive_from_client s ≡ r
    → IsConnection s.conn
    → Receives s.conn r
    → Turns version m s (
        r >>= λ r.
        if r.0 == 0
        then ok (false, r.1)
        else (handle_header r.1.conn.state version m r.0 r.1 >>= λ q.
            handle_complete q.1.conn.state m q.0 q.1 >>= λ t. ok (true, t)))
received_turn version m s (ok (n, t)) e i (same, inl (none_read, kept)) =
    rw (eq→== n 0 none_read) (subst IsConnection (sym kept) i)
received_turn version m s (ok (n, t)) e i (same, inr read) = elim (Bool-cases (n == 0)) [
  | inl y ↦ absurd (ground (arith, y, read.positive))
  | inr d ↦ rw d (
      turn-Headed version m s n t (handle_header t.conn.state version m n t) e
        (omega (arith, read.positive)) refl
        (handle_header-Headed t.conn.state version m n t refl read))
]
received_turn version m s error e i h = in_receive e (receive_from_client-Refuses s e)
received_turn version m s fault e i h = absurd h

-- On a well-formed connection, whatever arrives, a turn of the client ends in one of three ways:
-- with a well-formed connection; in an error of receive_from_client or of handle_header on what was
-- received, where the system refuses a call of `recv` or of `send`, or in an error of
-- handle_db_access_request; or in a fault of handle_db_access_request. An error or a fault of
-- handle_db_access_request comes only after this turn has received a byte at least and handled the
-- header, and the server that these calls have come to holds all bytes of a request; so receiving,
-- the handshake and the handling of a request's header never leave the header or the buffer.
pub serve_client-Turns :
    (version : ℕ) (m : Allocator) (s : Server)
    → IsConnection s.conn
    → Turns version m s (serve_client version m s)
unfolding serve_client
serve_client-Turns version m s i =
    received_turn version m s (receive_from_client s) refl i (receive_from_client-Receives s i)
