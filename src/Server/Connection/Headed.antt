-- ===== src/Server/Connection/Headed.antt =====
-- The handling of a complete header keeps the connection.
use employee_database.Prelude.{
  ℕ, ◌+◌, ◌%◌, ◌^◌, ◌<◌, ◌≤◌, ◌≡◌, refl, sym, ap, ◌∙◌, Bool, true, false, Option, none, some, arith,
  length, take, drop, le→leb, Bool-cases, ◌==◌, ◌⊎◌, inl, inr, subst,
}
use employee_database.Memory.{Result, ok, error, fault, ◌>>=◌, Block, load, Allocator, fresh}
use employee_database.Memory.Access.{length-fresh}
use employee_database.Memory.Bytes.{of_le, of_be}
use employee_database.Models.{
  code, ClientState, uninitialized, initialized, request, ClientConnection, handshake_request,
  db_access_request,
}
use employee_database.Socket.{Socket, send_all}
use employee_database.Socket.Sends.{Ends, send_all-Ends}
use employee_database.Server.{
  Server, send_message, send_handshake_response, send_invalid_request_response, send_empty_response,
  check_version, rewind, handle_uninitialized_client, start_request, handle_initialized_client,
  handle_header,
}
use employee_database.Server.Connection.{
  Pending, Filled, ReadIn, HasRead, Receives, receive_from_client-Receives,
}

-- A message is sent, or sending it fails.
pub send_message-cases :
    (P : Result Server → Type 0) (msg : Block) (s : Server)
    → P error
    → ((d : Socket) → P (ok (record s { socket = d })))
    → P (send_message msg s)
unfolding send_message
send_message-cases P msg s e next = sent (send_all msg s.socket) (send_all-Ends msg s.socket)
  where
    sent : (r : Result Socket) → Ends r → P (r >>= λ c. ok (record s { socket = c }))
    sent (ok c) h = next c
    sent error h = e
    sent fault h = absurd h

-- Either all bytes of the request are there, or some are missing.
abbrev pub Requested : ℕ → Option Block → ClientConnection → Type 0
Requested n none c = ⊥
Requested n (some b) c =
    (length b ≡ c.buf_size)
    × (c.buf_size < 2 ^ 32)
    × (((n ≡ 0) × (c.buf_cursor < c.buf_size))
        ⊎ ((n ≡ c.buf_cursor) × (n ≤ c.buf_size) × (0 < c.buf_size)))

abbrev pub ReadyIn : ClientState → ℕ → ClientConnection → Type 0
ReadyIn uninitialized n c = c.header_cursor ≤ 6
ReadyIn initialized n c = c.header_cursor < 8
ReadyIn request n c = Requested n c.buf c

-- The state after a complete header was handled.
abbrev pub Headed : Result (ℕ × Server) → Type 0
Headed (ok (n, t)) = (length t.conn.header ≡ 8) × ReadyIn t.conn.state n t.conn
Headed error = Unit {0}
Headed fault = ⊥

pub load_inside : (at n : ℕ) (b : Block) → at + n ≤ length b → load at n b ≡ ok (take n (drop at b))
unfolding load
load_inside at n b h = rw (le→leb (at + n) (length b) h)

check_version-Headed :
    (same : Bool) (n : ℕ) (s : Server)
    → s.conn.state ≡ uninitialized
    → length s.conn.header ≡ 8
    → s.conn.header_cursor ≤ 6
    → Headed (check_version same s >>= λ t. ok (n, t))
unfolding check_version send_handshake_response
check_version-Headed false n s e eight inside =
    send_message-cases (λ r. Headed (r >>= λ t. ok (n, t))) _ s tt (λ d. (eight, rw e inside))
check_version-Headed true n s e eight inside =
    send_message-cases (λ r. Headed (r >>= λ t. ok (n, t))) _ _ tt (λ d. (eight, omega arith))

handle_uninitialized_client-Headed :
    (version n : ℕ) (s : Server)
    → s.conn.state ≡ uninitialized
    → length s.conn.header ≡ 8
    → s.conn.header_cursor ≤ 6
    → Headed (handle_uninitialized_client version s >>= λ t. ok (n, t))
unfolding handle_uninitialized_client send_invalid_request_response
handle_uninitialized_client-Headed version n s e eight inside =
    let typed = of_le (take 4 s.conn.header) == code handshake_request in
    rw
      (
        load_inside 0 4 s.conn.header (omega (arith, eight)),
        load_inside 4 2 s.conn.header (omega (arith, eight)),
      )
      (elim (Bool-cases typed) [
        | inl y ↦ rw y (check_version-Headed _ n s e eight inside)
        | inr d ↦ rw d (
            send_message-cases (λ r. Headed ((r >>= λ s'. ok (rewind s')) >>= λ t. ok (n, t))) _ s
              tt (λ c. (eight, rw e (omega arith))))
      ])

Pending-Requested :
    (n : ℕ) (o : Option Block) (c : ClientConnection) → n ≡ 0 → Pending o c → Requested n o c
Pending-Requested n none c z h = h
Pending-Requested n (some b) c z (size, inside, word) = (size, word, inl (z, inside))

Filled-Requested :
    (n : ℕ) (o : Option Block) (c : ClientConnection) → Filled n o c → Requested n o c
Filled-Requested n none c h = h
Filled-Requested n (some b) c (size, at, inside, positive, word) =
    (size, word, inr (at, inside, positive))

-- The receive of a request.
Receives-Headed :
    (c : ClientConnection) (r : Result (ℕ × Server))
    → length c.header ≡ 8
    → c.state ≡ request
    → Pending c.buf c
    → Receives c r
    → Headed r
Receives-Headed c (ok (n, t)) eight e p (same, inl (none_read, kept)) =
    let h : ReadyIn request n c = Pending-Requested n c.buf c none_read p in
    (
      ap (λ k. length k.header) kept ∙ eight,
      subst (λ k. ReadyIn k.state n k) (sym kept) (subst (λ q. ReadyIn q n c) (sym e) h),
    )
Receives-Headed c (ok (n, t)) eight e p (same, inr read) =
    let state : t.conn.state ≡ request = same ∙ e in
    (
      read.header,
      subst (λ q. ReadyIn q n t.conn) (sym state)
          (Filled-Requested n t.conn.buf t.conn (subst (λ q. ReadIn q n t.conn) state read.read)),
    )
Receives-Headed c error eight e p h = tt
Receives-Headed c fault eight e p h = h

start_request-Headed :
    (m : Allocator) (data_len : ℕ) (s : Server)
    → length s.conn.header ≡ 8
    → 0 < data_len
    → data_len < 2 ^ 32
    → Headed (start_request m data_len s)
unfolding start_request
start_request-Headed m data_len s eight positive word =
    let c : ClientConnection = record s.conn {
      buf = some (fresh m.junk 0 data_len);
      buf_cursor = 0;
      buf_size = data_len;
      state = request;
    } in
    let p : Pending c.buf c = (length-fresh m.junk 0 data_len, positive, word) in
    Receives-Headed c _ eight refl p (
      receive_from_client-Receives (record s { conn = c })
        (record { header = eight; in_state = p }))

handle_initialized_client-Headed :
    (m : Allocator) (n : ℕ) (s : Server)
    → s.conn.state ≡ initialized
    → length s.conn.header ≡ 8
    → Headed (handle_initialized_client m n s)
unfolding handle_initialized_client send_invalid_request_response send_empty_response
handle_initialized_client-Headed m n s e eight =
    let typed = of_le (take 4 s.conn.header) == code db_access_request in
    let len = of_be (take 4 (drop 4 s.conn.header)) 0 % 2 ^ 32 in
    rw
      (
        load_inside 0 4 s.conn.header (omega (arith, eight)),
        load_inside 4 4 s.conn.header (omega (arith, eight)),
      )
      (elim (Bool-cases typed) [
        | inl y ↦ elim (Bool-cases (len == 0)) [
          | inl z ↦
              rw (y, z)
                (send_message-cases (λ r. Headed (r >>= λ s'. ok (n, rewind s'))) _ s tt
                  (λ c. (eight, rw e (omega arith))))
          | inr k ↦ rw (y, k) (start_request-Headed m len s eight (ground (arith, k)) (omega arith))
        ]
        | inr d ↦ rw d (
            send_message-cases (λ r. Headed (r >>= λ s'. ok (n, rewind s'))) _ s tt
              (λ c. (eight, rw e (omega arith))))
      ])

pub handle_header-Headed :
    (state : ClientState) (version : ℕ) (m : Allocator) (n : ℕ) (s : Server)
    → s.conn.state ≡ state
    → HasRead n s.conn
    → Headed (handle_header state version m n s)
unfolding handle_header
handle_header-Headed uninitialized version m n s e h =
    let (at, inside) = subst (λ q. ReadIn q n s.conn) e h.read in
    elim (Bool-cases (n == 6)) [
      | inl y ↦
          rw y
            (handle_uninitialized_client-Headed version n s e h.header (omega (arith, at, inside)))
      | inr d ↦ rw d (h.header, rw e (omega (arith, at, inside)))
    ]
handle_header-Headed initialized version m n s e h =
    let (at, inside) = subst (λ q. ReadIn q n s.conn) e h.read in
    elim (Bool-cases (n == 8)) [
      | inl y ↦ rw y (handle_initialized_client-Headed m n s e h.header)
      | inr d ↦ rw d (h.header, rw e (ground (arith, at, inside, d)))
    ]
handle_header-Headed request version m n s e h = (
  h.header,
  subst (λ q. ReadyIn q n s.conn) (sym e)
      (Filled-Requested n s.conn.buf s.conn (subst (λ q. ReadIn q n s.conn) e h.read)),
)
