-- ===== src/Server/Connection.antt =====
-- What holds of a connection between two turns of its client, and what a receive may do to it.
pub mod Headed
pub mod Refused
pub mod Turn
use employee_database.Prelude.{
  ℕ, zero, suc, ◌+◌, ◌-◌, ◌%◌, ◌^◌, ◌<◌, ◌≤◌, ◌≡◌, refl, sym, ap, ◌∙◌, true, false, Option, none,
  some, List, [], ◌∷◌, ◌++◌, arith, length, take, drop, length-take, length-drop, length-append,
  le→leb, ◌⊎◌, inl, inr, if◌then◌else◌,
}
use employee_database.Memory.{Result, ok, error, fault, ◌>>=◌, Block, store, load, Allocator}
use employee_database.Memory.Access.{length-fresh}
use employee_database.Models.{
  ClientState, uninitialized, initialized, request, ClientConnection, client_connection_init,
}
use employee_database.Socket.{Socket, recv, is_empty}
use employee_database.Socket.Arrivals.{Bounded, recv-Bounded}
use employee_database.Server.{Server, receive_header, receive_buf, receive_by, receive_from_client}

-- The buffer of a request of which bytes are missing.
abbrev pub Pending : Option Block → ClientConnection → Type 0
Pending none c = ⊥
Pending (some b) c = (length b ≡ c.buf_size) × (c.buf_cursor < c.buf_size) × (c.buf_size < 2 ^ 32)

abbrev pub InState : ClientState → ClientConnection → Type 0
InState uninitialized c = c.header_cursor ≤ 6
InState initialized c = c.header_cursor < 8
InState request c = Pending c.buf c

-- The header has its 8 bytes, and what is still to be received fits behind the cursor.
pub record IsConnection (c : ClientConnection) : Type 0 where
  pub header : length c.header ≡ 8
  pub in_state : InState c.state c

pub client_connection_init-IsConnection :
    (m : Allocator) (conn_idx : ℕ) → IsConnection (client_connection_init m conn_idx)
client_connection_init-IsConnection m conn_idx = record {
  header = length-fresh m.junk 0 8;
  in_state = omega arith;
}

-- After `n` bytes in all were received.
abbrev pub Filled : ℕ → Option Block → ClientConnection → Type 0
Filled n none c = ⊥
Filled n (some b) c =
    (length b ≡ c.buf_size)
    × (n ≡ c.buf_cursor)
    × (n ≤ c.buf_size)
    × (0 < c.buf_size)
    × (c.buf_size < 2 ^ 32)

abbrev pub ReadIn : ClientState → ℕ → ClientConnection → Type 0
ReadIn uninitialized n c = (n ≡ c.header_cursor) × (n ≤ 6)
ReadIn initialized n c = (n ≡ c.header_cursor) × (n ≤ 8)
ReadIn request n c = Filled n c.buf c

pub record HasRead (n : ℕ) (c : ClientConnection) : Type 0 where
  pub header : length c.header ≡ 8
  pub positive : 0 < n
  pub read : ReadIn c.state n c

-- A receive reports that the client has gone and changes nothing, or it has read some bytes in the
-- same state; it may fail, and never leaves the header or the buffer.
abbrev pub Receives : ClientConnection → Result (ℕ × Server) → Type 0
Receives c (ok (n, t)) = (t.conn.state ≡ c.state) × (((n ≡ 0) × (t.conn ≡ c)) ⊎ HasRead n t.conn)
Receives c error = Unit {0}
Receives c fault = ⊥

-- What follows a `recv`.
recv-then {ℓ} :
    {A : Type ℓ} (P : Result A → Type 0) (n : ℕ) (r : Result (List ℕ × Socket))
    (k : List ℕ × Socket → Result A)
    → Bounded n r
    → P error
    → ((xs : List ℕ) (d : Socket) → length xs ≤ n → P (k (xs, d)))
    → P (r >>= k)
recv-then P n (ok (xs, d)) k h e next = next xs d h
recv-then P n error k h e next = e
recv-then P n fault k h e next = absurd h

pub store-inside :
    (at : ℕ) (xs b : Block)
    → at + length xs ≤ length b
    → (c : Block) × (store at xs b ≡ ok c) × (length c ≡ length b)
unfolding store
store-inside at xs b h = (
  take at b ++ (xs ++ drop (at + length xs) b),
  rw (le→leb (at + length xs) (length b) h),
  omega (
    arith,
    h,
    length-append (take at b) (xs ++ drop (at + length xs) b),
    length-append xs (drop (at + length xs) b),
    length-take at b,
    length-drop (at + length xs) b,
  ),
)

receive_header-Receives :
    (size : ℕ) (s : Server)
    → size ≤ 8
    → length s.conn.header ≡ 8
    → s.conn.header_cursor ≤ size
    → ((h : Block) (n : ℕ)
        → length h ≡ 8
        → n ≤ size
        → 0 < n
        → HasRead n (record s.conn { header = h; header_cursor = n }))
    → Receives s.conn (receive_header size s)
unfolding receive_header
receive_header-Receives size s small eight inside go =
    let rem = (size + 2 ^ 64 - s.conn.header_cursor) % 2 ^ 64 in
    recv-then (Receives s.conn) rem _ _ (recv-Bounded rem s.socket) tt (λ xs d fits.
      received xs d (omega (arith, fits, inside, small)) (
        store-inside s.conn.header_cursor xs s.conn.header
          (omega (arith, fits, inside, small, eight))))
  where
    received :
        (xs : List ℕ) (d : Socket)
        → s.conn.header_cursor + length xs ≤ size
        → (c : Block) × (store s.conn.header_cursor xs s.conn.header ≡ ok c)
          × (length c ≡ length s.conn.header)
        → Receives s.conn (
            store s.conn.header_cursor xs s.conn.header >>= λ header.
            if is_empty xs
            then ok (0, record s { socket = d })
            else ok (
              s.conn.header_cursor + length xs,
              record s {
                socket = d;
                conn = record s.conn {
                  header = header;
                  header_cursor = s.conn.header_cursor + length xs;
                };
              },
            ))
    received [] d fits (c, run, same) = rw run (refl, inl (refl, refl))
    received (x ∷ xs) d fits (c, run, same) =
        rw run (refl, inr (go c _ (same ∙ eight) fits (omega arith)))

receive_buf-Receives :
    (s : Server)
    → s.conn.state ≡ request
    → length s.conn.header ≡ 8
    → Pending s.conn.buf s.conn
    → Receives s.conn (receive_buf s.conn.buf s)
unfolding receive_buf
receive_buf-Receives s state eight pending = pending_buf s.conn.buf pending
  where
    received :
        (b xs : List ℕ) (d : Socket)
        → length b ≡ s.conn.buf_size
        → s.conn.buf_cursor + length xs ≤ s.conn.buf_size
        → s.conn.buf_size < 2 ^ 32
        → (c : Block) × (store s.conn.buf_cursor xs b ≡ ok c) × (length c ≡ length b)
        → Receives s.conn (
            store s.conn.buf_cursor xs b >>= λ buf.
            if is_empty xs
            then ok (0, record s { socket = d })
            else ok (
              s.conn.buf_cursor + length xs,
              record s {
                socket = d;
                conn = record s.conn { buf = some buf; buf_cursor = s.conn.buf_cursor + length xs };
              },
            ))
    received b [] d size fits word (c, run, same) = rw run (refl, inl (refl, refl))
    received b (x ∷ xs) d size fits word (c, run, same) = rw run (
      refl,
      inr (record {
        header = eight;
        positive = omega arith;
        read = rw state (same ∙ size, refl, fits, omega (arith, fits), word);
      }),
    )

    pending_buf : (o : Option Block) → Pending o s.conn → Receives s.conn (receive_buf o s)
    pending_buf none h = h
    pending_buf (some b) (size, inside, word) =
        let rem = (s.conn.buf_size + 2 ^ 64 - s.conn.buf_cursor) % 2 ^ 64 in
        recv-then (Receives s.conn) rem _ _ (recv-Bounded rem s.socket) tt (λ xs d fits.
          let ends : s.conn.buf_cursor + length xs ≤ s.conn.buf_size =
            omega (arith, fits, inside, word) in
          received b xs d size ends word
            (store-inside s.conn.buf_cursor xs b (omega (arith, ends, size))))

receive_by-Receives :
    (state : ClientState) (s : Server)
    → s.conn.state ≡ state
    → length s.conn.header ≡ 8
    → InState state s.conn
    → Receives s.conn (receive_by state s)
unfolding receive_by
receive_by-Receives uninitialized s e eight inside =
    receive_header-Receives 6 s (omega arith) eight inside
      (λ h n same fits some. record { header = same; positive = some; read = rw e (refl, fits) })
receive_by-Receives initialized s e eight inside =
    receive_header-Receives 8 s (omega arith) eight (omega (arith, inside))
      (λ h n same fits some. record { header = same; positive = some; read = rw e (refl, fits) })
receive_by-Receives request s e eight inside = receive_buf-Receives s e eight inside

-- A receive on a well-formed connection does one of these.
pub receive_from_client-Receives :
    (s : Server) → IsConnection s.conn → Receives s.conn (receive_from_client s)
unfolding receive_from_client
receive_from_client-Receives s i = receive_by-Receives s.conn.state s refl i.header i.in_state
