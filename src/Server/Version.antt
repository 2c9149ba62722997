-- ===== src/Server/Version.antt =====
-- A client with another protocol version.
use employee_database.Prelude.{
  ℕ, ◌≤◌, ◌≡◌, ◌≢◌, le→leb, refl, ap, ◌∙◌, ◌+◌, ◌*◌, false, List, [], ◌∷◌, ◌++◌, length, take, drop,
  arith, ne→==,
}
use employee_database.Memory.{ok, Allocator, load, store, Block}
use employee_database.Memory.Bytes.{le32}
use employee_database.Models.{code, uninitialized, handshake_response}
use employee_database.Socket.{Arrival}
use employee_database.Socket.Arrivals.{recv_none}
use employee_database.Socket.Sends.{send_all-Sent}
use employee_database.Serialize.Loop.{refuses}
use employee_database.Server.{
  Server, handle_uninitialized_client, check_version, send_handshake_response, send_message,
  serve_client, receive_from_client, receive_by, receive_header,
}

-- A store of no bytes.
store_none : (at : ℕ) (b : Block) → at ≤ length b → (c : Block) × (store at [] b ≡ ok c)
unfolding store
store_none at b h =
    (take at b ++ drop (at + 0) b, rw (le→leb (at + 0) (length b) (omega (arith, h))) refl)

-- With its header full the connection asks for no bytes, which counts as a client that has gone.
full_header-gone :
    (version : ℕ) (m : Allocator) (s : Server)
    → s.conn.state ≡ uninitialized
    → s.conn.header_cursor ≡ 6
    → length s.conn.header ≡ 8
    → serve_client version m s ≡ ok (false, s)
unfolding serve_client receive_from_client receive_by receive_header
full_header-gone version m s e c l =
    let (b, stored) = store_none 6 s.conn.header (omega (arith, l)) in
    rw (e, c, recv_none s.socket, stored) refl

-- The server with something else to arrive.
abbrev pub with_arrivals : List Arrival → Server → Server
with_arrivals s t = record t { socket = record t.socket { incoming = s } }

-- If no `send` is refused, a handshake request whose version is not the server's, with its 6 bytes
-- received, is answered with the flag 1, and at its next turn the client counts as gone, whatever
-- arrives from it: its header stays full, so that the server asks for no bytes.
pub handle_uninitialized_client-refuses :
    (version : ℕ) (m : Allocator) (hi lo : ℕ) (back : Block) (s : Server)
    → s.conn.state ≡ uninitialized
    → s.conn.header_cursor ≡ 6
    → s.conn.header ≡ le32 0 ++ (hi ∷ lo ∷ back)
    → length back ≡ 2
    → hi * 256 + lo ≢ version
    → refuses s.socket.sends ≡ false
    → (t : Server) × (handle_uninitialized_client version s ≡ ok t)
      × (t.socket.sent ≡ s.socket.sent ++ (le32 (code handshake_response) ++ (1 ∷ [])))
      × ((arrivals : List Arrival)
          → serve_client version m (with_arrivals arrivals t)
            ≡ ok (false, with_arrivals arrivals t))
unfolding handle_uninitialized_client check_version send_handshake_response send_message load
handle_uninitialized_client-refuses version m hi lo back s e c h l n clean =
    let typed : load 0 4 s.conn.header ≡ ok (le32 0) =
      rw (h, le→leb (0 + 4) (length (le32 0 ++ (hi ∷ lo ∷ back))) (omega (arith, l))) refl in
    let versioned : load 4 2 s.conn.header ≡ ok (hi ∷ lo ∷ []) =
      rw (h, le→leb (4 + 2) (length (le32 0 ++ (hi ∷ lo ∷ back))) (omega (arith, l))) refl in
    let (d, run, (script, ok_script, after)) = send_all-Sent (le32 1 ++ (1 ∷ [])) s.socket clean in
    (
      record s { socket = d },
      rw (typed, versioned, ne→== ((0 + hi) * 256 + lo) version (λ e. n (omega (arith, e))), run)
          refl,
      ap (λ c. c.sent) after,
      λ arrivals. full_header-gone version m _ e c (ap length h ∙ omega (arith, l)),
    )
