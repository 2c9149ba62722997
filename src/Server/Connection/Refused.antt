-- ===== src/Server/Connection/Refused.antt =====
-- Where receiving and the handling of a header end in an error: only where the system refuses a
-- `recv` or a `send`.
use employee_database.Prelude.{
  ℕ, ◌+◌, ◌≡◌, refl, Bool, true, false, Option, none, some, length, leb, if◌then◌else◌, ◌⊎◌, inl,
  inr, ◌==◌, ◌%◌, ◌^◌,
}
use employee_database.Memory.{Result, ok, error, fault, ◌>>=◌, Block, load, store, Allocator}
use employee_database.Memory.Bytes.{of_le, of_be}
use employee_database.Models.{
  code, handshake_request, db_access_request, ClientState, uninitialized, initialized, request,
}
use employee_database.Socket.{Socket, recv, send_all, is_empty}
use employee_database.Server.{
  Server, receive_header, receive_buf, receive_by, receive_from_client, send_message,
  send_handshake_response, send_invalid_request_response, send_empty_response, check_version,
  handle_uninitialized_client, start_request, handle_initialized_client, handle_header,
}

-- A call on the socket returns -1.
abbrev pub Refuses : Socket → Type 0
Refuses c = ((n : ℕ) × (recv n c ≡ error)) ⊎ ((msg : Block) × (send_all msg c ≡ error))

error_of_bind {ℓ κ ι} :
    {A : Type ℓ} {B : Type κ} {R : Type ι} (r : Result A) (k : A → Result B)
    → (r ≡ error → R)
    → ((a : A) → k a ≡ error → R)
    → (r >>= k) ≡ error
    → R
error_of_bind (ok a) k first next e = next a e
error_of_bind error k first next e = first refl
error_of_bind fault k first next e = absurd (cc e)

error_of_if {ℓ ι} :
    {A : Type ℓ} {R : Type ι} (b : Bool) (x y : Result A)
    → (x ≡ error → R)
    → (y ≡ error → R)
    → (if b then x else y) ≡ error
    → R
error_of_if true x y first second e = first e
error_of_if false x y first second e = second e

no_error {ℓ ι} : {A : Type ℓ} {R : Type ι} {a : A} → ok a ≡ error → R
no_error e = absurd (cc e)

load_error : {R : Type 0} (at n : ℕ) (b : Block) → load at n b ≡ error → R
unfolding load
load_error at n b = error_of_if (leb (at + n) (length b)) _ _ (no_error) (λ e. absurd (cc e))

store_error : {R : Type 0} (at : ℕ) (xs b : Block) → store at xs b ≡ error → R
unfolding store
store_error at xs b =
    error_of_if (leb (at + length xs) (length b)) _ _ (no_error) (λ e. absurd (cc e))

received-Refuses :
    (n at : ℕ) (b : Block) (s : Server) (k : Block × Socket → Block → Server)
    → ◌>>=◌ {B = ℕ × Server} (recv n s.socket) (λ r. store at r.0 b >>= λ h.
        if is_empty r.0 then ok (0, record s { socket = r.1 }) else ok (at + length r.0, k r h))
      ≡ error
    → Refuses s.socket
received-Refuses n at b s k =
    error_of_bind (recv n s.socket) _ (λ e. inl (n, e))
      (λ r.
        error_of_bind (store at r.0 b) _ (store_error at r.0 b)
          (λ h. error_of_if (is_empty r.0) _ _ (no_error) (no_error)))

receive_by-Refuses :
    (state : ClientState) (s : Server) → receive_by state s ≡ error → Refuses s.socket
unfolding receive_by receive_header receive_buf
receive_by-Refuses uninitialized s = received-Refuses _ _ _ s _
receive_by-Refuses initialized s = received-Refuses _ _ _ s _
receive_by-Refuses request s = of_buf s.conn.buf
  where
    of_buf : (b : Option Block) → receive_buf b s ≡ error → Refuses s.socket
    of_buf none = λ e. absurd (cc e)
    of_buf (some b) = received-Refuses _ _ _ s _

pub receive_from_client-Refuses : (s : Server) → receive_from_client s ≡ error → Refuses s.socket
unfolding receive_from_client
receive_from_client-Refuses s = receive_by-Refuses s.conn.state s

send_message-Refuses : (msg : Block) (s : Server) → send_message msg s ≡ error → Refuses s.socket
unfolding send_message
send_message-Refuses msg s =
    error_of_bind (send_all msg s.socket) _ (λ e. inr (msg, e)) (λ c. no_error)

check_version-Refuses : (same : Bool) (s : Server) → check_version same s ≡ error → Refuses s.socket
unfolding check_version send_handshake_response
check_version-Refuses false s = send_message-Refuses _ s
check_version-Refuses true s = send_message-Refuses _ _

handle_uninitialized_client-Refuses :
    (version : ℕ) (s : Server) → handle_uninitialized_client version s ≡ error → Refuses s.socket
unfolding handle_uninitialized_client send_invalid_request_response
handle_uninitialized_client-Refuses version s =
    error_of_bind (load 0 4 s.conn.header) _ (load_error 0 4 s.conn.header) (λ t.
      error_of_bind (load 4 2 s.conn.header) _ (load_error 4 2 s.conn.header) (λ v.
        error_of_if (of_le t == code handshake_request) _ _
          (check_version-Refuses (of_be v 0 == version) s)
          (error_of_bind (send_message _ s) _ (send_message-Refuses _ s) (λ u. no_error))))

handle_initialized_client-Refuses :
    (m : Allocator) (n : ℕ) (s : Server)
    → handle_initialized_client m n s ≡ error
    → Refuses s.socket
unfolding handle_initialized_client send_invalid_request_response send_empty_response start_request
handle_initialized_client-Refuses m n s =
    error_of_bind (load 0 4 s.conn.header) _ (load_error 0 4 s.conn.header) (λ t.
      error_of_bind (load 4 4 s.conn.header) _ (load_error 4 4 s.conn.header) (λ v.
        error_of_if (of_le t == code db_access_request) _ _
          (error_of_if (of_be v 0 % 2 ^ 32 == 0) _ _
            (error_of_bind (send_message _ s) _ (send_message-Refuses _ s) (λ u. no_error))
            (receive_from_client-Refuses _))
          (error_of_bind (send_message _ s) _ (send_message-Refuses _ s) (λ u. no_error))))

pub handle_header-Refuses :
    (state : ClientState) (version : ℕ) (m : Allocator) (n : ℕ) (s : Server)
    → handle_header state version m n s ≡ error
    → Refuses s.socket
unfolding handle_header
handle_header-Refuses uninitialized version m n s =
    error_of_if (n == 6) _ _
      (error_of_bind (handle_uninitialized_client version s) _
        (handle_uninitialized_client-Refuses version s) (λ u. no_error))
      (no_error)
handle_header-Refuses initialized version m n s =
    error_of_if (n == 8) _ _ (handle_initialized_client-Refuses m n s) (no_error)
handle_header-Refuses request version m n s = no_error
