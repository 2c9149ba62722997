-- ===== src/Server/Keeps.antt =====
-- What a turn of one client leaves as it was: the place of its connection, and, but for a complete
-- request, the employees, the header and the file.
pub mod Turn
use employee_database.Prelude.{
  ℕ, ◌≡◌, refl, subst, Bool, true, false, Option, none, some, List, length, if◌then◌else◌, ◌==◌,
  ◌+◌, ◌%◌, ◌^◌, ◌∙◌,
}
use employee_database.Memory.{Result, ok, error, fault, ◌>>=◌, Block, load, Allocator, fresh, store}
use employee_database.Memory.Bytes.{le32, of_le, of_be}
use employee_database.Models.{
  code, ClientState, uninitialized, initialized, request, invalid_request, handshake_request,
  db_access_request,
}
use employee_database.Socket.{Socket, recv, send_all, is_empty}
use employee_database.Server.{
  Server, receive_header, receive_buf, receive_by, receive_from_client, send_message, check_version,
  send_handshake_response, send_invalid_request_response, send_empty_response, rewind,
  handle_uninitialized_client, start_request, handle_initialized_client, answer_request,
  handle_db_access_request, handle_header, handle_complete, serve_client,
}

-- What holds of the value, if there is one.
pub record Each {ℓ} {A : Type ℓ} (P : A → Type 0) (r : Result A) : Type ℓ where
  pub held : (a : A) → r ≡ ok a → P a

-- A value that is there.
pub Each-ok {ℓ} : {A : Type ℓ} {P : A → Type 0} {a : A} → P a → Each P (ok a)
Each-ok {P} {a} p = record { held = λ b e. (let q : a ≡ b = cc e in subst P q p) }

pub Each-bind {ℓ ℓ'} :
    {A : Type ℓ} {B : Type ℓ'} {Q : A → Type 0} {P : B → Type 0} (r : Result A) {k : A → Result B}
    → Each Q r
    → ((a : A) → Q a → Each P (k a))
    → Each P (r >>= k)
Each-bind (ok a) q next = next a (q.held a refl)
Each-bind error q next = record { held = λ b e. absurd (cc e) }
Each-bind fault q next = record { held = λ b e. absurd (cc e) }

Each-any {ℓ ℓ'} :
    {A : Type ℓ} {B : Type ℓ'} {P : B → Type 0} (r : Result A) {k : A → Result B}
    → ((a : A) → Each P (k a))
    → Each P (r >>= k)
Each-any (ok a) next = next a
Each-any error next = record { held = λ b e. absurd (cc e) }
Each-any fault next = record { held = λ b e. absurd (cc e) }

pub Each-if {ℓ} :
    {A : Type ℓ} {P : A → Type 0} (b : Bool) {x y : Result A}
    → Each P x
    → Each P y
    → Each P (if b then x else y)
Each-if true p q = p
Each-if false p q = q

-- The place of the connection, the employees, the header and the file are the same.
abbrev pub Same : Server → Server → Type 0
Same s t =
    (t.conn.conn_idx ≡ s.conn.conn_idx)
    × (t.employees ≡ s.employees)
    × (t.dbhdr ≡ s.dbhdr)
    × (t.file ≡ s.file)

pub Same-refl : (s : Server) → Same s s
Same-refl s = (refl, refl, refl, refl)

pub Same-trans : (s t u : Server) → Same s t → Same t u → Same s u
Same-trans s t u p q = (q.0 ∙ p.0, q.1 ∙ p.1, q.2 ∙ p.2, q.3 ∙ p.3)

abbrev pub SameRead : Server → ℕ × Server → Type 0
SameRead s r = Same s r.1

-- What has been received is stored, where there is room.
received-Same :
    (n at : ℕ) (b : Block) (s : Server) (k : List ℕ × Socket → Block → Server)
    → ((r : List ℕ × Socket) (h : Block) → Same s (k r h))
    → Each (SameRead s) (
        recv n s.socket >>= λ r. store at r.0 b >>= λ h.
        if is_empty r.0 then ok (0, record s { socket = r.1 }) else ok (at + length r.0, k r h))
received-Same n at b s k same = Each-any (recv n s.socket) (λ r.
    Each-any (store at r.0 b)
      (λ h. Each-if (is_empty r.0) (Each-ok (Same-refl s)) (Each-ok (same r h))))

receive_by-Same : (state : ClientState) (s : Server) → Each (SameRead s) (receive_by state s)
unfolding receive_by receive_header receive_buf
receive_by-Same uninitialized s = received-Same _ _ _ s _ (λ r h. Same-refl s)
receive_by-Same initialized s = received-Same _ _ _ s _ (λ r h. Same-refl s)
receive_by-Same request s = of_buf s.conn.buf
  where
    of_buf : (b : Option Block) → Each (SameRead s) (receive_buf b s)
    of_buf none = record { held = λ b e. absurd (cc e) }
    of_buf (some b) = received-Same _ _ _ s _ (λ r h. Same-refl s)

pub receive_from_client-Same : (s : Server) → Each (SameRead s) (receive_from_client s)
unfolding receive_from_client
receive_from_client-Same s = receive_by-Same s.conn.state s

send_message-Same : (msg : Block) (s t : Server) → Same s t → Each (Same s) (send_message msg t)
unfolding send_message
send_message-Same msg s t h = Each-any (send_all msg t.socket) (λ d. Each-ok h)

-- A message, after which the header is received anew.
send_rewind-Same :
    (n : ℕ) (msg : Block) (s : Server)
    → Each (SameRead s) (send_message msg s >>= λ t. ok (n, rewind t))
send_rewind-Same n msg s =
    Each-bind (send_message msg s) (send_message-Same msg s s (Same-refl s)) (λ t h. Each-ok h)

check_version-Same : (same : Bool) (s : Server) → Each (Same s) (check_version same s)
unfolding check_version send_handshake_response
check_version-Same false s = send_message-Same _ s s (Same-refl s)
check_version-Same true s = send_message-Same _ s _ (Same-refl s)

handle_uninitialized_client-Same :
    (version : ℕ) (s : Server) → Each (Same s) (handle_uninitialized_client version s)
unfolding handle_uninitialized_client send_invalid_request_response
handle_uninitialized_client-Same version s = Each-any (load 0 4 s.conn.header) (λ t.
    Each-any (load 4 2 s.conn.header) (λ v.
      Each-if (of_le t == code handshake_request) (check_version-Same (of_be v 0 == version) s) (
        Each-bind (send_message (le32 (code invalid_request)) s)
          (send_message-Same _ s s (Same-refl s)) (λ t h. Each-ok h))))

handle_initialized_client-Same :
    (m : Allocator) (n : ℕ) (s : Server) → Each (SameRead s) (handle_initialized_client m n s)
unfolding handle_initialized_client send_invalid_request_response send_empty_response start_request
handle_initialized_client-Same m n s = Each-any (load 0 4 s.conn.header) (λ t.
    Each-any (load 4 4 s.conn.header) (λ v.
      Each-if (of_le t == code db_access_request)
        (Each-if (of_be v 0 % 2 ^ 32 == 0) (send_rewind-Same n _ s) (receive_from_client-Same _))
        (send_rewind-Same n _ s)))

pub handle_header-Same :
    (state : ClientState) (version : ℕ) (m : Allocator) (n : ℕ) (s : Server)
    → Each (SameRead s) (handle_header state version m n s)
unfolding handle_header
handle_header-Same uninitialized version m n s =
    Each-if (n == 6)
      (Each-bind (handle_uninitialized_client version s)
        (handle_uninitialized_client-Same version s) (λ t h. Each-ok h))
      (Each-ok (Same-refl s))
handle_header-Same initialized version m n s =
    Each-if (n == 8) (handle_initialized_client-Same m n s) (Each-ok (Same-refl s))
handle_header-Same request version m n s = Each-ok (Same-refl s)

-- A request that is carried out leaves the connection its place.
pub handle_db_access_request-conn_idx :
    (m : Allocator) (s : Server)
    → Each (λ t. t.conn.conn_idx ≡ s.conn.conn_idx) (handle_db_access_request m s)
unfolding handle_db_access_request
handle_db_access_request-conn_idx m s = Each-any (answer_request m s.conn.buf s) (λ t. Each-ok refl)
