-- ===== src/Server/Keeps/Turn.antt =====
-- A whole turn of a client.
use employee_database.Prelude.{
  ℕ, ◌≡◌, refl, ◌∙◌, Bool, true, false, if◌then◌else◌, ◌==◌, Bool-cases, ◌⊎◌, inl, inr, arith,
}
use employee_database.Memory.{Result, ok, error, fault, ◌>>=◌, Allocator}
use employee_database.Models.{ClientState, uninitialized, initialized, request}
use employee_database.Server.{
  Server, receive_from_client, handle_db_access_request, handle_header, handle_complete,
  serve_client,
}
use employee_database.Server.Connection.{
  IsConnection, HasRead, Receives, receive_from_client-Receives,
}
use employee_database.Server.Connection.Headed.{ReadyIn, Headed, handle_header-Headed}
use employee_database.Server.Connection.Turn.{IsComplete, Requested-IsComplete}
use employee_database.Server.Keeps.{
  Each, Each-ok, Each-bind, Each-if, Same, SameRead, Same-trans, receive_from_client-Same,
  handle_header-Same, handle_db_access_request-conn_idx,
}

-- A request of which all bytes are there is carried out.
pub record Completes (m : Allocator) (s t : Server) : Type 0 where
  pub ready : Server
  pub same : Same s ready
  pub complete : IsComplete ready.conn
  pub run : handle_db_access_request m ready ≡ ok t

-- The connection keeps its place, and the rest stays but for a complete request.
pub record Keeps (m : Allocator) (s : Server) (r : Bool × Server) : Type 0 where
  pub conn_idx : r.1.conn.conn_idx ≡ s.conn.conn_idx
  pub shared : Same s r.1 ⊎ Completes m s r.1

Same-Keeps : (m : Allocator) (s t : Server) (here : Bool) → Same s t → Keeps m s (here, t)
Same-Keeps m s t here h = record { conn_idx = h.0; shared = inl h }

handle_complete-Keeps :
    (state : ClientState) (m : Allocator) (n : ℕ) (s t : Server)
    → t.conn.state ≡ state
    → Same s t
    → ReadyIn state n t.conn
    → Each (Keeps m s) (handle_complete state m n t >>= λ u. ok (true, u))
unfolding handle_complete
handle_complete-Keeps uninitialized m n s t e h ready = Each-ok (Same-Keeps m s t true h)
handle_complete-Keeps initialized m n s t e h ready = Each-ok (Same-Keeps m s t true h)
handle_complete-Keeps request m n s t e h ready = elim (Bool-cases (n == t.conn.buf_size)) [
  | inl y ↦ rw y (
      Each-bind (handle_db_access_request m t)
        (record {
          held = λ u run. record {
            conn_idx = (handle_db_access_request-conn_idx m t).held u run ∙ h.0;
            shared = inr (record {
              ready = t;
              same = h;
              complete = Requested-IsComplete n t.conn.buf t.conn e refl ready (ground (arith, y));
              run = run;
            });
          };
        })
        (λ u k. Each-ok k))
  | inr d ↦ rw d (Each-ok (Same-Keeps m s t true h))
]

Headed-ReadyIn :
    (r : Result (ℕ × Server)) → Headed r → Each (λ q. ReadyIn q.1.conn.state q.0 q.1.conn) r
Headed-ReadyIn (ok q) h = Each-ok h.1
Headed-ReadyIn error h = record { held = λ b e. absurd (cc e) }
Headed-ReadyIn fault h = absurd h

handled-Keeps :
    (version : ℕ) (m : Allocator) (n : ℕ) (s t : Server)
    → Same s t
    → HasRead n t.conn
    → Each (Keeps m s) (
        handle_header t.conn.state version m n t >>= λ q.
        handle_complete q.1.conn.state m q.0 q.1 >>= λ u. ok (true, u))
handled-Keeps version m n s t h read =
    let r = handle_header t.conn.state version m n t in
    let same = handle_header-Same t.conn.state version m n t in
    let ready = Headed-ReadyIn r (handle_header-Headed t.conn.state version m n t refl read) in
    Each-bind {Q = λ q. Same t q.1 × ReadyIn q.1.conn.state q.0 q.1.conn} r
      (record { held = λ q run. (same.held q run, ready.held q run) })
      (λ q k. handle_complete-Keeps q.1.conn.state m q.0 s q.1 refl (Same-trans s t q.1 h k.0) k.1)

received-Keeps :
    (version : ℕ) (m : Allocator) (s : Server) (r : Result (ℕ × Server))
    → Receives s.conn r
    → Each (SameRead s) r
    → Each (Keeps m s) (
        r >>= λ r.
        if r.0 == 0
        then ok (false, r.1)
        else (handle_header r.1.conn.state version m r.0 r.1 >>= λ q.
            handle_complete q.1.conn.state m q.0 q.1 >>= λ t. ok (true, t)))
received-Keeps version m s (ok (n, t)) (state, inl (none_read, kept)) h =
    rw none_read (Each-ok (Same-Keeps m s t false (h.held (n, t) refl)))
received-Keeps version m s (ok (n, t)) (state, inr read) h =
    Each-if (n == 0) (Each-ok (Same-Keeps m s t false (h.held (n, t) refl)))
      (handled-Keeps version m n s t (h.held (n, t) refl) read)
received-Keeps version m s error i h = record { held = λ b e. absurd (cc e) }
received-Keeps version m s fault i h = absurd i

-- What a turn of a client with a well-formed connection keeps.
pub serve_client-Keeps :
    (version : ℕ) (m : Allocator) (s : Server)
    → IsConnection s.conn
    → Each (Keeps m s) (serve_client version m s)
unfolding serve_client
serve_client-Keeps version m s i =
    received-Keeps version m s (receive_from_client s) (receive_from_client-Receives s i)
      (receive_from_client-Same s)
