-- ===== src/Server/Loop/Invariant.antt =====
-- What holds of the whole server between two visits.
use employee_database.Prelude.{
  ℕ, ◌≡◌, refl, sym, ap, ◌∙◌, subst, Bool, Option, none, some, ◌==◌, Bool-cases, inl, inr, arith,
  eq→==,
}
use employee_database.Memory.{Block}
use employee_database.Models.{ClientState, uninitialized, initialized, request, ClientConnection}
use employee_database.Connections.{write}
use employee_database.Server.Connection.{Pending, InState, IsConnection}
use employee_database.Server.Clients.Removes.{Reindexed}
use employee_database.Server.Clients.{Clients, nth}
use employee_database.Server.Clients.Indexed.{IsConsistent, Holds-with_conns}
use employee_database.Server.Loop.{System, set_conns}

-- Each connection that is there is well formed.
abbrev pub AllConnections : (ℕ → Option ClientConnection) → Type 0
AllConnections conns = (c : ℕ) (conn : ClientConnection) → conns c ≡ some conn → IsConnection conn

-- The listener stands first and is no client, the polled descriptors and the map `f` fit together,
-- and all connections are well formed.
pub record IsSystem (listener : ℕ) (intact : ℕ → Bool) (f : ℕ → Option ℕ) (s : System)
    : Type 0 where
  pub consistent : IsConsistent intact f s.clients
  pub listens : nth 0 s.clients.pfds ≡ some listener
  pub unmapped : f listener ≡ none
  pub connections : AllConnections s.clients.client_connections.conns

-- A connection has another content at the same place.
pub IsConsistent-set_conn :
    (intact : ℕ → Bool) (f : ℕ → Option ℕ) (c : ℕ) (old new : ClientConnection) (s : Clients)
    → s.client_connections.conns c ≡ some old
    → new.conn_idx ≡ old.conn_idx
    → IsConsistent intact f s
    → IsConsistent intact f (set_conns (write c (some new) s.client_connections.conns) s)
IsConsistent-set_conn intact f c old new s at same h = record {
  holds = Holds-with_conns s.client_connections _ h.holds;
  light = h.light;
  some_fds = h.some_fds;
  inside = h.inside;
  sized = h.sized;
  unmade = λ k beyond. elim (Bool-cases (k == c)) [
    | inl y ↦
        let q : k ≡ c = ground (arith, y) in
        let both : some old ≡ none =
          sym at ∙ ap s.client_connections.conns (sym q) ∙ h.unmade k beyond in
        absurd (cc both)
    | inr n ↦ rw n (h.unmade k beyond)
  ];
  indexed = λ i fd e.
      (let p = h.indexed i fd e in
        elim (Bool-cases (p.c == c)) [
          | inl y ↦
              let q : p.c ≡ c = ground (arith, y) in
              let both : some p.conn ≡ some old =
                sym p.live ∙ ap s.client_connections.conns q ∙ at in
              let conns : p.conn ≡ old = cc both in
              record {
                c = c;
                conn = new;
                mapped = p.mapped ∙ ap some q;
                live = rw (eq→== c c refl) refl;
                index = same ∙ ap (λ o. o.conn_idx) (sym conns) ∙ p.index;
              }
          | inr n ↦ record {
            c = p.c;
            conn = p.conn;
            mapped = p.mapped;
            live = rw n p.live;
            index = p.index;
          }
        ]);
}

pub AllConnections-write :
    (c : ℕ) (new : ClientConnection) (conns : ℕ → Option ClientConnection)
    → IsConnection new
    → AllConnections conns
    → AllConnections (write c (some new) conns)
AllConnections-write c new conns i h k conn e = elim (Bool-cases (k == c)) [
  | inl y ↦
      let here : some new ≡ some conn = rw y at e in
      let q : new ≡ conn = cc here in subst IsConnection q i
  | inr n ↦ h k conn (rw n at e)
]

-- What is well formed does not depend on the place.
Pending-conn_idx :
    (b : Option Block) (c : ClientConnection) (i : ℕ)
    → Pending b c
    → Pending b (record c { conn_idx = i })
Pending-conn_idx none c i h = h
Pending-conn_idx (some b) c i h = h

InState-conn_idx :
    (state : ClientState) (c : ClientConnection) (i : ℕ)
    → InState state c
    → InState state (record c { conn_idx = i })
InState-conn_idx uninitialized c i h = h
InState-conn_idx initialized c i h = h
InState-conn_idx request c i h = Pending-conn_idx c.buf c i h

pub AllConnections-Reindexed :
    (old new : ℕ → Option ClientConnection)
    → Reindexed old new
    → AllConnections old
    → AllConnections new
AllConnections-Reindexed old new r h d conn e =
    let (was, there, q) = r d conn e in
    let wf = h d was there in
    let moved : IsConnection (record was { conn_idx = conn.conn_idx }) = record {
      header = wf.header;
      in_state = InState-conn_idx was.state was _ wf.in_state;
    } in
    subst IsConnection (sym q) moved
