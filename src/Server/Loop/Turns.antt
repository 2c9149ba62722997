-- ===== src/Server/Loop/Turns.antt =====
-- What one visit of the loop does to the whole server.
use employee_database.Prelude.{
  ℕ, suc, ◌-◌, ◌≡◌, ◌≢◌, refl, sym, ap, ◌∙◌, Bool, true, false, Option, none, some, length,
  if◌then◌else◌, ◌⊎◌, inl, inr, eq→==, ne→==,
}
use employee_database.Memory.{Result, ok, error, fault, ◌>>=◌, Allocator}
use employee_database.Models.{ClientConnection}
use employee_database.Connections.{write}
use employee_database.Connections.Spreads.{home}
use employee_database.Server.{Server, serve_client}
use employee_database.Server.Connection.{IsConnection}
use employee_database.Server.Connection.Turn.{Fails, Faults, Turns, serve_client-Turns}
use employee_database.Server.Keeps.{Each}
use employee_database.Server.Keeps.Turn.{Keeps, Completes, serve_client-Keeps}
use employee_database.Server.Clients.{nth, Accepted}
use employee_database.Server.Clients.Indexed.{client_of-Placed, nth-inside}
use employee_database.Server.Clients.Leaves.{handle_client_disconnect-Leaves}
use employee_database.Server.Loop.{System, server_of, put_back, disconnect, client_turn, visit}
use employee_database.Server.Loop.Invariant.{
  IsSystem, IsConsistent-set_conn, AllConnections-write, AllConnections-Reindexed,
}

-- What the server shares has not changed, or the client's request, of which all bytes were there,
-- was carried out.
pub record Completed (m : Allocator) (fd c : ℕ) (s t : System) : Type 0 where
  pub conn : ClientConnection
  pub live : s.clients.client_connections.conns c ≡ some conn
  pub after : Server
  pub completes : Completes m (server_of conn fd s) after
  pub employees : t.employees ≡ after.employees
  pub dbhdr : t.dbhdr ≡ after.dbhdr
  pub file : t.file ≡ after.file

abbrev pub SameData : System → System → Type 0
SameData s t = (t.employees ≡ s.employees) × (t.dbhdr ≡ s.dbhdr) × (t.file ≡ s.file)

-- The client stays, or its descriptor is no longer polled and its bucket no longer intact.
pub record Stays (listener : ℕ) (intact : ℕ → Bool) (f : ℕ → Option ℕ) (s t : System) : Type 0 where
  pub system : IsSystem listener intact f t
  pub pfds : t.clients.pfds ≡ s.clients.pfds

pub record Left (listener : ℕ) (intact : ℕ → Bool) (f : ℕ → Option ℕ) (i fd : ℕ) (s t : System)
    : Type 0 where
  pub system :
      IsSystem listener (write (home fd s.clients.client_connections.capacity) false intact) f t
  pub pfds : length t.clients.pfds ≡ length s.clients.pfds - 1
  pub moved :
      (j x : ℕ)
      → nth j t.clients.pfds ≡ some x
      → (j ≡ i → nth (length s.clients.pfds - 1) s.clients.pfds ≡ some x)
        × (j ≢ i → nth j s.clients.pfds ≡ some x)

-- After the turn of the client with the descriptor `fd` and the connection `c`.
pub record Visited (m : Allocator) (listener : ℕ) (intact : ℕ → Bool) (f : ℕ → Option ℕ)
    (i fd c : ℕ) (s t : System) : Type 0 where
  pub system : Stays listener intact f s t ⊎ Left listener intact f i fd s t
  pub capacity : t.clients.client_connections.capacity ≡ s.clients.client_connections.capacity
  pub sockets : (x : ℕ) → x ≢ fd → t.sockets x ≡ s.sockets x
  pub others :
      (d : ℕ) (conn : ClientConnection)
      → d ≢ c
      → t.clients.client_connections.conns d ≡ some conn
      → (was : ClientConnection) × (s.clients.client_connections.conns d ≡ some was)
        × (conn ≡ record was { conn_idx = conn.conn_idx })
  pub shared : SameData s t ⊎ Completed m fd c s t

-- The turn of the client, on its own connection, ends the visit.
pub record Stops (Ends : Server → Type 0) (fd c : ℕ) (s : System) : Type 0 where
  pub conn : ClientConnection
  pub live : s.clients.client_connections.conns c ≡ some conn
  pub ends : Ends (server_of conn fd s)

abbrev pub Visits :
    ℕ → Allocator → ℕ → (ℕ → Bool) → (ℕ → Option ℕ) → ℕ → ℕ → ℕ → System → Result System → Type 0
Visits version m listener intact f i fd c s (ok t) = Visited m listener intact f i fd c s t
Visits version m listener intact f i fd c s error = Stops (Fails version m) fd c s
Visits version m listener intact f i fd c s fault = Stops (Faults version m) fd c s

module _ (version : ℕ) (m : Allocator) (listener : ℕ) (intact : ℕ → Bool) (f : ℕ → Option ℕ)
    (i fd c : ℕ) (conn : ClientConnection) (s : System) (h : IsSystem listener intact f s)
    (whole : intact (home fd s.clients.client_connections.capacity) ≡ true)
    (polled : nth (suc i) s.clients.pfds ≡ some fd) (mapped : f fd ≡ some c)
    (live : s.clients.client_connections.conns c ≡ some conn) (index : conn.conn_idx ≡ suc i) where
  shared_after :
      (here : Bool) (t : Server) (u : System)
      → Keeps m (server_of conn fd s) (here, t)
      → u.employees ≡ t.employees
      → u.dbhdr ≡ t.dbhdr
      → u.file ≡ t.file
      → SameData s u ⊎ Completed m fd c s u
  shared_after here t u k e d g = elim (k.shared) [
    | inl same ↦ inl (e ∙ same.1, d ∙ same.2, g ∙ same.3)
    | inr done ↦ inr (record {
      conn = conn;
      live = live;
      after = t;
      completes = done;
      employees = e;
      dbhdr = d;
      file = g;
    })
  ]

  IsSystem-put_back :
      (t : Server)
      → IsConnection t.conn
      → t.conn.conn_idx ≡ conn.conn_idx
      → IsSystem listener intact f (put_back c fd t s)
  IsSystem-put_back t wf same = record {
    consistent = IsConsistent-set_conn intact f c conn t.conn s.clients live same h.consistent;
    listens = h.listens;
    unmapped = h.unmapped;
    connections = AllConnections-write c t.conn s.clients.client_connections.conns wf h.connections;
  }

  others_put_back :
      (t : Server) (d : ℕ) (k : ClientConnection)
      → d ≢ c
      → write c (some t.conn) s.clients.client_connections.conns d ≡ some k
      → s.clients.client_connections.conns d ≡ some k
  others_put_back t d k apart e = rw (ne→== d c apart) at e

  stays-Visited :
      (t : Server)
      → IsConnection t.conn
      → Keeps m (server_of conn fd s) (true, t)
      → Visited m listener intact f (suc i) fd c s (put_back c fd t s)
  stays-Visited t wf k = record {
    system = inl (record { system = IsSystem-put_back t wf k.conn_idx; pfds = refl });
    capacity = refl;
    sockets = λ x apart. rw (ne→== x fd apart) refl;
    others = λ d o apart e. (o, others_put_back t d o apart e, refl);
    shared = shared_after true t (put_back c fd t s) k refl refl refl;
  }

  leaves_turn :
      (t : Server)
      → ((x : ℕ)
          → nth (length s.clients.pfds - 1) s.clients.pfds ≡ some x
          → intact (home x s.clients.client_connections.capacity) ≡ true)
      → IsConnection t.conn
      → Keeps m (server_of conn fd s) (false, t)
      → Visits version m listener intact f (suc i) fd c s (disconnect c (put_back c fd t s))
  unfolding disconnect
  leaves_turn t whole_last wf k =
      let u = put_back c fd t s in
      let sys = IsSystem-put_back t wf k.conn_idx in
      let l =
        handle_client_disconnect-Leaves intact f i fd u.clients c t.conn sys.consistent whole
          whole_last polled mapped (rw (eq→== c c refl) refl) (k.conn_idx ∙ index) in
      let (x, first) = nth-inside 0 l.after.pfds l.consistent.some_fds in
      let listens : nth 0 s.clients.pfds ≡ some x = (l.moved 0 x first).1 (λ q. cc q) in
      rw l.run (record {
        system = inr (record {
          system = record {
            consistent = l.consistent;
            listens = first ∙ sym listens ∙ h.listens;
            unmapped = h.unmapped;
            connections =
                AllConnections-Reindexed u.clients.client_connections.conns _ l.kept
                  sys.connections;
          };
          pfds = l.shorter;
          moved = l.moved;
        });
        capacity = l.capacity;
        sockets = λ x apart. rw (ne→== x fd apart) refl;
        others = λ d o apart e.
            (let (was, there, q) = l.kept d o e in (was, others_put_back t d was apart there, q));
        shared = shared_after false t (record u { clients = l.after }) k refl refl refl;
      })

  turned :
      (r : Result (Bool × Server))
      → ((x : ℕ)
          → nth (length s.clients.pfds - 1) s.clients.pfds ≡ some x
          → intact (home x s.clients.client_connections.capacity) ≡ true)
      → Turns version m (server_of conn fd s) r
      → Each (Keeps m (server_of conn fd s)) r
      → Visits version m listener intact f
          (suc i)
          fd
          c
          s
          (r >>= λ r. if r.0 then ok (put_back c fd r.1 s) else disconnect c (put_back c fd r.1 s))
  turned (ok (true, t)) whole_last wf k = stays-Visited t wf (k.held (true, t) refl)
  turned (ok (false, t)) whole_last wf k = leaves_turn t whole_last wf (k.held (false, t) refl)
  turned error whole_last e k = record { conn = conn; live = live; ends = e }
  turned fault whole_last e k = record { conn = conn; live = live; ends = e }

-- If the listener stands first, the map and the polled descriptors fit together, every connection
-- is well formed, and the buckets of a client and of the last descriptor are intact, then the visit
-- of the client ends with all of this as before, or, if the client has gone, with one descriptor
-- less and the client's bucket no longer intact; other sockets have not changed, nor other
-- connections but for their places, and the employees, the header and the file have not changed
-- unless a request of the client whose bytes were all there was carried out; or the visit ends in
-- an error or a fault that the turn of this very client, on its connection and socket as they were,
-- ends in, as serve_client-Turns says of the turn: the fault is one of handle_db_access_request on
-- the complete request that the turn has come to.
pub visit-Visits :
    (version : ℕ) (m : Allocator) (listener : ℕ) (accepted : Accepted) (intact : ℕ → Bool)
    (f : ℕ → Option ℕ) (i fd : ℕ) (s : System)
    → IsSystem listener intact f s
    → nth (suc i) s.clients.pfds ≡ some fd
    → intact (home fd s.clients.client_connections.capacity) ≡ true
    → ((x : ℕ)
        → nth (length s.clients.pfds - 1) s.clients.pfds ≡ some x
        → intact (home x s.clients.client_connections.capacity) ≡ true)
    → (c : ℕ) × (f fd ≡ some c)
      × Visits version m listener intact f
          (suc i)
          fd
          c
          s
          (visit version m listener accepted (suc i) s)
unfolding visit client_turn
visit-Visits version m listener accepted intact f i fd s h polled whole whole_last =
    let p = h.consistent.indexed i fd polled in
    let sv = server_of p.conn fd s in
    let wf = h.connections p.c p.conn p.live in
    let apart : fd ≢ listener =
      λ q. (let both : some p.c ≡ none = sym p.mapped ∙ ap f q ∙ h.unmapped in absurd (cc both)) in
    let found = client_of-Placed intact f fd p.c s.clients h.consistent.holds whole p.mapped in
    (
      p.c,
      p.mapped,
      rw (polled, ne→== fd listener apart, found, p.live)
          (turned version m listener intact f i fd p.c p.conn s h whole polled p.mapped p.live
            p.index (serve_client version m sv) whole_last (serve_client-Turns version m sv wf)
            (serve_client-Keeps version m sv wf)),
    )
