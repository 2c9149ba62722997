-- ===== src/Server/Loop/Joins.antt =====
-- What accepting a client does to the whole server.
use employee_database.Prelude.{
  ℕ, ◌≡◌, ◌≢◌, refl, sym, ap, ◌∙◌, Bool, true, Option, none, some, List, [], ◌∷◌, ◌++◌, length,
  eq→==, ne→==,
}
use employee_database.Memory.{Result, ok, Allocator}
use employee_database.Connections.{write}
use employee_database.Connections.Spreads.{home}
use employee_database.Server.Connection.{client_connection_init-IsConnection}
use employee_database.Server.Clients.{
  Clients, nth, Accepted, refused, unnamed, named, accept_new_client,
}
use employee_database.Server.Clients.Indexed.{nth-append}
use employee_database.Server.Clients.Accepts.{accept_new_client-Accepts}
use employee_database.Server.Loop.{System, accept_turn, visit}
use employee_database.Server.Loop.Invariant.{IsSystem, AllConnections-write}

-- A descriptor that `accept` answers is new, and has an intact bucket.
abbrev pub Fresh : ℕ → (ℕ → Bool) → (ℕ → Option ℕ) → System → Accepted → Type 0
Fresh listener intact f s refused = Unit {0}
Fresh listener intact f s (unnamed fd) = Unit {0}
Fresh listener intact f s (named fd) =
    (fd ≢ listener)
    × (f fd ≡ none)
    × (intact (home fd s.clients.client_connections.capacity) ≡ true)

-- The clients after an answer of `accept`.
abbrev pub joined : Accepted → ℕ → (ℕ → Option ℕ) → ℕ → Option ℕ
joined refused made f = f
joined (unnamed fd) made f = f
joined (named fd) made f = write fd (some made) f

-- The polled descriptors after it.
abbrev pub polled_after : Accepted → List ℕ → List ℕ
polled_after refused pfds = pfds
polled_after (unnamed fd) pfds = pfds
polled_after (named fd) pfds = pfds ++ (fd ∷ [])

pub record Admits (listener : ℕ) (intact : ℕ → Bool) (f : ℕ → Option ℕ) (accepted : Accepted)
    (s : System) (r : Result System) : Type 0 where
  pub after : Clients
  pub run : r ≡ ok (record s { clients = after })
  pub system :
      IsSystem listener intact
        (joined accepted s.clients.conns_made f)
        (record s { clients = after })
  pub capacity : after.client_connections.capacity ≡ s.clients.client_connections.capacity
  pub pfds : after.pfds ≡ polled_after accepted s.clients.pfds

accept_turn-Admits :
    (m : Allocator) (listener : ℕ) (accepted : Accepted) (intact : ℕ → Bool) (f : ℕ → Option ℕ)
    (s : System)
    → ((n : ℕ) → m.can_grow n ≡ true)
    → IsSystem listener intact f s
    → Fresh listener intact f s accepted
    → Admits listener intact f accepted s (accept_turn m accepted s)
unfolding accept_turn accept_new_client
accept_turn-Admits m listener refused intact f s granted h fresh = record {
  after = s.clients;
  run = refl;
  system = h;
  capacity = refl;
  pfds = refl;
}
accept_turn-Admits m listener (unnamed fd) intact f s granted h fresh = record {
  after = s.clients;
  run = refl;
  system = h;
  capacity = refl;
  pfds = refl;
}
accept_turn-Admits m listener (named fd) intact f s granted h (other, absent, whole) =
    let a = accept_new_client-Accepts m intact f fd s.clients granted h.consistent whole absent in
    record {
      after = a.after;
      run = rw a.run refl;
      system = record {
        consistent = a.consistent;
        listens = ap (nth 0) a.pfds ∙ nth-append 0 s.clients.pfds fd listener h.listens;
        unmapped = rw (ne→== listener fd (λ q. other (sym q))) h.unmapped;
        connections = rw a.conns (
            AllConnections-write s.clients.conns_made _ s.clients.client_connections.conns
              (client_connection_init-IsConnection m (length s.clients.pfds)) h.connections);
      };
      capacity = a.capacity;
      pfds = a.pfds;
    }

-- The visit of the listener, with a new descriptor whose bucket is intact.
pub visit-Admits :
    (version : ℕ) (m : Allocator) (listener : ℕ) (accepted : Accepted) (intact : ℕ → Bool)
    (f : ℕ → Option ℕ) (s : System)
    → ((n : ℕ) → m.can_grow n ≡ true)
    → IsSystem listener intact f s
    → Fresh listener intact f s accepted
    → Admits listener intact f accepted s (visit version m listener accepted 0 s)
unfolding visit
visit-Admits version m listener accepted intact f s granted h fresh =
    rw (h.listens, eq→== listener listener refl)
      (accept_turn-Admits m listener accepted intact f s granted h fresh)
