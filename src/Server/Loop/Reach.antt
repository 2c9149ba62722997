-- ===== src/Server/Loop/Reach.antt =====
-- Every state of the whole server that the visits of the loop lead to, in whatever order.
use employee_database.Prelude.{
  ℕ, suc, ◌-◌, ◌≡◌, ◌≢◌, refl, sym, ap, ◌∙◌, subst, Bool, true, false, Option, none, some, length,
  ◌==◌, if◌then◌else◌, inl, inr, arith, eq→==, ne→==, [], ◌∷◌,
}
use employee_database.Memory.{Result, ok, Allocator}
use employee_database.Connections.{write, connection_map_init}
use employee_database.Connections.Spreads.{home}
use employee_database.Connections.Refines.{everywhere, connection_map_init-Holds}
use employee_database.Socket.{Socket}
use employee_database.Server.Clients.{Clients, nth, Accepted, poll_listener, add_fd}
use employee_database.Server.Clients.Indexed.{IsConsistent, nth-beyond}
use employee_database.Server.Loop.{System, visit}
use employee_database.Server.Loop.Invariant.{IsSystem}
use employee_database.Server.Loop.Turns.{Visited, Visits, visit-Visits}
use employee_database.Server.Loop.Joins.{Fresh, joined, Admits, visit-Admits}

-- The intact buckets after the visit of a client: if one descriptor less is polled, all but its own.
abbrev pub intact_after : (ℕ → Bool) → ℕ → System → System → ℕ → Bool
intact_after intact fd s t =
    if length t.clients.pfds == length s.clients.pfds
    then intact
    else write (home fd s.clients.client_connections.capacity) false intact

-- The place is polled, and its bucket and the last one's are intact.
pub record Undisturbed (intact : ℕ → Bool) (i fd : ℕ) (s : System) : Type 0 where
  pub polled : nth i s.clients.pfds ≡ some fd
  pub whole : intact (home fd s.clients.client_connections.capacity) ≡ true
  pub whole_last :
      (x : ℕ)
      → nth (length s.clients.pfds - 1) s.clients.pfds ≡ some x
      → intact (home x s.clients.client_connections.capacity) ≡ true

-- Visits of the loop one after the other, of the listener or of an undisturbed client, while the
-- network changes the sockets. `f` are the connections that clients were given, and `intact` tells
-- the buckets from which no client has left.
pub data Reach (version : ℕ) (m : Allocator) (listener : ℕ) (start : System)
    : (ℕ → Bool) → (ℕ → Option ℕ) → System → Type 0 where
  here : Reach version m listener start everywhere (λ k. none) start
  joins :
      {intact : ℕ → Bool} {f : ℕ → Option ℕ} {s t : System} (accepted : Accepted)
      → Reach version m listener start intact f s
      → Fresh listener intact f s accepted
      → visit version m listener accepted 0 s ≡ ok t
      → Reach version m listener start intact (joined accepted s.clients.conns_made f) t
  visits :
      {intact : ℕ → Bool} {f : ℕ → Option ℕ} {s t : System} (accepted : Accepted) (i fd : ℕ)
      → Reach version m listener start intact f s
      → Undisturbed intact (suc i) fd s
      → visit version m listener accepted (suc i) s ≡ ok t
      → Reach version m listener start (intact_after intact fd s t) f t
  meanwhile :
      {intact : ℕ → Bool} {f : ℕ → Option ℕ} {s : System} (sockets : ℕ → Socket)
      → Reach version m listener start intact f s
      → Reach version m listener start intact f (record s { sockets = sockets })

-- Before the first round.
poll_listener-IsConsistent :
    (m : Allocator) (exceeds : ℕ → ℕ → Bool) (listener : ℕ) (c : Clients)
    → exceeds 0 101 ≡ false
    → poll_listener m exceeds listener ≡ ok (true, c)
    → IsConsistent everywhere (λ k. none) c
      × (nth 0 c.pfds ≡ some listener)
      × ((k : ℕ) → c.client_connections.conns k ≡ none)
unfolding poll_listener add_fd connection_map_init
poll_listener-IsConsistent m exceeds listener c light e =
    let opened : Clients = record {
      pfds = listener ∷ [];
      room = 16;
      fd_size = 16;
      conns_made = 0;
      client_connections = connection_map_init exceeds (λ a. none);
    } in
    let q : opened ≡ c = cc e in
    let h : IsConsistent everywhere (λ k. none) opened = record {
      holds = connection_map_init-Holds exceeds (λ a. none);
      light = light;
      some_fds = omega arith;
      inside = omega arith;
      sized = refl;
      unmade = λ c beyond. refl;
      indexed = λ i fd e. absurd (cc e);
    } in
    subst
      (λ c.
        IsConsistent everywhere (λ k. none) c
        × (nth 0 c.pfds ≡ some listener)
        × ((k : ℕ) → c.client_connections.conns k ≡ none))
      q (h, refl, λ k. refl)

pub poll_listener-IsSystem :
    (m : Allocator) (exceeds : ℕ → ℕ → Bool) (listener : ℕ) (s : System)
    → exceeds 0 101 ≡ false
    → poll_listener m exceeds listener ≡ ok (true, s.clients)
    → IsSystem listener everywhere (λ k. none) s
poll_listener-IsSystem m exceeds listener s light e =
    let (h, listens, empty) = poll_listener-IsConsistent m exceeds listener s.clients light e in
    record {
      consistent = h;
      listens = listens;
      unmapped = refl;
      connections = λ c conn there. (let both = empty c in absurd (cc (both, there)));
    }

joins-IsSystem :
    (listener : ℕ) (intact : ℕ → Bool) (f : ℕ → Option ℕ) (accepted : Accepted) (s t : System)
    (r : Result System)
    → Admits listener intact f accepted s r
    → r ≡ ok t
    → IsSystem listener intact (joined accepted s.clients.conns_made f) t
joins-IsSystem listener intact f accepted s t r a run =
    let both : ok (record s { clients = a.after }) ≡ ok t = sym a.run ∙ run in
    let q : record s { clients = a.after } ≡ t = cc both in
    subst (IsSystem listener intact (joined accepted s.clients.conns_made f)) q a.system

visits-IsSystem :
    (m : Allocator) (listener : ℕ) (intact : ℕ → Bool) (f : ℕ → Option ℕ) (i fd c : ℕ)
    (s t : System)
    → nth (suc i) s.clients.pfds ≡ some fd
    → Visited m listener intact f (suc i) fd c s t
    → IsSystem listener (intact_after intact fd s t) f t
visits-IsSystem m listener intact f i fd c s t polled v = elim (v.system) [
  | inl h ↦ rw (eq→== (length t.clients.pfds) (length s.clients.pfds) (ap length h.pfds)) (h.system)
  | inr l ↦
      let inside = nth-beyond (suc i) s.clients.pfds fd polled in
      let fewer : length t.clients.pfds ≢ length s.clients.pfds =
        λ q. omega (arith, q, l.pfds, inside) in
      rw (ne→== (length t.clients.pfds) (length s.clients.pfds) fewer) (l.system)
]

-- If no allocation is refused, then from what poll_listener makes, with a map that is not too full
-- at its start, every state that visits of the loop lead to, in whatever order, of the listener,
-- with a new descriptor whose bucket is intact, or of a client, while its bucket and that of the
-- last descriptor are intact, and with the sockets changed in between, has the listener first, the
-- map and the polled descriptors fitting together, and every connection well formed; intact are the
-- buckets from which no client has left.
pub Reach-IsSystem :
    (version : ℕ) (m : Allocator) (exceeds : ℕ → ℕ → Bool) (listener : ℕ) (start : System)
    (intact : ℕ → Bool) (f : ℕ → Option ℕ) (s : System)
    → ((n : ℕ) → m.can_grow n ≡ true)
    → exceeds 0 101 ≡ false
    → poll_listener m exceeds listener ≡ ok (true, start.clients)
    → Reach version m listener start intact f s
    → IsSystem listener intact f s
Reach-IsSystem version m exceeds listener start intact f s granted light e here =
    poll_listener-IsSystem m exceeds listener start light e
Reach-IsSystem version m exceeds listener start _ _ t granted light e
      (joins {intact} {f} {s} accepted r fresh run) =
    let h = Reach-IsSystem version m exceeds listener start intact f s granted light e r in
    joins-IsSystem listener intact f accepted s t _
      (visit-Admits version m listener accepted intact f s granted h fresh) run
Reach-IsSystem version m exceeds listener start _ _ t granted light e
      (visits {intact} {f} {s} accepted i fd r u run) =
    let h = Reach-IsSystem version m exceeds listener start intact f s granted light e r in
    let (c, mapped, v) =
      visit-Visits version m listener accepted intact f i fd s h u.polled u.whole u.whole_last in
    visits-IsSystem m listener intact f i fd c s t u.polled
      (subst (Visits version m listener intact f (suc i) fd c s) run v)
Reach-IsSystem version m exceeds listener start _ _ t granted light e
      (meanwhile {intact} {f} {s} sockets r) =
    let h = Reach-IsSystem version m exceeds listener start intact f s granted light e r in
    record {
      consistent = h.consistent;
      listens = h.listens;
      unmapped = h.unmapped;
      connections = h.connections;
    }
