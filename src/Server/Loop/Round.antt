-- ===== src/Server/Loop/Round.antt =====
-- A whole round of the loop, when no two clients share a bucket.
use employee_database.Prelude.{
  ℕ, zero, suc, refl, ◌+◌, ◌-◌, ◌<◌, ◌≤◌, ◌≡◌, sym, ap, ◌∙◌, Bool, true, false, Option, some,
  length, ltb, inl, inr, arith, lt→ltb, Bool-cases,
}
use employee_database.Memory.{Result, ok, error, fault, ◌>>=◌, Allocator}
use employee_database.Connections.{write}
use employee_database.Connections.Spreads.{home}
use employee_database.Server.{Server}
use employee_database.Server.Connection.Turn.{Fails, Faults}
use employee_database.Server.Clients.{nth, Accepted}
use employee_database.Server.Clients.Indexed.{nth-inside}
use employee_database.Server.Loop.{System, visit, poll_round}
use employee_database.Server.Loop.Invariant.{IsSystem}
use employee_database.Server.Loop.Turns.{Visited, Visits, Stops, visit-Visits}
use employee_database.Server.Loop.Buckets.{
  OwnBuckets, OwnBuckets-left, NewBucket, OwnBuckets-joined,
}
use employee_database.Server.Loop.Joins.{Fresh, joined, visit-Admits}

pub record IsRound (listener : ℕ) (s : System) : Type 0 where
  pub intact : ℕ → Bool
  pub f : ℕ → Option ℕ
  pub system : IsSystem listener intact f s
  pub buckets : OwnBuckets intact s.clients.client_connections.capacity s.clients.pfds

-- A round that has started at `s` has come to the place `i`, and the server to a state: each place
-- before was not ready, or was visited.
pub data Comes (version : ℕ) (m : Allocator) (listener : ℕ) (accepted : Accepted) (ready : ℕ → Bool)
    (s : System) : ℕ → System → Type 0 where
  begins : Comes version m listener accepted ready s 0 s
  skips :
      {i : ℕ} {t : System}
      → Comes version m listener accepted ready s i t
      → i < length t.clients.pfds
      → ready i ≡ false
      → Comes version m listener accepted ready s (suc i) t
  visits :
      {i : ℕ} {t u : System}
      → Comes version m listener accepted ready s i t
      → i < length t.clients.pfds
      → ready i ≡ true
      → visit version m listener accepted i t ≡ ok u
      → Comes version m listener accepted ready s (suc i) u

-- The round has come to a well-formed state in which the turn of the client at a ready place ends it.
pub record StopsRound (Ends : Server → Type 0) (version : ℕ) (m : Allocator) (listener : ℕ)
    (accepted : Accepted) (ready : ℕ → Bool) (s : System) : Type 0 where
  pub place : ℕ
  pub system : System
  pub comes : Comes version m listener accepted ready s place system
  pub round : IsRound listener system
  pub is_ready : ready place ≡ true
  pub fd : ℕ
  pub polled : nth place system.clients.pfds ≡ some fd
  pub c : ℕ
  pub mapped : round.f fd ≡ some c
  pub stops : Stops Ends fd c system

-- How a round that starts at `s` ends: behind the last place, or with the turn of a client.
abbrev pub RoundEnds : ℕ → Allocator → ℕ → Accepted → (ℕ → Bool) → System → Result System → Type 0
RoundEnds version m listener accepted ready s (ok t) =
    IsRound listener t
    × (i : ℕ) × Comes version m listener accepted ready s i t
    × (length t.clients.pfds ≤ i)
RoundEnds version m listener accepted ready s error =
    StopsRound (Fails version m) version m listener accepted ready s
RoundEnds version m listener accepted ready s fault =
    StopsRound (Faults version m) version m listener accepted ready s

module _ (version : ℕ) (m : Allocator) (listener : ℕ) (accepted : Accepted) (ready : ℕ → Bool) where
  -- After the visit of a client the round goes on.
  Visited-IsRound :
      (s t : System) (h : IsRound listener s) (i fd c : ℕ)
      → nth (suc i) s.clients.pfds ≡ some fd
      → Visited m listener h.intact h.f (suc i) fd c s t
      → IsRound listener t × (length t.clients.pfds ≤ length s.clients.pfds)
  Visited-IsRound s t h i fd c polled v = elim (v.system) [
    | inl k ↦ (
      record {
        intact = h.intact;
        f = h.f;
        system = k.system;
        buckets = rw (v.capacity, k.pfds) (h.buckets);
      },
      omega (arith, ap length k.pfds),
    )
    | inr k ↦ (
      record {
        intact = write (home fd s.clients.client_connections.capacity) false h.intact;
        f = h.f;
        system = k.system;
        buckets = rw v.capacity (
            OwnBuckets-left h.intact s.clients.client_connections.capacity i fd s.clients.pfds
              t.clients.pfds polled k.pfds k.moved h.buckets);
      },
      omega (arith, k.pfds),
    )
  ]

  abbrev Ends : System → Result System → Type 0
  Ends s r = RoundEnds version m listener accepted ready s r

  stopped :
      {Because : Server → Type 0} (from s : System) (h : IsRound listener s) (i fd c : ℕ)
      → Comes version m listener accepted ready from (suc i) s
      → ready (suc i) ≡ true
      → nth (suc i) s.clients.pfds ≡ some fd
      → h.f fd ≡ some c
      → Stops Because fd c s
      → StopsRound Because version m listener accepted ready from
  stopped from s h i fd c came is_ready polled mapped v = record {
    place = suc i;
    system = s;
    comes = came;
    round = h;
    is_ready = is_ready;
    fd = fd;
    polled = polled;
    c = c;
    mapped = mapped;
    stops = v;
  }

  visit-RoundEnds :
      (from s : System) (h : IsRound listener s) (i : ℕ) (next : System → Result System)
      → Comes version m listener accepted ready from (suc i) s
      → ready (suc i) ≡ true
      → suc i < length s.clients.pfds
      → ((t : System)
          → IsRound listener t
          → Comes version m listener accepted ready from (suc (suc i)) t
          → length t.clients.pfds ≤ length s.clients.pfds
          → Ends from (next t))
      → Ends from (visit version m listener accepted (suc i) s >>= next)
  visit-RoundEnds from s h i next came is_ready inside go =
      let (fd, polled) = nth-inside (suc i) s.clients.pfds inside in
      let last : length s.clients.pfds - 1 ≡ suc (length s.clients.pfds - 2) =
        omega (arith, inside) in
      let (c, mapped, v) =
        visit-Visits version m listener accepted h.intact h.f i fd s h.system polled
          (h.buckets.whole i fd polled)
          (λ x e.
            h.buckets.whole (length s.clients.pfds - 2) x
              (ap (λ n. nth n s.clients.pfds) (sym last) ∙ e)) in
      ended fd c polled mapped (visit version m listener accepted (suc i) s) refl v
    where
      ended :
          (fd c : ℕ)
          → nth (suc i) s.clients.pfds ≡ some fd
          → h.f fd ≡ some c
          → (r : Result System) → visit version m listener accepted (suc i) s ≡ r
          → Visits version m listener h.intact h.f (suc i) fd c s r
          → Ends from (r >>= next)
      ended fd c polled mapped (ok t) run v =
          let k = Visited-IsRound s t h i fd c polled v in
          go t k.0 (visits came inside is_ready run) k.1
      ended fd c polled mapped error run v = stopped from s h i fd c came is_ready polled mapped v
      ended fd c polled mapped fault run v = stopped from s h i fd c came is_ready polled mapped v

  -- The places behind the listener's.
  clients-RoundEnds :
      (fuel i : ℕ) (from s : System)
      → IsRound listener s
      → Comes version m listener accepted ready from (suc i) s
      → length s.clients.pfds - suc i < fuel
      → Ends from (poll_round fuel version m listener accepted ready (suc i) s)
  unfolding poll_round
  clients-RoundEnds zero i from s h came enough = absurd (omega (arith, enough))
  clients-RoundEnds (suc fuel) i from s h came enough =
      elim (Bool-cases (ltb (suc i) (length s.clients.pfds))) [
        | inl y ↦
            let inside : suc i < length s.clients.pfds = ground (arith, y) in
            rw y (elim (Bool-cases (ready (suc i))) [
              | inl z ↦ rw z (
                  visit-RoundEnds from s h i _ came z inside (λ t k next shorter.
                    clients-RoundEnds fuel (suc i) from t k next
                      (omega (arith, enough, inside, shorter))))
              | inr z ↦ rw z (
                  clients-RoundEnds fuel (suc i) from s h (skips came inside z)
                    (omega (arith, enough, inside)))
            ])
        | inr n ↦ rw n (h, suc i, came, ground (arith, n))
      ]

-- If no allocation is refused, the listener stands first, the map and the polled descriptors fit
-- together, every connection is well formed, each client has an intact bucket of its own, and a
-- descriptor that `accept` answers is new and has an intact bucket that no client has, then a round
-- of main's loop over the descriptors, with two units of fuel more than there are descriptors and
-- whatever `poll` reports as ready and whatever the clients send, ends in one of three ways: it has
-- come behind the last place, each place before having been skipped as not ready or visited, and
-- all of this holds again with the clients that have come and gone; or it has so come to a state in
-- which all of this holds and to a ready place, and the turn of the client there, in that state,
-- ends in an error, where the system refuses a call of `recv` or of `send` or
-- handle_db_access_request fails, or in a fault of handle_db_access_request;
-- handle_db_access_request then runs on the complete request that this turn has come to. It never
-- ends for lack of fuel.
pub poll_round-RoundEnds :
    (version : ℕ) (m : Allocator) (listener : ℕ) (accepted : Accepted) (ready : ℕ → Bool) (fuel : ℕ)
    (s : System) (h : IsRound listener s)
    → ((n : ℕ) → m.can_grow n ≡ true)
    → Fresh listener h.intact h.f s accepted
    → NewBucket accepted s
    → length s.clients.pfds + 2 ≤ fuel
    → RoundEnds version m listener accepted ready s
        (poll_round fuel version m listener accepted ready 0 s)
unfolding poll_round
poll_round-RoundEnds version m listener accepted ready zero s h granted fresh new enough =
    absurd (omega (arith, enough))
poll_round-RoundEnds version m listener accepted ready (suc fuel) s h granted fresh new enough =
    let some_fds = h.system.consistent.some_fds in
    let a = visit-Admits version m listener accepted h.intact h.f s granted h.system fresh in
    let (b, longer) = OwnBuckets-joined listener h.intact h.f accepted s fresh new h.buckets in
    let after : System = record s { clients = a.after } in
    let k : IsRound listener after = record {
      intact = h.intact;
      f = joined accepted s.clients.conns_made h.f;
      system = a.system;
      buckets = rw (a.capacity, a.pfds) b;
    } in
    rw (lt→ltb 0 (length s.clients.pfds) some_fds) (elim (Bool-cases (ready 0)) [
      | inl y ↦
          rw (y, a.run)
            (clients-RoundEnds version m listener accepted ready fuel 0 s after k
              (visits begins some_fds y a.run) (omega (arith, enough, longer, ap length a.pfds)))
      | inr n ↦ rw n (
          clients-RoundEnds version m listener accepted ready fuel 0 s s h (skips begins some_fds n)
            (omega (arith, enough, some_fds)))
    ])
