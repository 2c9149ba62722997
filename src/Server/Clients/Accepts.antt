-- ===== src/Server/Clients/Accepts.antt =====
-- A new client.
use employee_database.Prelude.{
  ℕ, suc, ◌+◌, ◌*◌, ◌<◌, ◌≤◌, ◌≡◌, ◌≢◌, refl, sym, ap, ◌∙◌, Bool, true, Option, none, some, List,
  [], ◌∷◌, ◌++◌, length, arith, ◌==◌, Bool-cases, lt→ltb, eq→==, ne→==, length-append, inl, inr,
}
use employee_database.Memory.{Result, ok, Allocator}
use employee_database.Models.{ClientConnection, client_connection_init}
use employee_database.Connections.{write}
use employee_database.Connections.Spreads.{home}
use employee_database.Connections.Refines.Insert.{connection_map_insert-Inserted}
use employee_database.Server.Clients.{
  Clients, with_conns, put_fd, grow_fds, add_fd, named, accept_new_client, map_client,
}
use employee_database.Server.Clients.Indexed.{
  Indexed, IsConsistent, Holds-with_conns, nth-append_last,
}

-- The descriptor has been added, in more memory if there was no room.
record Adds (fd : ℕ) (s : Clients) (r : Result (Bool × Clients)) : Type 0 where
  room : ℕ
  run : r ≡ ok (true, record s { pfds = s.pfds ++ (fd ∷ []); room = room; fd_size = room })
  inside : length (s.pfds ++ (fd ∷ [])) ≤ room

add_fd-Adds :
    (m : Allocator) (fd : ℕ) (s : Clients)
    → ((n : ℕ) → m.can_grow n ≡ true)
    → 0 < length s.pfds
    → length s.pfds ≤ s.room
    → s.fd_size ≡ s.room
    → Adds fd s (add_fd m fd s)
unfolding add_fd grow_fds put_fd
add_fd-Adds m fd s granted some_fds inside sized = elim (Bool-cases (length s.pfds == s.fd_size)) [
  | inl y ↦
      let full : length s.pfds ≡ s.fd_size = ground (arith, y) in
      record {
        room = s.fd_size * 2;
        run =
            rw
              (
                y,
                granted (s.fd_size * 2 * 8),
                lt→ltb (length s.pfds) (s.fd_size * 2) (omega (arith, full, some_fds)),
              )
              refl;
        inside = omega (arith, length-append s.pfds (fd ∷ []), full, some_fds);
      }
  | inr n ↦
      let part : length s.pfds ≢ s.fd_size = λ q. ground (arith, q, n) in
      record {
        room = s.room;
        run =
            rw (n, lt→ltb (length s.pfds) s.room (omega (arith, part, inside, sized)))
              (ap (λ k. ok (true, record s { pfds = s.pfds ++ (fd ∷ []); fd_size = k })) sized);
        inside = omega (arith, length-append s.pfds (fd ∷ []), part, inside, sized);
      }
]

pub record Accepts (m : Allocator) (intact : ℕ → Bool) (f : ℕ → Option ℕ) (fd : ℕ) (s : Clients)
    (r : Result (Bool × Clients)) : Type 0 where
  pub after : Clients
  pub run : r ≡ ok (true, after)
  pub pfds : after.pfds ≡ s.pfds ++ (fd ∷ [])
  pub capacity : after.client_connections.capacity ≡ s.client_connections.capacity
  pub conns :
      after.client_connections.conns
      ≡ write s.conns_made
          (some (client_connection_init m (length s.pfds)))
          s.client_connections.conns
  pub consistent : IsConsistent intact (write fd (some s.conns_made) f) after

-- The places of the old clients, and of the new one.
Indexed-append :
    (m : Allocator) (f : ℕ → Option ℕ) (fd made : ℕ) (pfds : List ℕ)
    (conns : ℕ → Option ClientConnection)
    → f fd ≡ none
    → conns made ≡ none
    → Indexed f conns pfds
    → Indexed
        (write fd (some made) f)
        (write made (some (client_connection_init m (length pfds))) conns)
        (pfds ++ (fd ∷ []))
Indexed-append m f fd made pfds conns absent unmade indexed i x e =
    let r = nth-append_last (suc i) pfds fd x e in
    elim (Bool-cases (suc i == length pfds)) [
      | inl y ↦
          let last : suc i ≡ length pfds = ground (arith, y) in
          let same : x ≡ fd = r.0 last in
          record {
            c = made;
            conn = client_connection_init m (length pfds);
            mapped = rw (eq→== x fd same) refl;
            live = rw (eq→== made made refl) refl;
            index = sym last;
          }
      | inr n ↦
          let before : suc i ≢ length pfds = λ q. ground (arith, q, n) in
          let p = indexed i x (r.1 before) in
          let other : x ≢ fd = λ q.
            (let both : some p.c ≡ none = sym p.mapped ∙ ap f q ∙ absent in absurd (cc both)) in
          let older : p.c ≢ made = λ q.
            (let both : some p.conn ≡ none = sym p.live ∙ ap conns q ∙ unmade in
              absurd (cc both)) in
          record {
            c = p.c;
            conn = p.conn;
            mapped = rw (ne→== x fd other) p.mapped;
            live = rw (ne→== p.c made older) p.live;
            index = p.index;
          }
    ]

-- If no allocation is refused, the map and the polled descriptors fit together (the map holds the
-- finite map `f` in its intact buckets, each descriptor but the listener's has in `f` a connection
-- that knows its place, and there is memory for the descriptors), and the descriptor of a new
-- client is not in `f` and has an intact bucket, accept_new_client returns without an error: the
-- descriptor is polled behind the others, in more memory if there was no room, and the map, which
-- now holds `f` with a new connection for it, and the descriptors fit together again.
pub accept_new_client-Accepts :
    (m : Allocator) (intact : ℕ → Bool) (f : ℕ → Option ℕ) (fd : ℕ) (s : Clients)
    → ((n : ℕ) → m.can_grow n ≡ true)
    → IsConsistent intact f s
    → intact (home fd s.client_connections.capacity) ≡ true
    → f fd ≡ none
    → Accepts m intact f fd s (accept_new_client m (named fd) s)
unfolding accept_new_client map_client
accept_new_client-Accepts m intact f fd s granted h whole absent =
    let made = s.conns_made in
    let conns =
      write made (some (client_connection_init m (length s.pfds))) s.client_connections.conns in
    let fits : ((old : ℕ) → f fd ≡ some old → (c : ClientConnection) × (conns old ≡ some c)) =
      λ old e. (let both : some old ≡ none = sym e ∙ absent in absurd (cc both)) in
    let a = add_fd-Adds m fd s granted h.some_fds h.inside h.sized in
    let i =
      connection_map_insert-Inserted intact f (with_conns s.client_connections conns) fd made
        (Holds-with_conns s.client_connections conns h.holds) whole h.light fits in
    let kept : i.after.conns ≡ conns = rw absent at i.conns in
    record {
      after = record {
        pfds = s.pfds ++ (fd ∷ []);
        room = a.room;
        fd_size = a.room;
        conns_made = made + 1;
        client_connections = i.after;
      };
      run = rw (a.run, i.run) refl;
      pfds = refl;
      capacity = i.capacity;
      conns = kept;
      consistent = record {
        holds = i.holds;
        light = rw (i.capacity, i.load.0, i.load.1) h.light;
        some_fds = omega (arith, length-append s.pfds (fd ∷ []));
        inside = a.inside;
        sized = refl;
        unmade = λ c beyond.
            ap (λ g. g c) kept
            ∙ (rw (ne→== c made (omega (arith, beyond))) (h.unmade c (omega (arith, beyond))));
        indexed = rw kept (
            Indexed-append m f fd made s.pfds s.client_connections.conns absent
              (h.unmade made (omega arith)) h.indexed);
      };
    }
