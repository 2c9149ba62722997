-- ===== src/Server/Clients/Removes.antt =====
-- Taking the descriptor of a client that is gone out of the polled ones.
use employee_database.Prelude.{
  Bool, true, ℕ, suc, ◌-◌, ◌<◌, ◌≡◌, ◌≢◌, refl, sym, ap, ◌∙◌, Option, none, some, length, take,
  arith, ◌==◌, Bool-cases, eq→==, ne→==, length-take, inl, inr,
}
use employee_database.Memory.{Result, ok}
use employee_database.Models.{ClientConnection}
use employee_database.Connections.{write, connection_map_get}
use employee_database.Connections.Refines.{Holds, connection_map_get-Holds}
use employee_database.Connections.Spreads.{home}
use employee_database.Server.Clients.{
  Clients, nth, set_nth, with_conns, remove_fd, replace_fd, or_error,
}
use employee_database.Server.Clients.Indexed.{
  length-set_nth, apart_by_index, Placed, Indexed, Holds-with_conns, nth-inside, nth-take,
  nth-set_nth,
}

-- What is left of the connections is as before but for the places.
abbrev pub Reindexed : (ℕ → Option ClientConnection) → (ℕ → Option ClientConnection) → Type 0
Reindexed old new =
    (d : ℕ) (conn : ClientConnection)
    → new d ≡ some conn
    → (was : ClientConnection) × (old d ≡ some was)
      × (conn ≡ record was { conn_idx = conn.conn_idx })

-- The descriptors are as before but for the last one, which is in the place `i`, and each but the
-- listener's is placed; the connection `c` is gone.
pub record Removes (f : ℕ → Option ℕ) (i c : ℕ) (s : Clients) (r : Result Clients) : Type 0 where
  pub after : Clients
  pub run : r ≡ ok after
  pub shorter : length after.pfds ≡ length s.pfds - 1
  pub moved :
      (j x : ℕ)
      → nth j after.pfds ≡ some x
      → (j ≡ i → nth (length s.pfds - 1) s.pfds ≡ some x) × (j ≢ i → nth j s.pfds ≡ some x)
  pub same_room :
      (after.room ≡ s.room) × (after.fd_size ≡ s.fd_size) × (after.conns_made ≡ s.conns_made)
  pub conns : ℕ → Option ClientConnection
  pub kept : Reindexed s.client_connections.conns conns
  pub map : after.client_connections ≡ with_conns s.client_connections conns
  pub indexed : Indexed f conns after.pfds
  pub gone : conns c ≡ none

module _ (f : ℕ → Option ℕ) (s : Clients) (i c : ℕ) (conn : ClientConnection)
    (h : Indexed f s.client_connections.conns s.pfds)
    (at : s.client_connections.conns c ≡ some conn) (idx : conn.conn_idx ≡ suc i)
    (polled : suc i < length s.pfds) where
  unfoldable pub freed_conns : ℕ → Option ClientConnection
  freed_conns = write c none s.client_connections.conns

  unfoldable pub freed : Clients
  freed = record s { client_connections = with_conns s.client_connections freed_conns }

  Reindexed-freed : Reindexed s.client_connections.conns freed_conns
  unfolding freed_conns
  Reindexed-freed d conn' e = elim (Bool-cases (d == c)) [
    | inl y ↦ (let no : none ≡ some conn' = rw y at e in absurd (cc no))
    | inr n ↦ (conn', rw n at e, refl)
  ]

  Reindexed-moved :
      (d : ℕ) (other : ClientConnection)
      → freed_conns d ≡ some other
      → Reindexed s.client_connections.conns
          (write d (some (record other { conn_idx = suc i })) freed_conns)
  Reindexed-moved d other live k conn' e = elim (Bool-cases (k == d)) [
    | inl y ↦
        let same : k ≡ d = ground (arith, y) in
        let (was, old, q) = Reindexed-freed d other live in
        let new : some (record other { conn_idx = suc i }) ≡ some conn' = rw y at e in
        let q' : record other { conn_idx = suc i } ≡ conn' = cc new in
        let at_i : ClientConnection → ClientConnection = λ o. record o { conn_idx = suc i } in
        let at_own : ClientConnection → ClientConnection =
          λ o. record was { conn_idx = o.conn_idx } in
        (was, rw same old, sym q' ∙ ap at_i q ∙ ap at_own q')
    | inr n ↦ Reindexed-freed k conn' (rw n at e)
  ]

  -- The connection of another place is still there.
  still_placed :
      (j x : ℕ) → nth (suc j) s.pfds ≡ some x → suc j ≢ suc i → Placed f freed_conns (suc j) x
  unfolding freed_conns
  still_placed j x e n =
      let p = h j x e in
      let other : p.c ≢ c =
        apart_by_index s.client_connections.conns p.c c p.conn conn p.live at
          (λ q. n (sym p.index ∙ q ∙ idx)) in
      record {
        c = p.c;
        conn = p.conn;
        mapped = p.mapped;
        live = rw (ne→== p.c c other) p.live;
        index = p.index;
      }

  pub remove_last : length s.pfds - 1 ≡ suc i → Removes f (suc i) c s (remove_fd (suc i) freed)
  unfolding remove_fd freed freed_conns
  remove_last last = record {
    after = record freed { pfds = take (length s.pfds - 1) s.pfds };
    run = rw (eq→== (length s.pfds - 1) (suc i) last) refl;
    shorter = omega (arith, length-take (length s.pfds - 1) s.pfds);
    moved = λ j x e.
        (let r = nth-take j (length s.pfds - 1) s.pfds x e in
          (λ q. absurd (omega (arith, r.0, q, last)), λ n. r.1));
    same_room = (refl, refl, refl);
    conns = freed_conns;
    kept = Reindexed-freed;
    map = refl;
    indexed = λ j x e.
        (let r = nth-take (suc j) (length s.pfds - 1) s.pfds x e in
          still_placed j x r.1 (λ q. omega (arith, r.0, q, last)));
    gone = rw (eq→== c c refl) refl;
  }

  replaced : ℕ → ℕ → ClientConnection → Clients
  replaced fd d other = record freed {
    pfds = take (length s.pfds - 1) (set_nth (suc i) fd s.pfds);
    client_connections =
        with_conns s.client_connections
          (write d (some (record other { conn_idx = suc i })) freed_conns);
  }

  remove_fd-replaced :
      (fd d : ℕ) (other : ClientConnection)
      → length s.pfds - 1 ≢ suc i
      → nth (length s.pfds - 1) s.pfds ≡ some fd
      → connection_map_get (with_conns s.client_connections freed_conns) fd ≡ ok (some d)
      → freed_conns d ≡ some other
      → remove_fd (suc i) freed ≡ ok (replaced fd d other)
  unfolding remove_fd replace_fd or_error freed replaced
  remove_fd-replaced fd d other inner e got there =
      rw (ne→== (length s.pfds - 1) (suc i) inner, e, got, there) refl

  pub remove_inner :
      (intact : ℕ → Bool)
      → Holds intact f s.client_connections
      → ((x : ℕ)
          → nth (length s.pfds - 1) s.pfds ≡ some x
          → intact (home x s.client_connections.capacity) ≡ true)
      → length s.pfds - 1 ≢ suc i
      → Removes f (suc i) c s (remove_fd (suc i) freed)
  unfolding replaced freed freed_conns
  remove_inner intact holds whole inner =
      let last = length s.pfds - 1 in
      let (fd, e) = nth-inside last s.pfds (omega (arith, polled)) in
      let below : suc (length s.pfds - 2) ≡ last = omega (arith, polled, inner) in
      let p =
        still_placed (length s.pfds - 2) fd (ap (λ k. nth k s.pfds) below ∙ e)
          (λ q. inner (sym below ∙ q)) in
      let got : connection_map_get (with_conns s.client_connections freed_conns) fd
          ≡ ok (some p.c) =
        connection_map_get-Holds intact f (with_conns s.client_connections freed_conns) fd
          (Holds-with_conns s.client_connections freed_conns holds) (whole fd e)
        ∙ ap ok p.mapped in
      let here : freed_conns c ≡ none = rw (eq→== c c refl) refl in
      let other : c ≢ p.c = λ q.
        (let both : some p.conn ≡ none = sym p.live ∙ ap freed_conns (sym q) ∙ here in
          absurd (cc both)) in
      let moved_conn : ClientConnection = record p.conn { conn_idx = suc i } in
      let conns = write p.c (some moved_conn) freed_conns in
      record {
        after = replaced fd p.c p.conn;
        run = remove_fd-replaced fd p.c p.conn inner e got p.live;
        shorter =
            omega (
              arith,
              length-take last (set_nth (suc i) fd s.pfds),
              length-set_nth (suc i) fd s.pfds,
            );
        moved = λ j x e'.
            (let r = nth-take j last (set_nth (suc i) fd s.pfds) x e' in
              let q = nth-set_nth (suc i) j fd s.pfds x r.1 in
              (λ k. e ∙ ap some (sym (q.0 k)), q.1));
        same_room = (refl, refl, refl);
        conns = conns;
        kept = Reindexed-moved p.c p.conn p.live;
        map = refl;
        indexed = λ j x e'.
            (let r = nth-take (suc j) last (set_nth (suc i) fd s.pfds) x e' in
              let q = nth-set_nth (suc i) (suc j) fd s.pfds x r.1 in
              elim (Bool-cases (suc j == suc i)) [
                | inl y ↦
                    (let k : suc j ≡ suc i = ground (arith, y) in
                      record {
                        c = p.c;
                        conn = moved_conn;
                        mapped = ap f (q.0 k) ∙ p.mapped;
                        live = rw (eq→== p.c p.c refl) refl;
                        index = sym k;
                      })
                | inr n ↦
                    (let k : suc j ≢ suc i = λ v. ground (arith, v, n) in
                      let p₂ = still_placed j x (q.1 k) k in
                      let apart : p₂.c ≢ p.c =
                        apart_by_index freed_conns p₂.c p.c p₂.conn p.conn p₂.live p.live
                          (λ v. omega (arith, r.0, sym p₂.index ∙ v ∙ p.index ∙ below)) in
                      record {
                        c = p₂.c;
                        conn = p₂.conn;
                        mapped = p₂.mapped;
                        live = rw (ne→== p₂.c p.c apart) p₂.live;
                        index = p₂.index;
                      })
              ]);
        gone = rw (ne→== c p.c other) here;
      }
