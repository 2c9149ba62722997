-- ===== src/Server/Clients/Leaves.antt =====
-- A client that is gone.
use employee_database.Prelude.{
  Bool, true, false, Option-cases, ℕ, suc, ◌-◌, ◌≡◌, ◌≢◌, refl, sym, ap, ◌∙◌, Option, none, some,
  length, arith, ◌==◌, Bool-cases, inl, inr,
}
use employee_database.Memory.{Result, ok}
use employee_database.Models.{ClientConnection}
use employee_database.Connections.{write, free_client_connection}
use employee_database.Connections.Corrupt.{Lost, connection_map_remove-Lost}
use employee_database.Connections.Spreads.{home}
use employee_database.Server.Clients.{Clients, nth, with_conns, remove_fd, handle_client_disconnect}
use employee_database.Server.Clients.Indexed.{nth-beyond, IsConsistent, Holds-with_conns}
use employee_database.Server.Clients.Removes.{
  Removes, Reindexed, freed_conns, freed, remove_last, remove_inner,
}

-- After the client with the descriptor `fd` at the place `i` has left: one descriptor less, in its
-- place the last one; the map, damaged in the bucket of `fd`, and the descriptors fit together.
pub record Leaves (intact : ℕ → Bool) (f : ℕ → Option ℕ) (i fd c : ℕ) (s : Clients)
    (r : Result Clients) : Type 0 where
  pub after : Clients
  pub run : r ≡ ok after
  pub shorter : length after.pfds ≡ length s.pfds - 1
  pub moved :
      (j x : ℕ)
      → nth j after.pfds ≡ some x
      → (j ≡ i → nth (length s.pfds - 1) s.pfds ≡ some x) × (j ≢ i → nth j s.pfds ≡ some x)
  pub capacity : after.client_connections.capacity ≡ s.client_connections.capacity
  pub kept : Reindexed s.client_connections.conns after.client_connections.conns
  pub consistent : IsConsistent (write (home fd s.client_connections.capacity) false intact) f after
  pub gone : after.client_connections.conns c ≡ none
  pub lost : Lost after.client_connections fd

Reindexed-none :
    (old new : ℕ → Option ClientConnection) (d : ℕ)
    → Reindexed old new
    → old d ≡ none
    → new d ≡ none
Reindexed-none old new d r e = elim (Option-cases (new d)) [
  | inl n ↦ n
  | inr (conn, there) ↦
      let (was, held, q) = r d conn there in
      let both : some was ≡ none = sym held ∙ e in absurd (cc both)
]

-- If the map and the polled descriptors fit together (the map holds the finite map `f` in its
-- intact buckets, and each descriptor but the listener's has in `f` a connection that knows its
-- place), the client at a place has left, and its bucket and that of the last descriptor are
-- intact, handle_client_disconnect returns: one descriptor less is polled, with the last one in the
-- place of the client's, the client's connection is freed and all others are as they were but for
-- their places, and with the client's bucket no longer intact the map and the descriptors fit
-- together again; every later search for the client's descriptor reads a freed node.
pub handle_client_disconnect-Leaves :
    (intact : ℕ → Bool) (f : ℕ → Option ℕ) (i fd : ℕ) (s : Clients) (c : ℕ)
    (conn : ClientConnection)
    → IsConsistent intact f s
    → intact (home fd s.client_connections.capacity) ≡ true
    → ((x : ℕ)
        → nth (length s.pfds - 1) s.pfds ≡ some x
        → intact (home x s.client_connections.capacity) ≡ true)
    → nth (suc i) s.pfds ≡ some fd
    → f fd ≡ some c
    → s.client_connections.conns c ≡ some conn
    → conn.conn_idx ≡ suc i
    → Leaves intact f (suc i) fd c s (handle_client_disconnect c s)
unfolding handle_client_disconnect free_client_connection freed freed_conns
handle_client_disconnect-Leaves intact f i fd s c conn h whole whole_last e mapped at idx =
    let polled = nth-beyond (suc i) s.pfds fd e in
    let r : Removes f (suc i) c s (remove_fd (suc i) (freed f s i c conn h.indexed at idx polled)) =
      elim (Bool-cases (length s.pfds - 1 == suc i)) [
        | inl y ↦ remove_last f s i c conn h.indexed at idx polled (ground (arith, y))
        | inr n ↦
            remove_inner f s i c conn h.indexed at idx polled intact h.holds whole_last
              (λ q. ground (arith, q, n))
      ] in
    let d =
      connection_map_remove-Lost intact f (with_conns s.client_connections r.conns) fd c
        (Holds-with_conns s.client_connections r.conns h.holds) whole mapped in
    let kept : Reindexed s.client_connections.conns d.after.conns = rw d.conns r.kept in
    record {
      after = record r.after { client_connections = d.after };
      run = rw (at, idx, e, r.run, r.map, d.run) refl;
      shorter = r.shorter;
      moved = r.moved;
      capacity = d.capacity;
      kept = kept;
      consistent = record {
        holds = d.holds;
        light = rw (d.capacity, d.load.0, d.load.1) h.light;
        some_fds = omega (arith, r.shorter, polled);
        inside = omega (arith, r.shorter, r.same_room.0, h.inside);
        sized = r.same_room.1 ∙ h.sized ∙ sym r.same_room.0;
        unmade = λ k beyond.
            Reindexed-none s.client_connections.conns d.after.conns k kept
              (h.unmade k (omega (arith, beyond, r.same_room.2)));
        indexed = rw d.conns r.indexed;
      };
      gone = ap (λ g. g c) d.conns ∙ r.gone;
      lost = d.lost fd refl (inl refl);
    }
