-- ===== src/Tests/Visitors.antt =====
-- Two clients that come, and one that leaves.
use employee_database.Prelude.{
  ℕ, ◌≡◌, refl, true, Option, none, some, [], ◌∷◌, ◌++◌, ap, ◌∙◌, arith, ltb, ◌*◌,
}
use employee_database.Memory.{ok}
use employee_database.Connections.{write, connection_map_init}
use employee_database.Connections.Refines.{everywhere, connection_map_init-Holds}
use employee_database.Server.Clients.{
  Clients, nth, poll_listener, add_fd, named, accept_new_client, handle_client_disconnect,
}
use employee_database.Server.Clients.Indexed.{IsConsistent, Placed}
use employee_database.Server.Clients.Accepts.{Accepts, accept_new_client-Accepts}
use employee_database.Server.Clients.Leaves.{Leaves, handle_client_disconnect-Leaves}
use employee_database.Tests.Data.{ample}

abbrev pub no_one : ℕ → Option ℕ
no_one = λ fd. none

-- Only the listener, at the descriptor 4.
abbrev pub opened : Clients
opened = record {
  pfds = 4 ∷ [];
  room = 16;
  fd_size = 16;
  conns_made = 0;
  client_connections = connection_map_init (λ count capacity. ltb capacity (2 * count)) (λ a. none);
}

pub start : poll_listener ample (λ count capacity. ltb capacity (2 * count)) 4 ≡ ok (true, opened)
unfolding poll_listener add_fd
start = refl

pub opened-IsConsistent : IsConsistent everywhere no_one opened
unfolding connection_map_init
opened-IsConsistent = record {
  holds = connection_map_init-Holds (λ count capacity. ltb capacity (2 * count)) (λ a. none);
  light = refl;
  some_fds = omega arith;
  inside = omega arith;
  sized = refl;
  unmade = λ c beyond. refl;
  indexed = λ i fd e. absurd (cc e);
}

accept_new_client-Accepts_example :
    Accepts ample everywhere no_one 5 opened (accept_new_client ample (named 5) opened)
accept_new_client-Accepts_example =
    accept_new_client-Accepts ample everywhere no_one 5 opened (λ n. refl) opened-IsConsistent refl
      refl

first : Accepts ample everywhere no_one 5 opened (accept_new_client ample (named 5) opened)
first =
    accept_new_client-Accepts ample everywhere no_one 5 opened (λ n. refl) opened-IsConsistent refl
      refl

abbrev one_client : ℕ → Option ℕ
one_client = write 5 (some 0) no_one

second :
    Accepts ample everywhere one_client 6 first.after
      (accept_new_client ample (named 6) first.after)
second =
    accept_new_client-Accepts ample everywhere one_client 6 first.after (λ n. refl) first.consistent
      refl refl

abbrev two_clients : ℕ → Option ℕ
two_clients = write 6 (some first.after.conns_made) one_client

polled : nth 1 second.after.pfds ≡ some 5
polled = ap (nth 1) second.pfds ∙ ap (λ l. nth 1 (l ++ (6 ∷ []))) first.pfds

placed : Placed two_clients second.after.client_connections.conns 1 5
placed = second.consistent.indexed 0 5 polled

handle_client_disconnect-Leaves_example :
    Leaves everywhere two_clients 1 5 placed.c second.after
      (handle_client_disconnect placed.c second.after)
handle_client_disconnect-Leaves_example =
    handle_client_disconnect-Leaves everywhere two_clients 0 5 second.after placed.c placed.conn
      second.consistent refl (λ x e. refl) polled placed.mapped placed.live placed.index
