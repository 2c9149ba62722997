-- ===== src/Server/Clients.antt =====
-- executable_src/server/server.c: the descriptors that the server polls, and how a client comes and
-- goes.
pub mod Indexed
pub mod Accepts
pub mod Removes
pub mod Leaves
use employee_database.Prelude.{
  ℕ, zero, suc, ◌+◌, ◌-◌, ◌*◌, Bool, true, false, Option, none, some, List, [], ◌∷◌, ◌++◌, length,
  take, ltb, ◌==◌, if◌then◌else◌,
}
use employee_database.Memory.{Result, ok, error, fault, ◌>>=◌, Allocator}
use employee_database.Models.{ClientConnection, client_connection_init}
use employee_database.Connections.{
  ConnectionMap, write, live, free_client_connection, connection_map_init, connection_map_contains,
  connection_map_get, connection_map_insert, connection_map_remove,
}

-- `pfds` has the descriptors that are in use, as many as `fd_count`, in memory for `room` of them.
-- `conns_made` connections have been allocated.
pub record Clients : Type 0 where
  pub pfds : List ℕ
  pub room : ℕ
  pub fd_size : ℕ
  pub conns_made : ℕ
  pub client_connections : ConnectionMap

abbrev pub nth : ℕ → List ℕ → Option ℕ
nth i [] = none
nth zero (x ∷ xs) = some x
nth (suc i) (x ∷ xs) = nth i xs

abbrev pub set_nth : ℕ → ℕ → List ℕ → List ℕ
set_nth i y [] = []
set_nth zero y (x ∷ xs) = y ∷ xs
set_nth (suc i) y (x ∷ xs) = x ∷ set_nth i y xs

abbrev pub with_conns : ConnectionMap → (ℕ → Option ClientConnection) → ConnectionMap
with_conns m conns = record m { conns = conns }

-- A new descriptor behind the others; `false` is STATUS_ERROR.
put_fd : ℕ → Clients → Result (Bool × Clients)
put_fd fd s =
    if ltb (length s.pfds) s.room then ok (true, record s { pfds = s.pfds ++ (fd ∷ []) }) else fault

-- The size has been doubled: where `realloc` fails it stays so.
grow_fds : Allocator → ℕ → Clients → Result (Bool × Clients)
unfolding put_fd
grow_fds m fd s =
    if m.can_grow (s.fd_size * 8) then put_fd fd (record s { room = s.fd_size }) else ok (false, s)

unfoldable pub add_fd : Allocator → ℕ → Clients → Result (Bool × Clients)
unfolding grow_fds put_fd
add_fd m fd s =
    if length s.pfds == s.fd_size
    then grow_fds m fd (record s { fd_size = s.fd_size * 2 })
    else put_fd fd s

-- Before the loop: the listener alone is polled, and the map is empty.
unfoldable pub poll_listener : Allocator → (ℕ → ℕ → Bool) → ℕ → Result (Bool × Clients)
poll_listener m exceeds listener = add_fd m listener (record {
  pfds = [];
  room = 16;
  fd_size = 16;
  conns_made = 0;
  client_connections = connection_map_init exceeds (λ a. none);
})

-- What `accept` and `getnameinfo` answer: no descriptor, one without a name, or one with a name.
pub data Accepted : Type 0 where
  refused : Accepted
  unnamed : ℕ → Accepted
  named : ℕ → Accepted

map_client : Allocator → ℕ → ℕ → Clients → Result (Bool × Clients)
map_client m fd conn_idx s = do
  let conns =
      write s.conns_made (some (client_connection_init m conn_idx)) s.client_connections.conns
  client_connections ← connection_map_insert (with_conns s.client_connections conns) fd s.conns_made
  ok (true, record s { conns_made = s.conns_made + 1; client_connections = client_connections })

-- The server goes on after STATUS_ERROR, which is `false`.
unfoldable pub accept_new_client : Allocator → Accepted → Clients → Result (Bool × Clients)
unfolding map_client
accept_new_client m refused s = ok (false, s)
accept_new_client m (unnamed fd) s = ok (false, s)
accept_new_client m (named fd) s = do
  r ← add_fd m fd s
  if r.0 then map_client m fd (length s.pfds) r.1 else ok (false, r.1)

or_error : Option ℕ → Result ℕ
or_error none = error
or_error (some c) = ok c

-- The last descriptor takes the place of the one that is removed.
replace_fd : ℕ → ℕ → Clients → Result Clients
unfolding or_error
replace_fd conn_idx replacement_idx s = do
  fd ← live (nth replacement_idx s.pfds)
  found ← connection_map_get s.client_connections fd
  c ← or_error found
  conn ← live (s.client_connections.conns c)
  ok (record s {
    pfds = take replacement_idx (set_nth conn_idx fd s.pfds);
    client_connections =
        with_conns s.client_connections
          (write c (some (record conn { conn_idx = conn_idx })) s.client_connections.conns);
  })

unfoldable pub remove_fd : ℕ → Clients → Result Clients
unfolding replace_fd
remove_fd conn_idx s =
    let replacement_idx = length s.pfds - 1 in
    if replacement_idx == conn_idx
    then ok (record s { pfds = take replacement_idx s.pfds })
    else replace_fd conn_idx replacement_idx s

unfoldable pub handle_client_disconnect : ℕ → Clients → Result Clients
handle_client_disconnect c s = do
  conn ← live (s.client_connections.conns c)
  client_fd ← live (nth conn.conn_idx s.pfds)
  conns ← free_client_connection c s.client_connections.conns
  s' ←
      remove_fd conn.conn_idx
        (record s { client_connections = with_conns s.client_connections conns })
  client_connections ← connection_map_remove s'.client_connections client_fd
  ok (record s' { client_connections = client_connections })

or_fault : Option ℕ → Result ℕ
or_fault none = fault
or_fault (some c) = ok c

-- The connection of a descriptor that is ready: without one the server ends.
unfoldable pub client_of : ℕ → Clients → Result ℕ
unfolding or_fault
client_of fd s = do
  there ← connection_map_contains s.client_connections fd
  found ← connection_map_get s.client_connections fd
  if there then or_fault found else error
