-- ===== src/Tests/Mapping.antt =====
-- The connection map on concrete keys.
use employee_database.Prelude.{ℕ, ◌≡◌, refl, Option, none, some, ltb, ◌*◌, arith}
use employee_database.Memory.{ok, ◌>>=◌}
use employee_database.Models.{ClientConnection, client_connection_init}
use employee_database.Connections.{
  ConnectionMap, write, hash_key, connection_map_init, connection_map_resize, connection_map_get,
  connection_map_contains, connection_map_insert, connection_map_remove,
}
use employee_database.Connections.Refines.{Holds, everywhere, connection_map_init-Holds}
use employee_database.Connections.Spreads.{home}
use employee_database.Connections.Refines.Insert.{Inserted, connection_map_insert-Inserted}
use employee_database.Connections.Refines.Resize.{connection_map_resize-Holds}
use employee_database.Connections.Corrupt.{
  Removed, connection_map_remove-Lost, is_some, connection_map_contains-get,
}
use employee_database.Tests.Data.{ample}

-- Two connections, and a load of more than one half.
abbrev two_clients : ℕ → Option ClientConnection
two_clients =
    write 0 (some (client_connection_init ample 1))
      (write 1 (some (client_connection_init ample 2)) (λ a. none))

abbrev new_map : ConnectionMap
new_map = connection_map_init (λ count capacity. ltb capacity (2 * count)) two_clients

nothing_yet : Holds everywhere (λ k. none) new_map
nothing_yet = connection_map_init-Holds (λ count capacity. ltb capacity (2 * count)) two_clients

-- The client with the descriptor 5.
first_client : Inserted everywhere (λ k. none) 5 0 new_map (connection_map_insert new_map 5 0)
unfolding connection_map_init
first_client =
    connection_map_insert-Inserted everywhere (λ k. none) new_map 5 0 nothing_yet refl refl
      (λ old e. absurd (cc e))

connection_map_insert-Inserted_example :
    Inserted everywhere
      (write 5 (some 0) (λ k. none))
      6
      1
      first_client.after
      (connection_map_insert first_client.after 6 1)
unfolding connection_map_init
connection_map_insert-Inserted_example =
    connection_map_insert-Inserted everywhere (write 5 (some 0) (λ k. none)) first_client.after 6 1
      first_client.holds refl
      (rw (first_client.capacity, first_client.load.0, first_client.load.1) refl)
      (λ old e. absurd (cc e))

connection_map_remove-Lost_example :
    Removed everywhere
      (write 5 (some 0) (λ k. none))
      5
      first_client.after
      (connection_map_remove first_client.after 5)
connection_map_remove-Lost_example =
    connection_map_remove-Lost everywhere (write 5 (some 0) (λ k. none)) first_client.after 5 0
      first_client.holds refl refl

-- The descriptor 16 shares its bucket with the descriptor 36.
shared_bucket : home 16 101 ≡ home 36 101
unfolding hash_key
shared_bucket = refl

connection_map_contains-get_example :
    connection_map_contains new_map 5 ≡ (connection_map_get new_map 5 >>= λ c. ok (is_some c))
connection_map_contains-get_example = connection_map_contains-get new_map 5

-- The table grows under one client.
connection_map_resize-Holds_example :
    (after : ConnectionMap) × (connection_map_resize first_client.after ≡ ok after)
    × Holds everywhere (write 5 (some 0) (λ k. none)) after
    × (after.capacity ≡ 2 * first_client.after.capacity)
    × (after.conns ≡ first_client.after.conns)
    × ((k : ℕ) → connection_map_get after k ≡ connection_map_get first_client.after k)
unfolding connection_map_init
connection_map_resize-Holds_example =
    connection_map_resize-Holds (write 5 (some 0) (λ k. none)) first_client.after first_client.holds
      (omega (arith, first_client.capacity))
