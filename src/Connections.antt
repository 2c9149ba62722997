-- ===== src/Connections.antt =====
-- src/models.c: the map from a client's descriptor to its connection, a hash table whose buckets are
-- linked lists of nodes. An address is a number, and a cell that is not allocated is `none`.
pub mod Entries
pub mod Spreads
pub mod Chains
pub mod Search
pub mod Refines
pub mod Corrupt
use employee_database.Prelude.{
  ℕ, zero, suc, ◌+◌, ◌*◌, ◌%◌, ◌^◌, Bool, true, false, Option, none, some, List, [], ◌∷◌, ltb, ◌==◌,
  if◌then◌else◌, bit_xor,
}
use employee_database.Memory.{Result, ok, fault, ◌>>=◌}
use employee_database.Memory.Bytes.{le32}
use employee_database.Models.{ClientConnection}

-- `key` is a file descriptor, and `conn` the address of a connection.
pub record Node : Type 0 where
  pub key : ℕ
  pub conn : ℕ
  pub next : Option ℕ

-- The struct, with the memory that it reaches: `made` nodes have been allocated, at the addresses
-- below `made`. `exceeds` is the comparison of `entry_count / capacity` with `alpha`.
pub record ConnectionMap : Type 0 where
  pub table : ℕ → Option ℕ
  pub capacity : ℕ
  pub entry_count : ℕ
  pub exceeds : ℕ → ℕ → Bool
  pub nodes : ℕ → Option Node
  pub made : ℕ
  pub conns : ℕ → Option ClientConnection

abbrev pub write {ℓ} : {A : Type ℓ} → ℕ → A → (ℕ → A) → ℕ → A
write p c h a = if a == p then c else h a

-- An access to a cell that may have been freed, or through a null pointer.
abbrev pub live {ℓ} : {A : Type ℓ} → Option A → Result A
live none = fault
live (some a) = ok a

abbrev pub fnv_offset : ℕ
fnv_offset = 14695981039346656037

abbrev pub fnv_prime : ℕ
fnv_prime = 1099511628211

hash_bytes : List ℕ → ℕ → ℕ
hash_bytes [] hash = hash
hash_bytes (b ∷ bs) hash = hash_bytes bs (bit_xor hash b * fnv_prime % 2 ^ 64)

unfoldable pub hash_key : ℕ → ℕ
unfolding hash_bytes
hash_key key = hash_bytes (le32 key) fnv_offset

unfoldable pub connection_map_init : (ℕ → ℕ → Bool) → (ℕ → Option ClientConnection) → ConnectionMap
connection_map_init exceeds conns = record {
  table = λ i. none;
  capacity = 101;
  entry_count = 0;
  exceeds = exceeds;
  nodes = λ a. none;
  made = 0;
  conns = conns;
}

-- `hash_key(key) % m->capacity`, where the table has an element.
pub bucket_of : ℕ → ConnectionMap → Result ℕ
bucket_of key m =
    let idx = hash_key key % m.capacity in if ltb idx m.capacity then ok idx else fault

-- The loops along a chain. The first argument bounds the nodes read: a walk over more nodes than were
-- made comes to a node twice and never ends.
pub contains_loop : ℕ → (ℕ → Option Node) → ℕ → Option ℕ → Result Bool
contains_loop fuel nodes key none = ok false
contains_loop zero nodes key (some a) = fault
contains_loop (suc fuel) nodes key (some a) = do
  node ← live (nodes a)
  let rest = contains_loop fuel nodes key node.next
  if node.key == key then ok true else rest

pub get_loop : ℕ → (ℕ → Option Node) → ℕ → Option ℕ → Result (Option ℕ)
get_loop fuel nodes key none = ok none
get_loop zero nodes key (some a) = fault
get_loop (suc fuel) nodes key (some a) = do
  node ← live (nodes a)
  let rest = get_loop fuel nodes key node.next
  if node.key == key then ok (some node.conn) else rest

-- `prev` and `cur` where the loops of insert and remove end.
pub search_loop : ℕ → (ℕ → Option Node) → ℕ → Option ℕ → Option ℕ → Result (Option ℕ × Option ℕ)
search_loop fuel nodes key prev none = ok (prev, none)
search_loop zero nodes key prev (some a) = fault
search_loop (suc fuel) nodes key prev (some a) = do
  node ← live (nodes a)
  let rest = search_loop fuel nodes key (some a) node.next
  if node.key == key then ok (prev, some a) else rest

unfoldable pub connection_map_contains : ConnectionMap → ℕ → Result Bool
unfolding bucket_of contains_loop
connection_map_contains m key = do
  idx ← bucket_of key m
  contains_loop m.made m.nodes key (m.table idx)

unfoldable pub connection_map_get : ConnectionMap → ℕ → Result (Option ℕ)
unfolding bucket_of get_loop
connection_map_get m key = do idx ← bucket_of key m; get_loop m.made m.nodes key (m.table idx)

unfoldable pub free_client_connection :
    ℕ → (ℕ → Option ClientConnection) → Result (ℕ → Option ClientConnection)
free_client_connection c conns = do conn ← live (conns c); ok (write c none conns)

-- A chain is moved into a new table, node by node.
pub move_chain :
    ℕ
    → ℕ
    → (ℕ → Option Node)
    → (ℕ → Option ℕ)
    → Option ℕ
    → Result ((ℕ → Option Node) × (ℕ → Option ℕ))
move_chain fuel new_capacity nodes new_table none = ok (nodes, new_table)
move_chain zero new_capacity nodes new_table (some a) = fault
move_chain (suc fuel) new_capacity nodes new_table (some a) = do
  node ← live (nodes a)
  let new_idx = hash_key node.key % new_capacity
  move_chain fuel new_capacity (write a (some (record node { next = new_table new_idx })) nodes)
      (write new_idx (some a) new_table) node.next

-- The next `n` buckets from `i` on.
move_buckets :
    ℕ
    → ℕ
    → ConnectionMap
    → ℕ
    → (ℕ → Option Node)
    → (ℕ → Option ℕ)
    → Result ((ℕ → Option Node) × (ℕ → Option ℕ))
move_buckets zero i m new_capacity nodes new_table = ok (nodes, new_table)
move_buckets (suc n) i m new_capacity nodes new_table = do
  r ← move_chain m.made new_capacity nodes new_table (m.table i)
  move_buckets n (suc i) m new_capacity r.0 r.1

unfoldable pub connection_map_resize : ConnectionMap → Result ConnectionMap
unfolding move_chain move_buckets
connection_map_resize m = do
  let new_capacity = 2 * m.capacity % 2 ^ 64
  r ← move_buckets m.capacity 0 m new_capacity m.nodes (λ i. none)
  ok (record m { nodes = r.0; table = r.1; capacity = new_capacity })

-- What follows the loop of insert: the key is there, or not.
insert_at : ℕ → ℕ → ℕ → Option ℕ → ConnectionMap → Result ConnectionMap
insert_at idx key conn (some a) m = do
  node ← live (m.nodes a)
  conns ← free_client_connection node.conn m.conns
  ok (record m { nodes = write a (some (record node { conn = conn })) m.nodes; conns = conns })
insert_at idx key conn none m =
    let m' = record m {
      nodes = write m.made (some (record { key = key; conn = conn; next = m.table idx })) m.nodes;
      made = m.made + 1;
      table = write idx (some m.made) m.table;
    } in
    if m.exceeds m.entry_count m.capacity then connection_map_resize m' else ok m'

unfoldable pub connection_map_insert : ConnectionMap → ℕ → ℕ → Result ConnectionMap
unfolding bucket_of search_loop insert_at
connection_map_insert m key conn = do
  idx ← bucket_of key m
  r ← search_loop m.made m.nodes key none (m.table idx)
  insert_at idx key conn r.1 m

-- What follows the loop of remove. Where there is a previous node, only the variable `prev` is set.
unlink : ℕ → Option ℕ → Option ℕ → ConnectionMap → Result ConnectionMap
unlink idx prev none m = ok m
unlink idx (some p) (some a) m = do
  node ← live (m.nodes a)
  ok (record m { nodes = write a none m.nodes })
unlink idx none (some a) m = do
  node ← live (m.nodes a)
  head ← live (m.table idx)
  first ← live (m.nodes head)
  ok (record m {
    nodes = write a none (write head (some (record first { next = node.next })) m.nodes);
  })

unfoldable pub connection_map_remove : ConnectionMap → ℕ → Result ConnectionMap
unfolding bucket_of search_loop unlink
connection_map_remove m key = do
  idx ← bucket_of key m
  r ← search_loop m.made m.nodes key none (m.table idx)
  unlink idx r.0 r.1 m

-- The nodes of a chain and their connections are freed.
free_chain :
    ℕ
    → (ℕ → Option Node)
    → (ℕ → Option ClientConnection)
    → Option ℕ
    → Result ((ℕ → Option Node) × (ℕ → Option ClientConnection))
free_chain fuel nodes conns none = ok (nodes, conns)
free_chain zero nodes conns (some a) = fault
free_chain (suc fuel) nodes conns (some a) = do
  node ← live (nodes a)
  conns' ← free_client_connection node.conn conns
  free_chain fuel (write a none nodes) conns' node.next

free_buckets :
    ℕ
    → ℕ
    → ConnectionMap
    → (ℕ → Option Node)
    → (ℕ → Option ClientConnection)
    → Result ((ℕ → Option Node) × (ℕ → Option ClientConnection))
free_buckets zero i m nodes conns = ok (nodes, conns)
free_buckets (suc n) i m nodes conns = do
  r ← free_chain m.made nodes conns (m.table i)
  free_buckets n (suc i) m r.0 r.1

-- The table is gone afterwards: what is left of the memory.
unfoldable pub free_connection_map :
    ConnectionMap → Result ((ℕ → Option Node) × (ℕ → Option ClientConnection))
unfolding free_chain free_buckets
free_connection_map m = free_buckets m.capacity 0 m m.nodes m.conns
