-- ===== src/Connections/Refines.antt =====
-- The operations on the map are those of a finite map, in the buckets from which nothing was removed.
pub mod Insert
pub mod Moves
pub mod Resize
use employee_database.Prelude.{
  ℕ, zero, suc, ◌+◌, ◌%◌, ◌<◌, ◌≤◌, ◌≡◌, ◌≢◌, refl, sym, ap, subst, ◌∙◌, Bool, true, false, Option,
  none, some, List, [], ◌∷◌, length, ◌==◌, if◌then◌else◌, arith, Bool-cases, Option-cases, ◌⊎◌, inl,
  inr, eq→==, ne→==, lt→ltb, ltb,
}
use native.Mathlib.Nat.{mod-lt}
use employee_database.Memory.{Result, ok, fault, ◌>>=◌}
use employee_database.Models.{ClientConnection}
use employee_database.Connections.{
  Node, ConnectionMap, write, live, hash_key, bucket_of, get_loop, contains_loop, search_loop,
  connection_map_init, connection_map_get, connection_map_contains, connection_map_insert,
  insert_at, free_client_connection,
}
use employee_database.Connections.Entries.{Entries, find, Unique}
use employee_database.Connections.Spreads.{home, Spreads, Spreads-none, total, total-nil, length-le}
use employee_database.Connections.Chains.{
  Cells, node, Chain, Elsewhere, get_loop-find, search_loop-none, Chain-Elsewhere,
}
use employee_database.Connections.Search.{Found, search_loop-Found}

-- The map holds `f`, spread over chains of which those of the intact buckets are in memory.
pub record Holds (intact : ℕ → Bool) (f : ℕ → Option ℕ) (m : ConnectionMap) : Type 0 where
  pub chain : ℕ → Entries
  pub positive : 0 < m.capacity
  pub chained : (i : ℕ) → intact i ≡ true → Chain m.nodes (chain i) (m.table i)
  pub spreads : Spreads f m.capacity chain
  pub total : total m.capacity chain ≤ m.made
  pub unmade : (a : ℕ) → m.made ≤ a → m.nodes a ≡ none

abbrev pub everywhere : ℕ → Bool
everywhere i = true

pub Holds-short :
    (intact : ℕ → Bool) (f : ℕ → Option ℕ) (m : ConnectionMap) (h : Holds intact f m) (i : ℕ)
    → length (h.chain i) ≤ m.made
Holds-short intact f m h i =
    omega (arith, length-le f m.capacity h.chain h.positive h.spreads i, h.total)

pub bucket_of-home :
    (key : ℕ) (m : ConnectionMap) → 0 < m.capacity → bucket_of key m ≡ ok (home key m.capacity)
unfolding bucket_of
bucket_of-home key m positive =
    rw (lt→ltb (home key m.capacity) m.capacity (mod-lt (hash_key key) positive)) refl

pub connection_map_init-Holds :
    (exceeds : ℕ → ℕ → Bool) (conns : ℕ → Option ClientConnection)
    → Holds everywhere (λ k. none) (connection_map_init exceeds conns)
unfolding connection_map_init
connection_map_init-Holds exceeds conns = record {
  chain = λ i. [];
  positive = omega arith;
  chained = λ i whole. refl;
  spreads = Spreads-none 101;
  total = omega (arith, total-nil 101);
  unmade = λ a h. refl;
}

pub connection_map_get-Holds :
    (intact : ℕ → Bool) (f : ℕ → Option ℕ) (m : ConnectionMap) (key : ℕ)
    → Holds intact f m
    → intact (home key m.capacity) ≡ true
    → connection_map_get m key ≡ ok (f key)
unfolding connection_map_get
connection_map_get-Holds intact f m key h whole =
    let i = home key m.capacity in
    rw (bucket_of-home key m h.positive) (
      get_loop-find key m.nodes (h.chain i) m.made (m.table i) (Holds-short intact f m h i)
        (h.chained i whole)
      ∙ ap ok (h.spreads.lookups key))
