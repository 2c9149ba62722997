-- ===== src/Connections/Corrupt.antt =====
-- What removing a key does to its bucket, and what holds of any map, damaged or not.
use employee_database.Prelude.{
  ℕ, zero, suc, ◌<◌, ◌≡◌, refl, sym, ap, ◌∙◌, Bool, true, false, Option, none, some, ◌==◌,
  if◌then◌else◌, Bool-cases, ◌⊎◌, inl, inr, eq→==, ne→==,
}
use employee_database.Memory.{Result, ok, error, fault, ◌>>=◌}
use employee_database.Connections.{
  Node, ConnectionMap, write, live, contains_loop, get_loop, connection_map_contains,
  connection_map_get, connection_map_insert, connection_map_remove, unlink, bucket_of,
}
use employee_database.Connections.Entries.{find}
use employee_database.Connections.Chains.{Cells, node, Elsewhere, Chain-Elsewhere}
use employee_database.Connections.Search.{Stops, search_loop-Found}
use employee_database.Connections.Refines.{Holds, Holds-short, bucket_of-home}
use employee_database.Connections.Spreads.{home, absent_elsewhere}

abbrev pub is_some : Option ℕ → Bool
is_some none = false
is_some (some c) = true

contains_loop-get_loop :
    (fuel : ℕ) (nodes : Cells) (key : ℕ) (p : Option ℕ)
    → contains_loop fuel nodes key p ≡ (get_loop fuel nodes key p >>= λ c. ok (is_some c))
unfolding contains_loop get_loop
contains_loop-get_loop fuel nodes key none = refl
contains_loop-get_loop zero nodes key (some a) = refl
contains_loop-get_loop (suc fuel) nodes key (some a) =
    visited (nodes a) (λ p. contains_loop-get_loop fuel nodes key p)
  where
    visited :
        (n : Option Node)
        → ((p : Option ℕ)
            → contains_loop fuel nodes key p ≡ (get_loop fuel nodes key p >>= λ c. ok (is_some c)))
        → (live n >>= λ n.
            (let rest = contains_loop fuel nodes key n.next in
              if n.key == key then ok true else rest))
          ≡ ((live n >>= λ n.
                (let rest = get_loop fuel nodes key n.next in
                  if n.key == key then ok (some n.conn) else rest))
              >>= λ c. ok (is_some c))
    visited none rest = refl
    visited (some n) rest = elim (Bool-cases (n.key == key)) [
      | inl y ↦ rw y refl
      | inr d ↦ rw d (rest n.next)
    ]

-- On every map, damaged or not, connection_map_contains does what connection_map_get does: it
-- answers whether that finds a connection, or reads a freed node exactly if that does.
pub connection_map_contains-get :
    (m : ConnectionMap) (key : ℕ)
    → connection_map_contains m key ≡ (connection_map_get m key >>= λ c. ok (is_some c))
unfolding connection_map_contains connection_map_get
connection_map_contains-get m key = in_bucket (bucket_of key m)
  where
    in_bucket :
        (r : Result ℕ)
        → (r >>= λ idx. contains_loop m.made m.nodes key (m.table idx))
          ≡ ((r >>= λ idx. get_loop m.made m.nodes key (m.table idx)) >>= λ c. ok (is_some c))
    in_bucket (ok idx) = contains_loop-get_loop m.made m.nodes key (m.table idx)
    in_bucket error = refl
    in_bucket fault = refl

-- Every later search for the key reads a freed node.
pub record Lost (m : ConnectionMap) (key : ℕ) : Type 0 where
  pub contains : connection_map_contains m key ≡ fault
  pub get : connection_map_get m key ≡ fault
  pub insert : (conn : ℕ) → connection_map_insert m key conn ≡ fault
  pub remove : connection_map_remove m key ≡ fault

Stops-Lost :
    (m : ConnectionMap) (key : ℕ)
    → 0 < m.capacity
    → Stops m.nodes key m.made (m.table (home key m.capacity))
    → Lost m key
unfolding connection_map_contains connection_map_get connection_map_insert connection_map_remove
Stops-Lost m key positive s =
    let i = home key m.capacity in
    let got : connection_map_get m key ≡ fault = rw (bucket_of-home key m positive) s.0 in
    record {
      contains = connection_map_contains-get m key ∙ ap (λ r. r >>= λ c. ok (is_some c)) got;
      get = got;
      insert = λ conn. rw (bucket_of-home key m positive, s.1 none) refl;
      remove = rw (bucket_of-home key m positive, s.1 none) refl;
    }

-- What unlinking a node leaves: the node is freed, and nothing else has changed.
unlink-frees :
    (idx : ℕ) (prev : Option ℕ) (a : ℕ) (n : Node) (m : ConnectionMap)
    → m.nodes a ≡ some n
    → (prev ≡ none → m.table idx ≡ some a)
    → (nodes' : Cells) × (unlink idx prev (some a) m ≡ ok (record m { nodes = nodes' }))
      × (nodes' a ≡ none)
      × Elsewhere a m.nodes nodes'
unfolding unlink
unlink-frees idx (some p) a n m at head = (
  write a none m.nodes,
  rw at refl,
  rw (eq→== a a refl) refl,
  λ b apart. rw (ne→== b a apart) refl,
)
unlink-frees idx none a n m at head = (
  write a none (write a (some (record n { next = n.next })) m.nodes),
  rw (at, head refl, at) refl,
  rw (eq→== a a refl) refl,
  λ b apart. rw (ne→== b a apart) refl,
)

-- The map with the freed node: the other buckets are as they were, and every later search in this
-- one, for the key or one that the map does not hold, reads the freed node.
pub record Removed (intact : ℕ → Bool) (f : ℕ → Option ℕ) (key : ℕ) (m : ConnectionMap)
    (r : Result ConnectionMap) : Type 0 where
  pub after : ConnectionMap
  pub run : r ≡ ok after
  pub holds : Holds (write (home key m.capacity) false intact) f after
  pub conns : after.conns ≡ m.conns
  pub capacity : after.capacity ≡ m.capacity
  pub load : (after.entry_count ≡ m.entry_count) × (after.exceeds ≡ m.exceeds)
  pub lost :
      (other : ℕ)
      → home other m.capacity ≡ home key m.capacity
      → (other ≡ key) ⊎ (f other ≡ none)
      → Lost after other

-- On a map that holds the finite map `f` in the chains of its intact buckets, in which a key with
-- an intact bucket has a connection, connection_map_remove returns, but it frees the key's node and
-- leaves it in its bucket: the connections and the other intact buckets stay as they are, and
-- afterwards contains, get, insert and remove read the freed node, for the key and for every other
-- key of its bucket that the map does not hold.
pub connection_map_remove-Lost :
    (intact : ℕ → Bool) (f : ℕ → Option ℕ) (m : ConnectionMap) (key conn : ℕ)
    → Holds intact f m
    → intact (home key m.capacity) ≡ true
    → f key ≡ some conn
    → Removed intact f key m (connection_map_remove m key)
unfolding connection_map_remove
connection_map_remove-Lost intact f m key conn h whole held =
    let idx = home key m.capacity in
    let r =
      search_loop-Found key conn m.nodes (h.chain idx) m.made none (m.table idx)
        (Holds-short intact f m h idx) (h.chained idx whole) (h.spreads.unique idx)
        (h.spreads.lookups key ∙ held) in
    let (nodes', run, gone, same) =
      unlink-frees idx r.last r.a (node key conn r.next) m r.at (λ l. (r.head l).1) in
    record {
      after = record m { nodes = nodes' };
      run = rw (bucket_of-home key m h.positive, r.run) run;
      holds = record {
        chain = h.chain;
        positive = h.positive;
        chained = λ i whole_i. elim (Bool-cases (i == idx)) [
          | inl y ↦ (let no : false ≡ true = rw y at whole_i in absurd (cc no))
          | inr n ↦
              Chain-Elsewhere key r.a m.nodes nodes' (h.chain i) (m.table i)
                (λ c next k at.
                  (let q : some (node key conn r.next) ≡ some (node k c next) = sym r.at ∙ at in
                    let keys : key ≡ k = cc q in sym keys))
                same (absent_elsewhere f m.capacity h.chain h.spreads key i n)
                (h.chained i (rw n at whole_i))
        ];
        spreads = h.spreads;
        total = h.total;
        unmade = λ a beyond.
            same a (λ q.
              (let both : some (node key conn r.next) ≡ none =
                  sym r.at ∙ ap m.nodes (sym q) ∙ h.unmade a beyond in
                absurd (cc both)))
            ∙ h.unmade a beyond;
      };
      conns = refl;
      capacity = refl;
      load = (refl, refl);
      lost = λ other beside known. Stops-Lost _ other h.positive (
          rw beside (
            r.freed nodes' other m.made same gone (Holds-short intact f m h idx) (elim known [
              | inl q ↦ inl q
              | inr absent ↦
                  inr (
                    ap (λ i. find other (h.chain i)) (sym beside)
                    ∙ h.spreads.lookups other
                    ∙ absent)
            ])));
    }
