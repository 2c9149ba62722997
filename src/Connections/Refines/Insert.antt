-- ===== src/Connections/Refines/Insert.antt =====
-- Inserting a connection, under a new key or in place of the one that is there.
use employee_database.Prelude.{
  Bool, true, false, ℕ, ◌+◌, ◌≡◌, ◌≢◌, refl, sym, ap, ◌∙◌, Option, none, some, ◌∷◌, ◌==◌, arith,
  Bool-cases, Option-cases, inl, inr,
}
use employee_database.Memory.{Result, ok}
use employee_database.Models.{ClientConnection}
use native.Mathlib.Nat.{mod-lt}
use employee_database.Connections.{
  hash_key, ConnectionMap, write, connection_map_insert, connection_map_get, insert_at,
  free_client_connection,
}
use employee_database.Connections.Entries.{
  Entries, find, set_conn, find-set_conn, find-set_conn_other, Unique-set_conn, length-set_conn,
}
use employee_database.Connections.Chains.{node, Chain, search_loop-none, Chain-Elsewhere}
use employee_database.Connections.Search.{search_loop-Found}
use employee_database.Connections.Chains.{write_same, write_other, Chain-fresh}
use employee_database.Connections.Spreads.{
  home, total-write, absent_elsewhere, Spreads-cons, Spreads-write,
}
use employee_database.Connections.Refines.{
  Holds, Holds-short, bucket_of-home, connection_map_get-Holds,
}

-- The connection that the new one replaces is freed.
abbrev pub release : Option ℕ → (ℕ → Option ClientConnection) → ℕ → Option ClientConnection
release none conns = conns
release (some c) conns = write c none conns

pub record Inserted (intact : ℕ → Bool) (f : ℕ → Option ℕ) (key conn : ℕ) (m : ConnectionMap)
    (r : Result ConnectionMap) : Type 0 where
  pub after : ConnectionMap
  pub run : r ≡ ok after
  pub holds : Holds intact (write key (some conn) f) after
  pub capacity : after.capacity ≡ m.capacity
  pub load : (after.entry_count ≡ m.entry_count) × (after.exceeds ≡ m.exceeds)
  pub conns : after.conns ≡ release (f key) m.conns
  pub lookups :
      (k : ℕ)
      → intact (home k m.capacity) ≡ true
      → connection_map_get after k ≡ ok (write key (some conn) f k)

-- A key that is in no bucket gets a new node in front of its bucket.
module _ (intact : ℕ → Bool) (f : ℕ → Option ℕ) (key conn : ℕ) (m : ConnectionMap)
    (h : Holds intact f m) (absent : f key ≡ none) where
  new_chain : ℕ → Entries
  new_chain = write (home key m.capacity) ((key, conn) ∷ h.chain (home key m.capacity)) h.chain

  with_node : ConnectionMap
  with_node = record m {
    nodes = write m.made (some (node key conn (m.table (home key m.capacity)))) m.nodes;
    made = m.made + 1;
    table = write (home key m.capacity) (some m.made) m.table;
  }

  with_node-Holds : Holds intact (write key (some conn) f) with_node
  unfolding with_node new_chain
  with_node-Holds =
      let idx = home key m.capacity in
      let fresh_cell : m.nodes m.made ≡ none = h.unmade m.made (omega arith) in
      record {
        chain = new_chain;
        positive = h.positive;
        chained = λ i whole. elim (Bool-cases (i == idx)) [
          | inl y ↦
              let q : i ≡ idx = ground (arith, y) in
              rw y (
                m.made,
                m.table idx,
                refl,
                write_same m.made _ m.nodes,
                Chain-fresh m.made _ m.nodes (h.chain idx) (m.table idx) fresh_cell
                    (h.chained idx (ap intact (sym q) ∙ whole)),
              )
          | inr n ↦
              rw n (
                Chain-fresh m.made _ m.nodes (h.chain i) (m.table i) fresh_cell (h.chained i whole))
        ];
        spreads = Spreads-cons f m.capacity h.chain h.spreads key conn absent;
        total = omega (
          arith,
          total-write m.capacity idx ((key, conn) ∷ h.chain idx) h.chain
              (mod-lt (hash_key key) h.positive),
          h.total,
        );
        unmade = λ a beyond.
            write_other m.made _ m.nodes a (omega (arith, beyond))
            ∙ h.unmade a (omega (arith, beyond));
      }

-- A key that is there has its connection replaced.
module _ (intact : ℕ → Bool) (f : ℕ → Option ℕ) (key conn : ℕ) (m : ConnectionMap)
    (h : Holds intact f m) (old a : ℕ) (next : Option ℕ) (conns : ℕ → Option ClientConnection)
    (there : find key (h.chain (home key m.capacity)) ≡ some old)
    (at : m.nodes a ≡ some (node key old next))
    (changed : Chain
      (write a (some (node key conn next)) m.nodes)
      (set_conn key conn (h.chain (home key m.capacity)))
      (m.table (home key m.capacity))) where
  with_conn : ConnectionMap
  with_conn = record m { nodes = write a (some (node key conn next)) m.nodes; conns = conns }

  with_conn-Holds : Holds intact (write key (some conn) f) with_conn
  unfolding with_conn
  with_conn-Holds =
      let idx = home key m.capacity in
      let es = set_conn key conn (h.chain idx) in
      let hit = find-set_conn key conn (h.chain idx) old there in
      let miss : (k : ℕ) → key ≢ k → find k es ≡ find k (h.chain idx) =
        λ k q. find-set_conn_other key k conn (h.chain idx) q in
      record {
        chain = write idx es h.chain;
        positive = h.positive;
        chained = λ i whole. elim (Bool-cases (i == idx)) [
          | inl y ↦ (let q : i ≡ idx = ground (arith, y) in rw (y, q) changed)
          | inr n ↦ rw n (
              Chain-Elsewhere key a m.nodes _ (h.chain i) (m.table i)
                (λ c' next' k at'.
                  (let q : some (node key old next) ≡ some (node k c' next') = sym at ∙ at' in
                    let keys : key ≡ k = cc q in sym keys))
                (λ b apart. write_other a _ m.nodes b apart)
                (absent_elsewhere f m.capacity h.chain h.spreads key i n) (h.chained i whole))
        ];
        spreads =
            Spreads-write f m.capacity h.chain h.spreads key conn es hit miss
              (Unique-set_conn key conn (h.chain idx) (h.spreads.unique idx));
        total = omega (
          arith,
          total-write m.capacity idx es h.chain (mod-lt (hash_key key) h.positive),
          length-set_conn key conn (h.chain idx),
          h.total,
        );
        unmade = λ b beyond.
            write_other a _ m.nodes b (λ q.
              (let both : some (node key old next) ≡ none =
                  sym at ∙ ap m.nodes (sym q) ∙ h.unmade b beyond in
                absurd (cc both)))
            ∙ h.unmade b beyond;
      }

-- On a map that holds the finite map `f` in the chains of its intact buckets, and whose load does
-- not pass its test, connection_map_insert of a key with an intact bucket returns, if the
-- connection that the key already has, if any, has not been freed: the map then holds `f` with the
-- key's new connection, with the same buckets intact, connection_map_get answers so for every key
-- with an intact bucket, and the connection that was replaced, and no other, is freed.
pub connection_map_insert-Inserted :
    (intact : ℕ → Bool) (f : ℕ → Option ℕ) (m : ConnectionMap) (key conn : ℕ)
    → Holds intact f m
    → intact (home key m.capacity) ≡ true
    → m.exceeds m.entry_count m.capacity ≡ false
    → ((old : ℕ) → f key ≡ some old → (c : ClientConnection) × (m.conns old ≡ some c))
    → Inserted intact f key conn m (connection_map_insert m key conn)
unfolding connection_map_insert insert_at free_client_connection with_node with_conn
connection_map_insert-Inserted intact f m key conn h whole light unfreed =
    let idx = home key m.capacity in
    elim (Option-cases (f key)) [
      | inl absent ↦
          (let (last, run) =
              search_loop-none key m.nodes (h.chain idx) m.made none (m.table idx)
                (Holds-short intact f m h idx) (h.chained idx whole)
                (h.spreads.lookups key ∙ absent) in
            let holds = with_node-Holds intact f key conn m h absent in
            record {
              after = with_node intact f key conn m h absent;
              run = rw (bucket_of-home key m h.positive, run, light) refl;
              holds = holds;
              capacity = refl;
              load = (refl, refl);
              conns = rw absent refl;
              lookups = λ k whole_k. connection_map_get-Holds intact _ _ k holds whole_k;
            })
      | inr (old, held) ↦
          (let there = h.spreads.lookups key ∙ held in
            let r =
              search_loop-Found key old m.nodes (h.chain idx) m.made none (m.table idx)
                (Holds-short intact f m h idx) (h.chained idx whole) (h.spreads.unique idx) there in
            let (c, unfreed_old) = unfreed old held in
            let changed =
              r.changed (write r.a (some (node key conn r.next)) m.nodes) conn
                (λ b apart. write_other r.a _ m.nodes b apart) (write_same r.a _ m.nodes) in
            let conns = write old none m.conns in
            let holds =
              with_conn-Holds intact f key conn m h old r.a r.next conns there r.at changed in
            record {
              after = with_conn intact f key conn m h old r.a r.next conns there r.at changed;
              run = rw (bucket_of-home key m h.positive, r.run, r.at, unfreed_old) refl;
              holds = holds;
              capacity = refl;
              load = (refl, refl);
              conns = rw held refl;
              lookups = λ k whole_k. connection_map_get-Holds intact _ _ k holds whole_k;
            })
    ]
