-- ===== src/Connections/Refines/Resize.antt =====
-- Growing the table: every node is moved to its bucket in a table of twice the size.
use native.Mathlib.Nat.{mod-lt}
use employee_database.Prelude.{
  ℕ, zero, suc, ◌+◌, ◌*◌, ◌%◌, ◌^◌, ◌<◌, ◌≤◌, ◌≡◌, refl, sym, ap, ◌∙◌, subst, true, false, Option,
  none, some, [], ◌==◌, ltb, if◌then◌else◌, arith, Bool-cases, inl, inr, ne→==, lt→ltb,
}
use employee_database.Memory.{ok}
use employee_database.Connections.{
  ConnectionMap, hash_key, move_buckets, connection_map_resize, connection_map_get,
}
use employee_database.Connections.Entries.{find}
use employee_database.Connections.Spreads.{
  home, Spreads-none, Spreads-congr, absent_elsewhere, total, total-nil,
}
use employee_database.Connections.Chains.{Cells, Chain}
use employee_database.Connections.Refines.{Holds, Holds-short, everywhere, connection_map_get-Holds}
use employee_database.Connections.Refines.Moves.{or_else, Grows, move_chain-Moves}

-- The entries of the first `i` buckets.
abbrev below : ℕ → (ℕ → Option ℕ) → ℕ → ℕ → Option ℕ
below capacity f i k = if ltb (home k capacity) i then f k else none

module _ (f : ℕ → Option ℕ) (m : ConnectionMap) (h : Holds everywhere f m) (capacity : ℕ)
    (positive : 0 < capacity) where
  below-suc :
      (i k : ℕ)
      → or_else (find k (h.chain i)) (below m.capacity f i k) ≡ below m.capacity f (suc i) k
  below-suc i k = elim (Bool-cases (i == home k m.capacity)) [
    | inl y ↦
        let q : i ≡ home k m.capacity = ground (arith, y) in
        let before : ltb (home k m.capacity) i ≡ false = ground (arith, q) in
        let now : ltb (home k m.capacity) (suc i) ≡ true = ground (arith, q) in
        let got : find k (h.chain i) ≡ f k = ap (λ j. find k (h.chain j)) q ∙ h.spreads.lookups k in
        rw (before, now, got) (or_none (f k))
    | inr d ↦
        let same : ltb (home k m.capacity) i ≡ ltb (home k m.capacity) (suc i) =
          ground (arith, d) in
        rw (absent_elsewhere f m.capacity h.chain h.spreads k i d, same) refl
  ]
    where
      or_none : (o : Option ℕ) → or_else o none ≡ o
      or_none none = refl
      or_none (some c) = refl

  move_buckets-Grows :
      (n i : ℕ) (nodes : Cells) (table : ℕ → Option ℕ)
      → i + n ≡ m.capacity
      → ((j : ℕ) → i ≤ j → Chain nodes (h.chain j) (m.table j))
      → ((a : ℕ) → m.made ≤ a → nodes a ≡ none)
      → Grows capacity (below m.capacity f i) (total i h.chain) nodes table
      → (nodes' : Cells) × (table' : ℕ → Option ℕ) × (move_buckets n i m capacity nodes table
          ≡ ok (nodes', table'))
        × Grows capacity (below m.capacity f m.capacity) (total m.capacity h.chain) nodes' table'
        × ((a : ℕ) → m.made ≤ a → nodes' a ≡ none)
  unfolding move_buckets
  move_buckets-Grows zero i nodes table e old free w =
      let q : i ≡ m.capacity = omega (arith, e) in
      (
        nodes,
        table,
        refl,
        subst (λ j. Grows capacity (below m.capacity f j) (total j h.chain) nodes table) q w,
        free,
      )
  move_buckets-Grows (suc n) i nodes table e old free w =
      let r =
        move_chain-Moves capacity positive (h.chain i) m.made (below m.capacity f i)
          (total i h.chain) nodes table (m.table i) w (Holds-short everywhere f m h i)
          (old i (omega arith)) (h.spreads.unique i)
          (λ k c there.
            (let here = h.spreads.placed i k c there in
              let before : ltb (home k m.capacity) i ≡ false = ground (arith, here) in
              rw before refl)) in
      let (nodes', table', run, grown, free') =
        move_buckets-Grows n (suc i) r.nodes' r.table' (omega (arith, e))
          (λ j above.
            r.untouched.chains (h.chain j) (m.table j)
              (λ k c there.
                (let here = h.spreads.placed i k c there in
                  absent_elsewhere f m.capacity h.chain h.spreads k j
                    (ne→== j (home k m.capacity) (λ q. omega (arith, q, here, above)))))
              (old j (omega (arith, above))))
          (λ a beyond. r.untouched.unmade a (free a beyond))
          (record {
            chain = r.grows.chain;
            chained = r.grows.chained;
            spreads = Spreads-congr (below-suc i) r.grows.spreads;
            total = r.grows.total;
          }) in
      (nodes', table', rw r.run run, grown, free')

connection_map_resize-moved :
    (m : ConnectionMap) (nodes' : Cells) (table' : ℕ → Option ℕ)
    → 2 * m.capacity < 2 ^ 64
    → move_buckets m.capacity 0 m (2 * m.capacity) m.nodes (λ i. none) ≡ ok (nodes', table')
    → connection_map_resize m
      ≡ ok (record m { nodes = nodes'; table = table'; capacity = 2 * m.capacity })
unfolding connection_map_resize
connection_map_resize-moved m nodes' table' fits run =
    let word : 2 * m.capacity % 2 ^ 64 ≡ 2 * m.capacity = omega (arith, fits) in rw (word, run) refl

-- On a map that holds the finite map `f`, with every bucket intact and less than 2 ^ 63 buckets,
-- connection_map_resize returns: the table has twice as many buckets, the map holds `f` in it, with
-- every bucket intact, the connections are as they were, and connection_map_get answers every key
-- as before.
pub connection_map_resize-Holds :
    (f : ℕ → Option ℕ) (m : ConnectionMap)
    → Holds everywhere f m
    → 2 * m.capacity < 2 ^ 64
    → (after : ConnectionMap) × (connection_map_resize m ≡ ok after)
      × Holds everywhere f after
      × (after.capacity ≡ 2 * m.capacity)
      × (after.conns ≡ m.conns)
      × ((k : ℕ) → connection_map_get after k ≡ connection_map_get m k)
connection_map_resize-Holds f m h fits =
    let capacity = 2 * m.capacity in
    let positive : 0 < capacity = omega (arith, h.positive) in
    let (nodes', table', run, w, free) =
      move_buckets-Grows f m h capacity positive m.capacity 0 m.nodes (λ i. none) (omega arith)
        (λ j above. h.chained j refl) h.unmade
        (record {
          chain = λ i. [];
          chained = λ i. refl;
          spreads =
              Spreads-congr
                (λ k. (let n : ltb (home k m.capacity) 0 ≡ false = ground arith in rw n refl))
                (Spreads-none capacity);
          total = total-nil capacity;
        }) in
    let after : ConnectionMap = record m { nodes = nodes'; table = table'; capacity = capacity } in
    let all_below : (k : ℕ) → below m.capacity f m.capacity k ≡ f k = λ k.
      (let inside : ltb (home k m.capacity) m.capacity ≡ true =
          lt→ltb (home k m.capacity) m.capacity (mod-lt (hash_key k) h.positive) in
        rw inside refl) in
    let held : Holds everywhere f after = record {
      chain = w.chain;
      positive = positive;
      chained = λ i whole. w.chained i;
      spreads = Spreads-congr all_below w.spreads;
      total = omega (arith, w.total, h.total);
      unmade = free;
    } in
    (
      after,
      connection_map_resize-moved m nodes' table' fits run,
      held,
      refl,
      refl,
      λ k.
          connection_map_get-Holds everywhere f after k held refl
          ∙ sym (connection_map_get-Holds everywhere f m k h refl),
    )
