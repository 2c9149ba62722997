-- ===== src/Connections/Refines/Moves.antt =====
-- Moving a chain, node by node, into a larger table.
use native.Mathlib.Nat.{mod-lt}
use employee_database.Prelude.{
  ℕ, zero, suc, ◌+◌, ◌<◌, ◌≤◌, ◌≡◌, ◌≢◌, refl, sym, ap, ◌∙◌, Option, none, some, [], ◌∷◌, length,
  ◌==◌, arith, Bool-cases, inl, inr, eq→==, ne→==,
}
use employee_database.Memory.{Result, ok}
use employee_database.Connections.{write, hash_key, move_chain}
use employee_database.Connections.Entries.{Entries, find, Unique}
use employee_database.Connections.Spreads.{
  home, Spreads, Spreads-congr, absent_everywhere, Spreads-cons, total, total-write,
}
use employee_database.Connections.Chains.{
  Cells, node, Chain, Chain-Elsewhere, write_same, write_other,
}

-- What the first has, or else the second.
abbrev pub or_else : Option ℕ → Option ℕ → Option ℕ
or_else none d = d
or_else (some c) d = some c

-- The new table so far: the entries `g`, in chains in memory.
pub record Grows (capacity : ℕ) (g : ℕ → Option ℕ) (n : ℕ) (nodes : Cells) (table : ℕ → Option ℕ)
    : Type 0 where
  pub chain : ℕ → Entries
  pub chained : (i : ℕ) → Chain nodes (chain i) (table i)
  pub spreads : Spreads g capacity chain
  pub total : total capacity chain ≡ n

-- A chain without the entries' keys is not touched, and no cell is allocated.
pub record Untouched (es : Entries) (nodes nodes' : Cells) : Type 0 where
  pub chains :
      (fs : Entries) (p : Option ℕ)
      → ((k c : ℕ) → find k es ≡ some c → find k fs ≡ none)
      → Chain nodes fs p
      → Chain nodes' fs p
  pub unmade : (a : ℕ) → nodes a ≡ none → nodes' a ≡ none

pub record Moves (capacity : ℕ) (g : ℕ → Option ℕ) (n : ℕ) (nodes : Cells) (es : Entries)
    (r : Result (Cells × (ℕ → Option ℕ))) : Type 0 where
  pub nodes' : Cells
  pub table' : ℕ → Option ℕ
  pub run : r ≡ ok (nodes', table')
  pub grows : Grows capacity (λ k. or_else (find k es) (g k)) (n + length es) nodes' table'
  pub untouched : Untouched es nodes nodes'

-- The first node of a chain, under a key that the new table does not have, in front of its bucket.
module _ (capacity : ℕ) (positive : 0 < capacity) (g : ℕ → Option ℕ) (n : ℕ) (nodes : Cells)
    (table : ℕ → Option ℕ) (w : Grows capacity g n nodes table) (a key conn : ℕ) (next : Option ℕ)
    (at : nodes a ≡ some (node key conn next)) (absent : g key ≡ none) where
  relinked : Cells
  relinked = write a (some (node key conn (table (home key capacity)))) nodes

  retabled : ℕ → Option ℕ
  retabled = write (home key capacity) (some a) table

  relinked-Chain :
      (es : Entries) (p : Option ℕ) → find key es ≡ none → Chain nodes es p → Chain relinked es p
  unfolding relinked
  relinked-Chain es p missing h =
      Chain-Elsewhere key a nodes relinked es p
        (λ c next' k at'.
          (let both : some (node key conn next) ≡ some (node k c next') = sym at ∙ at' in
            let keys : key ≡ k = cc both in sym keys))
        (λ b apart. write_other a _ nodes b apart) missing h

  relinked-Grows : Grows capacity (write key (some conn) g) (n + 1) relinked retabled
  unfolding relinked retabled
  relinked-Grows =
      let idx = home key capacity in
      let absent_from = absent_everywhere g capacity w.chain w.spreads key absent in
      record {
        chain = write idx ((key, conn) ∷ w.chain idx) w.chain;
        chained = λ i. elim (Bool-cases (i == idx)) [
          | inl y ↦ rw y (
            a,
            table idx,
            refl,
            write_same a _ nodes,
            relinked-Chain (w.chain idx) (table idx) (absent_from idx) (w.chained idx),
          )
          | inr d ↦ rw d (relinked-Chain (w.chain i) (table i) (absent_from i) (w.chained i))
        ];
        spreads = Spreads-cons g capacity w.chain w.spreads key conn absent;
        total = omega (
          arith,
          total-write capacity idx ((key, conn) ∷ w.chain idx) w.chain
              (mod-lt (hash_key key) positive),
          w.total,
        );
      }

-- What a chain adds to the new table, entry by entry.
or_else-cons :
    (k conn key : ℕ) (es : Entries) (g : ℕ → Option ℕ)
    → find key es ≡ none
    → or_else (find k es) (write key (some conn) g k) ≡ or_else (find k ((key, conn) ∷ es)) (g k)
or_else-cons k conn key es g missing = elim (Bool-cases (key == k)) [
  | inl y ↦
      let q : key ≡ k = ground (arith, y) in
      let missing' : find k es ≡ none = rw (sym q) missing in
      rw (y, missing', eq→== k key (sym q)) refl
  | inr d ↦ let q : k ≢ key = λ e. ground (arith, e, d) in rw (d, ne→== k key q) refl
]

-- A later entry is found behind the first one too.
find-cons :
    (key conn k c : ℕ) (es : Entries)
    → find key es ≡ none
    → find k es ≡ some c
    → (k ≢ key) × (find k ((key, conn) ∷ es) ≡ some c)
find-cons key conn k c es missing there =
    let other : k ≢ key = λ q.
      (let both : some c ≡ none = sym there ∙ ap (λ z. find z es) q ∙ missing in
        absurd (cc both)) in
    (other, rw (ne→== key k (λ q. other (sym q))) there)

pub move_chain-Moves :
    (capacity : ℕ)
    → 0 < capacity
    → (es : Entries) (fuel : ℕ) (g : ℕ → Option ℕ) (n : ℕ) (nodes : Cells) (table : ℕ → Option ℕ)
      (p : Option ℕ)
    → Grows capacity g n nodes table
    → length es ≤ fuel
    → Chain nodes es p
    → Unique es
    → ((k c : ℕ) → find k es ≡ some c → g k ≡ none)
    → Moves capacity g n nodes es (move_chain fuel capacity nodes table p)
unfolding move_chain relinked retabled
move_chain-Moves capacity positive [] fuel g n nodes table p w h e u apart = record {
  nodes' = nodes;
  table' = table;
  run = rw e refl;
  grows = record {
    chain = w.chain;
    chained = w.chained;
    spreads = w.spreads;
    total = omega (arith, w.total);
  };
  untouched = record { chains = λ fs q d c. c; unmade = λ b e. e };
}
move_chain-Moves capacity positive ((key, conn) ∷ es) zero g n nodes table p w h x u apart =
    absurd (omega (arith, h))
move_chain-Moves capacity positive ((key, conn) ∷ es) (suc fuel) g n nodes table p w h
      (a, next, e, at, rest) u apart =
    let first : find key ((key, conn) ∷ es) ≡ some conn = rw (eq→== key key refl) refl in
    let absent = apart key conn first in
    let touch = relinked-Chain capacity positive g n nodes table w a key conn next at absent in
    let r =
      move_chain-Moves capacity positive es fuel (write key (some conn) g) (n + 1)
        (relinked capacity positive g n nodes table w a key conn next at absent)
        (retabled capacity positive g n nodes table w a key conn next at absent) next
        (relinked-Grows capacity positive g n nodes table w a key conn next at absent)
        (omega (arith, h)) (touch es next u.0 rest) u.1
        (λ k c there.
          (let (other, behind) = find-cons key conn k c es u.0 there in
            rw (ne→== k key other) (apart k c behind))) in
    record {
      nodes' = r.nodes';
      table' = r.table';
      run = rw (e, at) r.run;
      grows = record {
        chain = r.grows.chain;
        chained = r.grows.chained;
        spreads = Spreads-congr (λ k. or_else-cons k conn key es g u.0) r.grows.spreads;
        total = omega (arith, r.grows.total);
      };
      untouched = record {
        chains = λ fs q missing c.
            r.untouched.chains fs q
              (λ k d there. missing k d (find-cons key conn k d es u.0 there).1)
              (touch fs q (missing key conn first) c);
        unmade = λ b free. r.untouched.unmade b (
            write_other a _ nodes b (λ q.
              (let both : some (node key conn next) ≡ none = sym at ∙ ap nodes (sym q) ∙ free in
                absurd (cc both)))
            ∙ free);
      };
    }
