-- ===== src/Connections/Search.antt =====
-- Where the loops of the map find a key, and what a change of its node does to them.
use employee_database.Prelude.{
  ℕ, zero, suc, ◌≤◌, ◌≡◌, ◌≢◌, refl, sym, ap, ◌∙◌, false, Option, none, some, [], ◌∷◌, length, ◌==◌,
  arith, Bool-cases, ◌⊎◌, inl, inr, eq→==,
}
use employee_database.Memory.{Result, ok, fault}
use employee_database.Connections.Entries.{Entries, find, set_conn, Unique}
use employee_database.Connections.{get_loop, search_loop}
use employee_database.Connections.Chains.{Cells, node, Chain, Elsewhere, Chain-Elsewhere}

-- The loops read a freed cell.
abbrev pub Stops : Cells → ℕ → ℕ → Option ℕ → Type 0
Stops nodes key fuel p =
    (get_loop fuel nodes key p ≡ fault)
    × ((prev : Option ℕ) → search_loop fuel nodes key prev p ≡ fault)

-- Where the loop has found the key: a change of the node there changes this entry only, and a loop
-- that gets there once the node is freed reads a freed cell.
pub record Found (key c : ℕ) (nodes : Cells) (es : Entries) (prev p : Option ℕ)
    (r : Result (Option ℕ × Option ℕ)) : Type 0 where
  pub last : Option ℕ
  pub a : ℕ
  pub next : Option ℕ
  pub run : r ≡ ok (last, some a)
  pub at : nodes a ≡ some (node key c next)
  pub head : last ≡ none → (prev ≡ none) × (p ≡ some a)
  pub changed :
      (nodes' : Cells) (d : ℕ)
      → Elsewhere a nodes nodes'
      → nodes' a ≡ some (node key d next)
      → Chain nodes' (set_conn key d es) p
  pub freed :
      (nodes' : Cells) (other fuel : ℕ)
      → Elsewhere a nodes nodes'
      → nodes' a ≡ none
      → length es ≤ fuel
      → (other ≡ key) ⊎ (find other es ≡ none)
      → Stops nodes' other fuel p

-- Another key is found behind a node that does not have it, or not at all.
find-behind :
    (key other k c : ℕ) (es : Entries)
    → (k == key) ≡ false
    → (other ≡ key) ⊎ (find other ((k, c) ∷ es) ≡ none)
    → ((k == other) ≡ false) × ((other ≡ key) ⊎ (find other es ≡ none))
find-behind key other k c es d (inl same) = (rw same d, inl same)
find-behind key other k c es d (inr absent) = elim (Bool-cases (k == other)) [
  | inl y ↦ (let there : some c ≡ none = rw y at absent in absurd (cc there))
  | inr n ↦ (n, inr (rw n at absent))
]

module _ (nodes : Cells) (other a : ℕ) (p : Option ℕ) (e : p ≡ some a) where
  Stops-here : (n fuel : ℕ) → suc n ≤ fuel → nodes a ≡ none → Stops nodes other fuel p
  unfolding get_loop search_loop
  Stops-here n zero h gone = absurd (omega (arith, h))
  Stops-here n (suc fuel) h gone = (rw (e, gone) refl, λ prev. rw (e, gone) refl)

  Stops-behind :
      (n fuel k c : ℕ) (next : Option ℕ)
      → suc n ≤ fuel
      → nodes a ≡ some (node k c next)
      → (k == other) ≡ false
      → ((fuel' : ℕ) → n ≤ fuel' → Stops nodes other fuel' next)
      → Stops nodes other fuel p
  unfolding get_loop search_loop
  Stops-behind n zero k c next h at d rest = absurd (omega (arith, h))
  Stops-behind n (suc fuel) k c next h at d rest =
      let s = rest fuel (omega (arith, h)) in
      (rw (e, at, d) s.0, λ prev. rw (e, at, d) (s.1 (some a)))

-- Nodes with different keys stand at different addresses.
apart_of_keys :
    (nodes : Cells) (a b k c key d : ℕ) (next next' : Option ℕ)
    → nodes a ≡ some (node k c next)
    → nodes b ≡ some (node key d next')
    → (k == key) ≡ false
    → a ≢ b
apart_of_keys nodes a b k c key d next next' at there n q =
    let same : some (node k c next) ≡ some (node key d next') = sym at ∙ ap nodes q ∙ there in
    let keys : k ≡ key = cc same in ground (arith, keys, n)

-- The first node has the key.
Found-here :
    (key c : ℕ) (nodes : Cells) (es : Entries) (prev p : Option ℕ) (a : ℕ) (next : Option ℕ)
    (r : Result (Option ℕ × Option ℕ))
    → p ≡ some a
    → nodes a ≡ some (node key c next)
    → Chain nodes es next
    → find key es ≡ none
    → r ≡ ok (prev, some a)
    → Found key c nodes ((key, c) ∷ es) prev p r
Found-here key c nodes es prev p a next r e at rest absent run = record {
  last = prev;
  a = a;
  next = next;
  run = run;
  at = at;
  head = λ l. (l, e);
  changed = λ nodes' d same new. rw (eq→== key key refl) (
    a,
    next,
    e,
    new,
    Chain-Elsewhere key a nodes nodes' es next
        (λ c' next' k at'.
          (let q : some (node key c next) ≡ some (node k c' next') = sym at ∙ at' in cc q))
        same absent rest,
  );
  freed = λ nodes' other fuel same gone room other_key.
      Stops-here nodes' other a p e (length es) fuel room gone;
}

pub search_loop-Found :
    (key c : ℕ) (nodes : Cells) (es : Entries) (fuel : ℕ) (prev p : Option ℕ)
    → length es ≤ fuel
    → Chain nodes es p
    → Unique es
    → find key es ≡ some c
    → Found key c nodes es prev p (search_loop fuel nodes key prev p)
unfolding search_loop
search_loop-Found key c nodes [] fuel prev p h e u there = absurd (cc there)
search_loop-Found key c nodes ((k, c') ∷ es) zero prev p h x u there = absurd (omega (arith, h))
search_loop-Found key c nodes ((k, c') ∷ es) (suc fuel) prev p h (a, next, e, at, rest) u there =
    elim (Bool-cases (k == key)) [
      | inl y ↦
          let keys : k ≡ key = ground (arith, y) in
          let found : some c' ≡ some c = rw y at there in
          let conns : c' ≡ c = cc found in
          rw (keys, conns)
            (Found-here key c nodes es prev p a next _ e (rw (sym keys, sym conns) at) rest
              (rw⁻¹ keys u.0) (rw (e, at, y) refl))
      | inr d ↦
          (let f =
              search_loop-Found key c nodes es fuel (some a) next (omega (arith, h)) rest u.1
                (rw d at there) in
            let apart : a ≢ f.a = apart_of_keys nodes a f.a k c' key c next f.next at f.at d in
            record {
              last = f.last;
              a = f.a;
              next = f.next;
              run = rw (e, at, d) f.run;
              at = f.at;
              head = λ l. (let q = (f.head l).0 in absurd (cc q));
              changed = λ nodes' c₂ same new.
                  rw d (a, next, e, same a apart ∙ at, f.changed nodes' c₂ same new);
              freed = λ nodes' other fuel' same gone room other_key.
                  (let (n, other_key') = find-behind key other k c' es d other_key in
                    Stops-behind nodes' other a p e (length es) fuel' k c' next room
                      (same a apart ∙ at) n
                      (λ fuel₂ room₂. f.freed nodes' other fuel₂ same gone room₂ other_key'));
            })
    ]
