-- ===== src/Connections/Chains.antt =====
-- The chain of a bucket as a list of entries, and what the loops along it find.
use employee_database.Prelude.{
  eq→==, ne→==, ℕ, zero, suc, ◌≤◌, ◌≡◌, ◌≢◌, refl, sym, ap, ◌∙◌, Option, none, some, [], ◌∷◌,
  length, ◌==◌, arith, Bool-cases, inl, inr, eq→==,
}
use employee_database.Memory.{ok}
use employee_database.Connections.Entries.{Entries, find}
use employee_database.Connections.{Node, write, get_loop, search_loop}

abbrev pub Cells : Type 0
Cells = ℕ → Option Node

abbrev pub node : ℕ → ℕ → Option ℕ → Node
node k c next = record { key = k; conn = c; next = next }

-- From `p` the `next` pointers lead through nodes with these entries to null.
abbrev pub Chain : Cells → Entries → Option ℕ → Type 0
Chain nodes [] p = p ≡ none
Chain nodes ((k, c) ∷ es) p =
    (a : ℕ) × (next : Option ℕ) × (p ≡ some a)
    × (nodes a ≡ some (node k c next))
    × Chain nodes es next

-- Only the node at `a` has changed.
abbrev pub Elsewhere : ℕ → Cells → Cells → Type 0
Elsewhere a nodes nodes' = (b : ℕ) → b ≢ a → nodes' b ≡ nodes b

pub get_loop-find :
    (key : ℕ) (nodes : Cells) (es : Entries) (fuel : ℕ) (p : Option ℕ)
    → length es ≤ fuel
    → Chain nodes es p
    → get_loop fuel nodes key p ≡ ok (find key es)
unfolding get_loop
get_loop-find key nodes [] fuel p h e = rw e refl
get_loop-find key nodes ((k, c) ∷ es) zero p h x = absurd (omega (arith, h))
get_loop-find key nodes ((k, c) ∷ es) (suc fuel) p h (a, next, e, at, rest) =
    rw (e, at, get_loop-find key nodes es fuel next (omega (arith, h)) rest)
      (elim (Bool-cases (k == key)) [ inl y ↦ rw y refl | inr d ↦ rw d refl ])

-- The chain has no node with the key of the changed node, or that node was not allocated.
pub Chain-Elsewhere :
    (key a : ℕ) (nodes nodes' : Cells) (es : Entries) (p : Option ℕ)
    → ((c : ℕ) (next : Option ℕ) (k : ℕ) → nodes a ≡ some (node k c next) → k ≡ key)
    → Elsewhere a nodes nodes'
    → find key es ≡ none
    → Chain nodes es p
    → Chain nodes' es p
Chain-Elsewhere key a nodes nodes' [] p here same none_there e = e
Chain-Elsewhere key a nodes nodes' ((k, c) ∷ es) p here same none_there (b, next, e, at, rest) =
    elim (Bool-cases (k == key)) [
      | inl y ↦ (let there : some c ≡ none = rw y at none_there in absurd (cc there))
      | inr d ↦
          let apart : b ≢ a =
            λ q. (let keyed : k ≡ key = here c next k (rw⁻¹ q at) in ground (arith, keyed, d)) in
          (
            b,
            next,
            e,
            same b apart ∙ at,
            Chain-Elsewhere key a nodes nodes' es next here same (rw d at none_there) rest,
          )
    ]

-- The key is not in the chain: the loop ends behind the last node.
pub search_loop-none :
    (key : ℕ) (nodes : Cells) (es : Entries) (fuel : ℕ) (prev p : Option ℕ)
    → length es ≤ fuel
    → Chain nodes es p
    → find key es ≡ none
    → (last : Option ℕ) × (search_loop fuel nodes key prev p ≡ ok (last, none))
unfolding search_loop
search_loop-none key nodes [] fuel prev p h e absent = (prev, rw e refl)
search_loop-none key nodes ((k, c) ∷ es) zero prev p h x absent = absurd (omega (arith, h))
search_loop-none key nodes ((k, c) ∷ es) (suc fuel) prev p h (a, next, e, at, rest) absent =
    elim (Bool-cases (k == key)) [
      | inl y ↦ (let there : some c ≡ none = rw y at absent in absurd (cc there))
      | inr d ↦
          let (last, run) =
            search_loop-none key nodes es fuel (some a) next (omega (arith, h)) rest
              (rw d at absent) in
          (last, rw (e, at, d) run)
    ]

pub write_same {ℓ} : {A : Type ℓ} (p : ℕ) (c : A) (h : ℕ → A) → write p c h p ≡ c
write_same p c h = rw (eq→== p p refl) refl

pub write_other {ℓ} : {A : Type ℓ} (p : ℕ) (c : A) (h : ℕ → A) (a : ℕ) → a ≢ p → write p c h a ≡ h a
write_other p c h a n = rw (ne→== a p n) refl

pub Chain-fresh :
    (made : ℕ) (n : Option Node) (nodes : Cells) (es : Entries) (p : Option ℕ)
    → nodes made ≡ none
    → Chain nodes es p
    → Chain (write made n nodes) es p
Chain-fresh made n nodes [] p unmade e = e
Chain-fresh made n nodes ((k, c) ∷ es) p unmade (a, next, e, at, rest) =
    let apart : a ≢ made = λ q.
      (let both : some (node k c next) ≡ none = sym at ∙ ap nodes q ∙ unmade in absurd (cc both)) in
    (
      a,
      next,
      e,
      write_other made n nodes a apart ∙ at,
      Chain-fresh made n nodes es next unmade rest,
    )
