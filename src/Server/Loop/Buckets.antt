-- ===== src/Server/Loop/Buckets.antt =====
-- The buckets of the clients, while clients come and go.
use employee_database.Prelude.{
  ℕ, suc, ◌-◌, ◌<◌, ◌≤◌, ◌≡◌, ◌≢◌, refl, sym, ap, ◌∙◌, Bool, true, false, Option, some, List, [],
  ◌∷◌, ◌++◌, length, ◌==◌, ◌⊎◌, inl, inr, arith, ne→==, Bool-cases, length-append,
}
use employee_database.Connections.{write}
use employee_database.Connections.Spreads.{home}
use employee_database.Server.Clients.{nth, Accepted, refused, unnamed, named}
use employee_database.Server.Clients.Indexed.{nth-beyond, nth-append_last}
use employee_database.Server.Loop.{System}
use employee_database.Server.Loop.Joins.{Fresh, polled_after}

-- Each client has an intact bucket of its own.
pub record OwnBuckets (intact : ℕ → Bool) (capacity : ℕ) (pfds : List ℕ) : Type 0 where
  pub whole : (j x : ℕ) → nth (suc j) pfds ≡ some x → intact (home x capacity) ≡ true
  pub apart :
      (j k x y : ℕ)
      → nth (suc j) pfds ≡ some x
      → nth (suc k) pfds ≡ some y
      → j ≢ k
      → home x capacity ≢ home y capacity

-- The place that a descriptor came from when the client at the place `suc i` left.
origin :
    (i : ℕ) (old new : List ℕ)
    → suc i < length old
    → length new ≡ length old - 1
    → ((j x : ℕ)
        → nth j new ≡ some x
        → (j ≡ suc i → nth (length old - 1) old ≡ some x) × (j ≢ suc i → nth j old ≡ some x))
    → (j x : ℕ) → nth (suc j) new ≡ some x
    → (k : ℕ) × (nth (suc k) old ≡ some x)
      × (k ≢ i)
      × (((j ≡ i) × (suc k ≡ length new)) ⊎ ((j ≢ i) × (k ≡ j)))
origin i old new polled shorter moved j x e =
    let r = moved (suc j) x e in
    let below = nth-beyond (suc j) new x e in
    elim (Bool-cases (j == i)) [
      | inl y ↦
          let q : j ≡ i = ground (arith, y) in
          let last : length old - 1 ≡ suc (length old - 2) = omega (arith, polled) in
          (
            length old - 2,
            ap (λ n. nth n old) (sym last) ∙ r.0 (ap suc q),
            λ v. omega (arith, v, q, below, shorter, polled),
            inl (q, sym last ∙ sym shorter),
          )
      | inr n ↦
          let d : j ≢ i = λ q. ground (arith, q, n) in
          (j, r.1 (λ q. d (omega (arith, q))), d, inr (d, refl))
    ]

-- Two descriptors that are left come from different places.
origins_apart :
    (i j j' k k' n : ℕ)
    → suc j < n
    → suc j' < n
    → ((j ≡ i) × (suc k ≡ n)) ⊎ ((j ≢ i) × (k ≡ j))
    → ((j' ≡ i) × (suc k' ≡ n)) ⊎ ((j' ≢ i) × (k' ≡ j'))
    → j ≢ j'
    → k ≢ k'
origins_apart i j j' k k' n below below' (inl (p, l)) (inl (p', l')) d = λ q. d (p ∙ sym p')
origins_apart i j j' k k' n below below' (inl (p, l)) (inr (p', l')) d =
    λ q. omega (arith, q, l, l', below')
origins_apart i j j' k k' n below below' (inr (p, l)) (inl (p', l')) d =
    λ q. omega (arith, q, l, l', below)
origins_apart i j j' k k' n below below' (inr (p, l)) (inr (p', l')) d = λ q. d (sym l ∙ q ∙ l')

pub OwnBuckets-left :
    (intact : ℕ → Bool) (capacity i fd : ℕ) (old new : List ℕ)
    → nth (suc i) old ≡ some fd
    → length new ≡ length old - 1
    → ((j x : ℕ)
        → nth j new ≡ some x
        → (j ≡ suc i → nth (length old - 1) old ≡ some x) × (j ≢ suc i → nth j old ≡ some x))
    → OwnBuckets intact capacity old
    → OwnBuckets (write (home fd capacity) false intact) capacity new
OwnBuckets-left intact capacity i fd old new polled shorter moved b =
    let inside = nth-beyond (suc i) old fd polled in
    record {
      whole = λ j x e.
          (let (k, there, other, how) = origin i old new inside shorter moved j x e in
            rw (ne→== (home x capacity) (home fd capacity) (b.apart k i x fd there polled other))
              (b.whole k x there));
      apart = λ j j' x y e e' d.
          (let (k, there, other, how) = origin i old new inside shorter moved j x e in
            let (k', there', other', how') = origin i old new inside shorter moved j' y e' in
            b.apart k k' x y there there' (
              origins_apart i j j' k k' (length new) (nth-beyond (suc j) new x e)
                (nth-beyond (suc j') new y e') how how' d));
    }

-- A descriptor that `accept` answers has a bucket that no other client has.
abbrev pub NewBucket : Accepted → System → Type 0
NewBucket refused s = Unit {0}
NewBucket (unnamed fd) s = Unit {0}
NewBucket (named fd) s =
    (j x : ℕ)
    → nth (suc j) s.clients.pfds ≡ some x
    → home x s.clients.client_connections.capacity ≢ home fd s.clients.client_connections.capacity

OwnBuckets-append :
    (intact : ℕ → Bool) (capacity fd : ℕ) (pfds : List ℕ)
    → intact (home fd capacity) ≡ true
    → ((j x : ℕ) → nth (suc j) pfds ≡ some x → home x capacity ≢ home fd capacity)
    → OwnBuckets intact capacity pfds
    → OwnBuckets intact capacity (pfds ++ (fd ∷ []))
OwnBuckets-append intact capacity fd pfds whole other b =
    let from : (j x : ℕ)
        → nth (suc j) (pfds ++ (fd ∷ [])) ≡ some x
        → ((suc j ≡ length pfds) × (x ≡ fd))
          ⊎ ((suc j ≢ length pfds) × (nth (suc j) pfds ≡ some x)) =
      λ j x e.
        (let r = nth-append_last (suc j) pfds fd x e in
          elim (Bool-cases (suc j == length pfds)) [
            | inl y ↦ (let q : suc j ≡ length pfds = ground (arith, y) in inl (q, r.0 q))
            | inr n ↦ let d : suc j ≢ length pfds = λ q. ground (arith, q, n) in inr (d, r.1 d)
          ]) in
    record {
      whole = λ j x e. elim (from j x e) [
        | inl (q, same) ↦ rw same whole
        | inr (d, there) ↦ b.whole j x there
      ];
      apart = λ j k x y e e' d. elim (from j x e) [
        | inl (q, same) ↦ elim (from k y e') [
          | inl (q', same') ↦ absurd (d (omega (arith, q, q')))
          | inr (d', there') ↦ λ v. other k y there' (sym v ∙ ap (λ z. home z capacity) same)
        ]
        | inr (d', there) ↦ elim (from k y e') [
          | inl (q', same') ↦ λ v. other j x there (v ∙ ap (λ z. home z capacity) same')
          | inr (d'', there') ↦ b.apart j k x y there there' d
        ]
      ];
    }

pub OwnBuckets-joined :
    (listener : ℕ) (intact : ℕ → Bool) (f : ℕ → Option ℕ) (accepted : Accepted) (s : System)
    → Fresh listener intact f s accepted
    → NewBucket accepted s
    → OwnBuckets intact s.clients.client_connections.capacity s.clients.pfds
    → OwnBuckets intact s.clients.client_connections.capacity (polled_after accepted s.clients.pfds)
      × (length (polled_after accepted s.clients.pfds) ≤ suc (length s.clients.pfds))
OwnBuckets-joined listener intact f refused s fresh new b = (b, omega arith)
OwnBuckets-joined listener intact f (unnamed fd) s fresh new b = (b, omega arith)
OwnBuckets-joined listener intact f (named fd) s (other, absent, whole) new b = (
  OwnBuckets-append intact s.clients.client_connections.capacity fd s.clients.pfds whole new b,
  omega (arith, length-append s.clients.pfds (fd ∷ [])),
)
