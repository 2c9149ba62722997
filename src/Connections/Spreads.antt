-- ===== src/Connections/Spreads.antt =====
-- How the entries of a finite map are spread over the buckets, without the memory that they stand in.
use native.Mathlib.Nat.{mod-lt}
use employee_database.Prelude.{
  suc, ◌+◌, ltb, ◌<◌, ◌≤◌, length, zero, ℕ, ◌%◌, ◌≡◌, ◌≢◌, refl, sym, ap, ◌∙◌, false, Option, none,
  some, [], ◌∷◌, ◌==◌, arith, Bool-cases, Option-cases, inl, inr, eq→==, ne→==,
}
use employee_database.Connections.{write, hash_key}
use employee_database.Connections.Entries.{Entries, find, Unique}

-- The bucket of a key.
abbrev pub home : ℕ → ℕ → ℕ
home key capacity = hash_key key % capacity

-- Each key of `f` stands once, in its bucket, with its value.
pub record Spreads (f : ℕ → Option ℕ) (capacity : ℕ) (chain : ℕ → Entries) : Type 0 where
  pub unique : (i : ℕ) → Unique (chain i)
  pub placed : (i k c : ℕ) → find k (chain i) ≡ some c → home k capacity ≡ i
  pub lookups : (k : ℕ) → find k (chain (home k capacity)) ≡ f k

pub Spreads-none : (capacity : ℕ) → Spreads (λ k. none) capacity (λ i. [])
Spreads-none capacity = record {
  unique = λ i. tt;
  placed = λ i k c there. absurd (cc there);
  lookups = λ k. refl;
}

pub Spreads-congr :
    {f g : ℕ → Option ℕ} {capacity : ℕ} {chain : ℕ → Entries}
    → ((k : ℕ) → f k ≡ g k)
    → Spreads f capacity chain
    → Spreads g capacity chain
Spreads-congr same s = record {
  unique = s.unique;
  placed = s.placed;
  lookups = λ k. s.lookups k ∙ same k;
}

module _ (f : ℕ → Option ℕ) (capacity : ℕ) (chain : ℕ → Entries)
    (s : Spreads f capacity chain) where
  -- A key is in no other bucket than its own.
  pub absent_elsewhere : (key i : ℕ) → (i == home key capacity) ≡ false → find key (chain i) ≡ none
  absent_elsewhere key i n = elim (Option-cases (find key (chain i))) [
    | inl e ↦ e
    | inr (c, e) ↦ (let q = s.placed i key c e in absurd (ground (arith, q, n)))
  ]

  -- A key that `f` does not have is in no bucket.
  pub absent_everywhere : (key : ℕ) → f key ≡ none → (i : ℕ) → find key (chain i) ≡ none
  absent_everywhere key absent i = elim (Bool-cases (i == home key capacity)) [
    | inl y ↦
        (let at_home : i ≡ home key capacity = ground (arith, y) in
          ap (λ i. find key (chain i)) at_home ∙ s.lookups key ∙ absent)
    | inr n ↦ absent_elsewhere key i n
  ]

  -- A bucket has new entries, in which only one key has another value.
  module _ (key conn : ℕ) (es : Entries) (hit : find key es ≡ some conn)
      (miss : (k : ℕ) → key ≢ k → find k es ≡ find k (chain (home key capacity))) where
    placed_after :
        (i k c : ℕ) → find k (write (home key capacity) es chain i) ≡ some c → home k capacity ≡ i
    placed_after i k c there = elim (Bool-cases (i == home key capacity)) [
      | inr n ↦ s.placed i k c (rw n at there)
      | inl y ↦
          let at_home : i ≡ home key capacity = ground (arith, y) in
          elim (Bool-cases (key == k)) [
            | inl same ↦ (let q : key ≡ k = ground (arith, same) in rw (sym q, at_home) refl)
            | inr other ↦
                let q : key ≢ k = λ e. ground (arith, e, other) in
                s.placed (home key capacity) k c (sym (miss k q) ∙ rw y at there) ∙ sym at_home
          ]
    ]

    lookups_after :
        (k : ℕ)
        → find k (write (home key capacity) es chain (home k capacity)) ≡ write key (some conn) f k
    lookups_after k = elim (Bool-cases (k == key)) [
      | inl same ↦
          let q : k ≡ key = ground (arith, same) in
          rw (q, eq→== (home key capacity) (home key capacity) refl, eq→== key key refl) hit
      | inr other ↦
          let q : key ≢ k = λ e. ground (arith, e, other) in
          rw other (elim (Bool-cases (home k capacity == home key capacity)) [
            | inl y ↦
                let same_home : home k capacity ≡ home key capacity = ground (arith, y) in
                rw y (miss k q ∙ ap (λ i. find k (chain i)) (sym same_home) ∙ s.lookups k)
            | inr n ↦ rw n (s.lookups k)
          ])
    ]

    pub Spreads-write :
        Unique es → Spreads (write key (some conn) f) capacity (write (home key capacity) es chain)
    Spreads-write u = record {
      unique = λ i. elim (Bool-cases (i == home key capacity)) [
        | inl y ↦ rw y u
        | inr n ↦ rw n (s.unique i)
      ];
      placed = placed_after;
      lookups = lookups_after;
    }

  -- An entry with a new key in front of its bucket.
  pub Spreads-cons :
      (key conn : ℕ)
      → f key ≡ none
      → Spreads
          (write key (some conn) f)
          capacity
          (write (home key capacity) ((key, conn) ∷ chain (home key capacity)) chain)
  Spreads-cons key conn absent =
      Spreads-write key conn ((key, conn) ∷ chain (home key capacity))
        (rw (eq→== key key refl) refl) (λ k q. rw (ne→== key k q) refl)
        (absent_everywhere key absent (home key capacity), s.unique (home key capacity))

-- The number of entries in the first `n` buckets.
abbrev pub total : ℕ → (ℕ → Entries) → ℕ
total zero chain = 0
total (suc n) chain = total n chain + length (chain n)

pub length-le-total : (i n : ℕ) (chain : ℕ → Entries) → i < n → length (chain i) ≤ total n chain
length-le-total i zero chain h = absurd (omega (arith, h))
length-le-total i (suc n) chain h = elim (Bool-cases (i == n)) [
  | inl y ↦ (let q : i ≡ n = ground (arith, y) in rw q (omega arith))
  | inr d ↦
      (let q : i ≢ n = λ e. ground (arith, e, d) in
        omega (arith, length-le-total i n chain (omega (arith, h, q))))
]

pub total-nil : (n : ℕ) → total n (λ i. []) ≡ 0
total-nil zero = refl
total-nil (suc n) = omega (arith, total-nil n)

total-beyond :
    (n i : ℕ) (es : Entries) (chain : ℕ → Entries)
    → n ≤ i
    → total n (write i es chain) ≡ total n chain
total-beyond zero i es chain h = refl
total-beyond (suc n) i es chain h =
    rw (ne→== n i (omega (arith, h)))
      (ap (λ t. t + length (chain n)) (total-beyond n i es chain (omega (arith, h))))

pub total-write :
    (n i : ℕ) (es : Entries) (chain : ℕ → Entries)
    → i < n
    → total n (write i es chain) + length (chain i) ≡ total n chain + length es
total-write zero i es chain h = absurd (omega (arith, h))
total-write (suc n) i es chain h = elim (Bool-cases (i == n)) [
  | inl y ↦
      (let q : i ≡ n = ground (arith, y) in
        rw (q, eq→== n n refl) (omega (arith, total-beyond n n es chain (omega arith))))
  | inr d ↦
      (let q : i ≢ n = λ e. ground (arith, e, d) in
        rw (ne→== n i (λ e. q (sym e)))
          (omega (arith, total-write n i es chain (omega (arith, h, q)))))
]

-- Behind the capacity there are no entries.
pub length-beyond :
    (f : ℕ → Option ℕ) (capacity : ℕ) (chain : ℕ → Entries)
    → 0 < capacity
    → Spreads f capacity chain
    → (i : ℕ) → capacity ≤ i
    → length (chain i) ≡ 0
length-beyond f capacity chain positive s i beyond = by_entries (chain i) refl
  where
    by_entries : (es : Entries) → chain i ≡ es → length (chain i) ≡ 0
    by_entries [] e = rw e refl
    by_entries ((k, c) ∷ es) e =
        let there : find k (chain i) ≡ some c = rw (e, eq→== k k refl) refl in
        absurd (omega (arith, s.placed i k c there, mod-lt (hash_key k) positive, beyond))

pub length-le :
    (f : ℕ → Option ℕ) (capacity : ℕ) (chain : ℕ → Entries)
    → 0 < capacity
    → Spreads f capacity chain
    → (i : ℕ) → length (chain i) ≤ total capacity chain
length-le f capacity chain positive s i = elim (Bool-cases (ltb i capacity)) [
  | inl y ↦ length-le-total i capacity chain (ground (arith, y))
  | inr n ↦ omega (arith, length-beyond f capacity chain positive s i (ground (arith, n)))
]
