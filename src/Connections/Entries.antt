-- ===== src/Connections/Entries.antt =====
-- The entries of a bucket, without the memory that they stand in.
use employee_database.Prelude.{
  ℕ, suc, ◌≡◌, ◌≢◌, refl, ap, false, Option, none, some, List, [], ◌∷◌, length, ◌==◌, if◌then◌else◌,
  arith, Bool-cases, inl, inr,
}

-- The key and the connection of each node of a chain.
abbrev pub Entries : Type 0
Entries = List (ℕ × ℕ)

abbrev pub find : ℕ → Entries → Option ℕ
find key [] = none
find key ((k, c) ∷ es) = if k == key then some c else find key es

abbrev pub set_conn : ℕ → ℕ → Entries → Entries
set_conn key c [] = []
set_conn key c ((k, d) ∷ es) = if k == key then (k, c) ∷ es else (k, d) ∷ set_conn key c es

-- No key stands twice.
abbrev pub Unique : Entries → Type 0
Unique [] = Unit {0}
Unique ((k, c) ∷ es) = (find k es ≡ none) × Unique es

-- What has a key among the entries once its connection is set.
pub find-set_conn :
    (key d : ℕ) (es : Entries) (c : ℕ)
    → find key es ≡ some c
    → find key (set_conn key d es) ≡ some d
find-set_conn key d [] c there = absurd (cc there)
find-set_conn key d ((k, c') ∷ es) c there = elim (Bool-cases (k == key)) [
  | inl y ↦ rw (y, y) refl
  | inr n ↦ rw (n, n) (find-set_conn key d es c (rw n at there))
]

pub find-set_conn_other :
    (key other d : ℕ) (es : Entries) → key ≢ other → find other (set_conn key d es) ≡ find other es
find-set_conn_other key other d [] apart = refl
find-set_conn_other key other d ((k, c) ∷ es) apart = elim (Bool-cases (k == key)) [
  | inl y ↦ (let n : (k == other) ≡ false = ground (arith, y, apart) in rw (y, n) refl)
  | inr n ↦ elim (Bool-cases (k == other)) [
    | inl y ↦ rw (n, y) refl
    | inr n' ↦ rw (n, n') (find-set_conn_other key other d es apart)
  ]
]

pub find-set_conn_absent :
    (key other d : ℕ) (es : Entries) → find other es ≡ none → find other (set_conn key d es) ≡ none
find-set_conn_absent key other d [] absent = refl
find-set_conn_absent key other d ((k, c) ∷ es) absent = elim (Bool-cases (k == other)) [
  | inl y ↦ (let there : some c ≡ none = rw y at absent in absurd (cc there))
  | inr n ↦ elim (Bool-cases (k == key)) [
    | inl y ↦ rw (y, n) (rw n at absent)
    | inr n' ↦ rw (n', n) (find-set_conn_absent key other d es (rw n at absent))
  ]
]

pub Unique-set_conn : (key d : ℕ) (es : Entries) → Unique es → Unique (set_conn key d es)
Unique-set_conn key d [] u = tt
Unique-set_conn key d ((k, c) ∷ es) u = elim (Bool-cases (k == key)) [
  | inl y ↦ rw y u
  | inr n ↦ rw n (find-set_conn_absent key k d es u.0, Unique-set_conn key d es u.1)
]

pub length-set_conn : (key d : ℕ) (es : Entries) → length (set_conn key d es) ≡ length es
length-set_conn key d [] = refl
length-set_conn key d ((k, c) ∷ es) = elim (Bool-cases (k == key)) [
  | inl y ↦ rw y refl
  | inr n ↦ rw n (ap suc (length-set_conn key d es))
]
