-- ===== src/Employee/Directory.antt =====
-- The abstract database, a list of entries, and the edits that the program promises.
use employee_database.Prelude.{
  ℕ, Option, none, some, List, [], ◌∷◌, ◌++◌, ◌≡◌, refl, ap, inl, inr, if◌then◌else◌, Bool-cases,
  map, Bool, false, ◌||◌, ◌&&◌, not, take, drop,
}
use employee_database.Memory.{Result, ok, error}
use employee_database.Memory.Text.{text_eq}
use employee_database.Employee.{Employee, Entry, stored}
use mathlib.Core.List.{Perm}
use mathlib.Core.List.Perm

abbrev pub Directory : Type 0
Directory = List Entry

abbrev pub cons? : Entry → Option Directory → Option Directory
cons? e none = none
cons? e (some es) = some (e ∷ es)

-- The first entry of the name gets the hours; `none` if there is none.
unfoldable pub set_hours : List ℕ → ℕ → Directory → Option Directory
set_hours name hours [] = none
set_hours name hours (e ∷ es) =
    let rest = set_hours name hours es in
    if text_eq e.name name then some (record e { hours = hours } ∷ es) else cons? e rest

-- The first entry of the name is left out; `none` if there is none.
unfoldable pub erase_first : List ℕ → Directory → Option Directory
erase_first name [] = none
erase_first name (e ∷ es) =
    let rest = erase_first name es in if text_eq e.name name then some es else cons? e rest

-- What the code does to erase from `front ++ last ∷ []`: the last entry takes the place of the one
-- that goes.
unfoldable pub swap_out : List ℕ → Entry → Directory → Option Directory
swap_out name last [] = if text_eq last.name name then some [] else none
swap_out name last (e ∷ front) =
    let rest = swap_out name last front in
    if text_eq e.name name then some (last ∷ front) else cons? e rest

-- STATUS_ERROR where there is no directory.
abbrev pub found : Option Directory → Result Directory
found none = error
found (some es) = ok es

-- Two directories that hold the same entries, as often; both may be missing.
abbrev pub SameEntries : Option Directory → Option Directory → Type 0
SameEntries none none = Unit {0}
SameEntries none (some b) = ⊥
SameEntries (some a) none = ⊥
SameEntries (some a) (some b) = Perm a b

SameEntries-cons? :
    (e : Entry) (a b : Option Directory) → SameEntries a b → SameEntries (cons? e a) (cons? e b)
SameEntries-cons? e none none h = tt
SameEntries-cons? e none (some b) h = h
SameEntries-cons? e (some a) none h = h
SameEntries-cons? e (some a) (some b) h = Perm.cons e h

perm_end : (e : Entry) (es : Directory) → Perm (e ∷ es) (es ++ (e ∷ []))
perm_end e [] = Perm.refl _
perm_end e (x ∷ es) = Perm.trans (Perm.swap _ _ _) (Perm.cons x (perm_end e es))

pub swap_out-erase_first :
    (name : List ℕ) (last : Entry) (front : Directory)
    → SameEntries (swap_out name last front) (erase_first name (front ++ (last ∷ [])))
unfolding swap_out erase_first
swap_out-erase_first name last [] = elim (Bool-cases (text_eq last.name name)) [
  | inl y ↦ rw y (Perm.refl [])
  | inr n ↦ rw n tt
]
swap_out-erase_first name last (e ∷ front) = elim (Bool-cases (text_eq e.name name)) [
  | inl y ↦ rw y (perm_end last front)
  | inr n ↦ rw n (SameEntries-cons? e _ _ (swap_out-erase_first name last front))
]

-- Lookup by name, for what the edits leave alone.
unfoldable pub find : List ℕ → Directory → Option Entry
find name [] = none
find name (e ∷ es) = let rest = find name es in if text_eq e.name name then some e else rest

-- Whether an entry has the name.
unfoldable pub names : List ℕ → Directory → Bool
names name [] = false
names name (e ∷ es) = let rest = names name es in text_eq e.name name || rest

-- An entry has the name, but none of the first `k` entries.
abbrev pub only_behind : ℕ → List ℕ → Directory → Bool
only_behind k name es = not (names name (take k es)) && names name (drop k es)

-- The code's answer to an edit: the stored directory, or STATUS_ERROR if the name is missing.
abbrev pub answer : Option Directory → Result (List Employee)
answer none = error
answer (some es) = ok (map stored es)

-- The last entry of `e ∷ es`, and the entries before it.
abbrev pub last_entry : Entry → Directory → Entry
last_entry e [] = e
last_entry e (x ∷ es) = last_entry x es

abbrev pub all_but_last : Entry → Directory → Directory
all_but_last e [] = []
all_but_last e (x ∷ es) = e ∷ all_but_last x es

pub all_but_last-append :
    (e : Entry) (es : Directory) → e ∷ es ≡ all_but_last e es ++ (last_entry e es ∷ [])
all_but_last-append e [] = refl
all_but_last-append e (x ∷ es) = ap (λ r. e ∷ r) (all_but_last-append x es)

-- The code's deletion from a whole directory.
abbrev pub delete_entry : List ℕ → Directory → Option Directory
delete_entry name [] = none
delete_entry name (e ∷ es) = swap_out name (last_entry e es) (all_but_last e es)
