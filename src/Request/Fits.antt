-- ===== src/Request/Fits.antt =====
-- The abstract edits keep a directory well formed, and do not make it longer in bytes.
use employee_database.Prelude.{
  ℕ, suc, ◌+◌, ◌-◌, ◌^◌, ◌<◌, ◌≤◌, ◌≡◌, refl, sym, ap, Option, none, some, List, [], ◌∷◌, ◌++◌,
  arith, inl, inr, length, Bool-cases, All, All-append_split, subst, length-append,
}
use employee_database.Memory.Text.{text_eq}
use employee_database.Employee.{Entry, IsEntry}
use employee_database.Employee.Directory.{
  Directory, cons?, set_hours, swap_out, last_entry, all_but_last, all_but_last-append,
  delete_entry,
}
use employee_database.Proto.Listing.Rows.{rows, row, length-row}

-- What an edit gives, if it gives anything: well-formed entries in at most `n` bytes.
abbrev pub Fits : ℕ → Option Directory → Type 0
Fits n none = Unit {0}
Fits n (some es) = All IsEntry es × (length (rows es) ≤ n)

Fits-cons :
    (e : Entry) (n : ℕ) (r : Option Directory)
    → IsEntry e
    → Fits n r
    → Fits (length (row e) + n) (cons? e r)
unfolding rows
Fits-cons e n none i h = tt
Fits-cons e n (some es) i h = ((i, h.0), omega (arith, h.1, length-append (row e) (rows es)))

pub length-rows-append :
    (xs ys : Directory) → length (rows (xs ++ ys)) ≡ length (rows xs) + length (rows ys)
unfolding rows
length-rows-append [] ys = omega arith
length-rows-append (e ∷ xs) ys = omega (
  arith,
  length-rows-append xs ys,
  length-append (row e) (rows (xs ++ ys)),
  length-append (row e) (rows xs),
)

pub set_hours-Fits :
    (name : List ℕ) (hours : ℕ) (es : Directory)
    → hours < 2 ^ 32
    → All IsEntry es
    → Fits (length (rows es)) (set_hours name hours es)
unfolding set_hours rows
set_hours-Fits name hours [] small i = tt
set_hours-Fits name hours (e ∷ es) small i = elim (Bool-cases (text_eq e.name name)) [
  | inl y ↦
      let e' : Entry = record e { hours = hours } in
      rw y (
        (
          record {
            name_text = i.0.name_text;
            name_short = i.0.name_short;
            address_text = i.0.address_text;
            address_short = i.0.address_short;
            hours_word = small;
          },
          i.1,
        ),
        omega (
          arith,
          length-row e,
          length-row e',
          length-append (row e) (rows es),
          length-append (row e') (rows es),
        ),
      )
  | inr d ↦
      rw (d, length-append (row e) (rows es))
        (Fits-cons e _ _ i.0 (set_hours-Fits name hours es small i.1))
]

pub swap_out-Fits :
    (name : List ℕ) (last : Entry) (front : Directory)
    → All IsEntry (front ++ (last ∷ []))
    → Fits (length (rows (front ++ (last ∷ [])))) (swap_out name last front)
unfolding swap_out rows
swap_out-Fits name last [] i = elim (Bool-cases (text_eq last.name name)) [
  | inl y ↦ rw y (tt, omega arith)
  | inr d ↦ rw d tt
]
swap_out-Fits name last (e ∷ front) i = elim (Bool-cases (text_eq e.name name)) [
  | inl y ↦
      let parts = All-append_split IsEntry front (last ∷ []) i.1 in
      rw y (
        (parts.1.0, parts.0),
        omega (
          arith,
          length-rows-append front (last ∷ []),
          length-append (row last) (rows front),
          length-append (row last) [],
          length-append (row e) (rows (front ++ (last ∷ []))),
        ),
      )
  | inr d ↦
      rw (d, length-append (row e) (rows (front ++ (last ∷ []))))
        (Fits-cons e _ _ i.0 (swap_out-Fits name last front i.1))
]

-- What an edit gives, if it gives anything, has `n` entries.
abbrev pub Counts : ℕ → Option Directory → Type 0
Counts n none = Unit {0}
Counts n (some es) = length es ≡ n

Counts-cons : (e : Entry) (n : ℕ) (r : Option Directory) → Counts n r → Counts (suc n) (cons? e r)
Counts-cons e n none h = tt
Counts-cons e n (some es) h = ap suc h

pub set_hours-Counts :
    (name : List ℕ) (hours : ℕ) (es : Directory) → Counts (length es) (set_hours name hours es)
unfolding set_hours
set_hours-Counts name hours [] = tt
set_hours-Counts name hours (e ∷ es) = elim (Bool-cases (text_eq e.name name)) [
  | inl y ↦ rw y refl
  | inr d ↦ rw d (Counts-cons e _ _ (set_hours-Counts name hours es))
]

pub swap_out-Counts :
    (name : List ℕ) (last : Entry) (front : Directory)
    → Counts (length front) (swap_out name last front)
unfolding swap_out
swap_out-Counts name last [] = elim (Bool-cases (text_eq last.name name)) [
  | inl y ↦ rw y refl
  | inr d ↦ rw d tt
]
swap_out-Counts name last (e ∷ front) = elim (Bool-cases (text_eq e.name name)) [
  | inl y ↦ rw y refl
  | inr d ↦ rw d (Counts-cons e _ _ (swap_out-Counts name last front))
]

pub delete_entry-Fits :
    (name : List ℕ) (es : Directory)
    → All IsEntry es
    → Fits (length (rows es)) (delete_entry name es)
delete_entry-Fits name [] i = tt
delete_entry-Fits name (e ∷ es) i =
    let whole = all_but_last-append e es in
    subst (λ l. Fits (length (rows l)) (delete_entry name (e ∷ es))) (sym whole)
      (swap_out-Fits name (last_entry e es) (all_but_last e es) (subst (All IsEntry) whole i))

pub delete_entry-Counts :
    (name : List ℕ) (es : Directory) → Counts (length es - 1) (delete_entry name es)
delete_entry-Counts name [] = tt
delete_entry-Counts name (e ∷ es) =
    let size : length (all_but_last e es) ≡ length (e ∷ es) - 1 = omega (
      arith,
      ap length (all_but_last-append e es),
      length-append (all_but_last e es) (last_entry e es ∷ []),
    ) in
    rw size at (swap_out-Counts name (last_entry e es) (all_but_last e es))
