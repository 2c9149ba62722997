-- ===== src/Request/Edits.antt =====
-- The searches of a request carry out the abstract edits.
use employee_database.Prelude.{
  ℕ, ◌≡◌, refl, ap, ◌∙◌, Option, none, some, List, [], ◌∷◌, ◌++◌, inl, inr, Bool-cases, map, All,
  subst,
}
use employee_database.Memory.{ok}
use employee_database.Memory.Text.{c_string, IsText, text_eq, str_eq-c_string}
use employee_database.Employee.{Entry, IsEntry, Employee, AreNamed, stored}
use employee_database.Employee.Directory.{
  Directory, cons?, set_hours, swap_out, last_entry, all_but_last, all_but_last-append,
  delete_entry,
}
use mathlib.Core.List.{map-append}
use employee_database.Request.Search.{
  update_found, delete_found, last_of, delete_search, cons_found,
}

abbrev pub stored_all : Option Directory → Option (List Employee)
stored_all none = none
stored_all (some es) = some (map stored es)

stored_all-cons :
    (e : Entry) (r : Option Directory)
    → cons_found (stored e) (stored_all r) ≡ stored_all (cons? e r)
stored_all-cons e none = refl
stored_all-cons e (some es) = refl

pub update_found-set_hours :
    (name : List ℕ) (hours : ℕ) (es : Directory)
    → IsText name
    → AreNamed es
    → update_found (c_string name) hours (map stored es) ≡ ok (stored_all (set_hours name hours es))
unfolding update_found set_hours
update_found-set_hours name hours [] n h = refl
update_found-set_hours name hours (e ∷ es) n h =
    let ih = update_found-set_hours name hours es n h.1 in
    elim (Bool-cases (text_eq e.name name)) [
      | inl y ↦ rw (str_eq-c_string e.name name h.0 n, y)
      | inr d ↦
          rw (str_eq-c_string e.name name h.0 n, d, ih, stored_all-cons e (set_hours name hours es))
    ]

-- The array after the search: the last element is still in its old place.
abbrev pub with_last : Entry → Option Directory → Option (List Employee)
with_last last none = none
with_last last (some es) = some (map stored es ++ (stored last ∷ []))

with_last-cons :
    (e last : Entry) (r : Option Directory)
    → cons_found (stored e) (with_last last r) ≡ with_last last (cons? e r)
with_last-cons e last none = refl
with_last-cons e last (some es) = refl

pub delete_found-swap_out :
    (name : List ℕ) (last : Entry) (front : Directory)
    → IsText name
    → AreNamed (front ++ (last ∷ []))
    → delete_found (c_string name) (stored last) (map stored front ++ (stored last ∷ []))
      ≡ ok (with_last last (swap_out name last front))
unfolding delete_found swap_out
delete_found-swap_out name last [] n h = elim (Bool-cases (text_eq last.name name)) [
  | inl y ↦ rw (str_eq-c_string last.name name h.0 n, y)
  | inr d ↦ rw (str_eq-c_string last.name name h.0 n, d)
]
delete_found-swap_out name last (e ∷ front) n h =
    let ih = delete_found-swap_out name last front n h.1 in
    elim (Bool-cases (text_eq e.name name)) [
      | inl y ↦ rw (str_eq-c_string e.name name h.0 n, y)
      | inr d ↦ rw (
        str_eq-c_string e.name name h.0 n,
        d,
        ih,
        with_last-cons e last (swap_out name last front),
      )
    ]

pub All-IsText : (es : Directory) → All IsEntry es → AreNamed es
All-IsText [] i = tt
All-IsText (e ∷ es) i = (i.0.name_text, All-IsText es i.1)

last_of-last_entry :
    (e : Entry) (es : Directory) → last_of (stored e) (map stored es) ≡ stored (last_entry e es)
unfolding last_of
last_of-last_entry e [] = refl
last_of-last_entry e (x ∷ es) = last_of-last_entry x es

-- The array after the delete option's search.
abbrev pub with_last_of : Directory → Option Directory → Option (List Employee)
with_last_of [] o = none
with_last_of (e ∷ es) o = with_last (last_entry e es) o

pub delete_search-delete_entry :
    (name : List ℕ) (es : Directory)
    → IsText name
    → AreNamed es
    → delete_search (c_string name) (map stored es) ≡ ok (with_last_of es (delete_entry name es))
unfolding delete_search
delete_search-delete_entry name [] n h = refl
delete_search-delete_entry name (e ∷ es) n h =
    let whole = all_but_last-append e es in
    let array : map stored (e ∷ es)
        ≡ map stored (all_but_last e es) ++ (stored (last_entry e es) ∷ []) =
      ap (map stored) whole ∙ map-append stored (all_but_last e es) (last_entry e es ∷ []) in
    ap (λ l. delete_found (c_string name) l (map stored (e ∷ es))) (last_of-last_entry e es)
    ∙ ap (delete_found (c_string name) (stored (last_entry e es))) array
    ∙ delete_found-swap_out name (last_entry e es) (all_but_last e es) n (subst AreNamed whole h)
