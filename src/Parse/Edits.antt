-- ===== src/Parse/Edits.antt =====
-- update_employee and delete_employee carry out the abstract edits.
use employee_database.Prelude.{
  ℕ, zero, suc, ◌-◌, sym, Bool, true, false, if◌then◌else◌, ◌%◌, ◌^◌, ◌<◌, ◌≡◌, refl, ap, Option,
  none, some, List, [], ◌∷◌, ◌++◌, arith, inl, inr, length, Bool-cases, map, ◌∙◌, subst,
}
use employee_database.Memory.{Result, error, fault, ◌>>=◌, ◌>>◌, ok, Block}
use employee_database.Memory.Text.{c_string, IsText, text_eq, str_eq-c_string, text_eq_comm}
use employee_database.Employee.{Entry, Employee, AreNamed, stored, live}
use employee_database.Employee.Directory.{
  Directory, cons?, set_hours, erase_first, swap_out, SameEntries, swap_out-erase_first, answer,
  last_entry, all_but_last, all_but_last-append, delete_entry, names, only_behind,
}
use employee_database.Parse.{
  parse_employee_hours, update_loop, update_employee, last_of, free_strings, delete_loop,
  delete_employee,
}
use employee_database.Employee.Prefix.{push, live-append, length-map}
use mathlib.Core.List.{map-append}
use employee_database.Request.Fits.{Counts, swap_out-Counts}
use employee_database.Parse.Fields.{IsNumeral, parse_employee_hours-decimal}
use employee_database.Parse.Standard.Decimal.{decimal}

push-answer : (e : Entry) (r : Option Directory) → push (stored e) (answer r) ≡ answer (cons? e r)
push-answer e none = refl
push-answer e (some es) = refl

update_loop-set_hours :
    (name : List ℕ) (hours : ℕ) (es : Directory)
    → IsText name
    → AreNamed es
    → update_loop (c_string name) hours (map stored es) ≡ answer (set_hours name hours es)
unfolding update_loop set_hours
update_loop-set_hours name hours [] n h = refl
update_loop-set_hours name hours (e ∷ es) n h =
    let ih = update_loop-set_hours name hours es n h.1 in
    elim (Bool-cases (text_eq e.name name)) [
      | inl y ↦ rw (str_eq-c_string e.name name h.0 n, y)
      | inr d ↦
          rw (str_eq-c_string e.name name h.0 n, d, ih) (push-answer e (set_hours name hours es))
    ]

-- With hours that were accepted.
pub update_employee-parsed :
    (name : List ℕ) (shours : Block) (hours : ℕ) (es : Directory)
    → IsText name
    → AreNamed es
    → parse_employee_hours shours ≡ ok hours
    → update_employee (c_string name) shours (map stored es) ≡ answer (set_hours name hours es)
unfolding update_employee
update_employee-parsed name shours hours es n h parsed =
    rw parsed (update_loop-set_hours name hours es n h)

-- If the name is a text, every entry's name is one, and the hours are a nonempty run of decimal
-- digits that denotes a number below 2 ^ 63, update_employee answers with the directory in which
-- the first entry of that name has those hours modulo 2 ^ 32, and with STATUS_ERROR if no entry has
-- the name.
pub update_employee-set_hours :
    (name digits : List ℕ) (es : Directory)
    → IsText name
    → AreNamed es
    → IsNumeral digits
    → decimal 0 digits < 2 ^ 63
    → update_employee (c_string name) (c_string digits) (map stored es)
      ≡ answer (set_hours name (decimal 0 digits % 2 ^ 32) es)
update_employee-set_hours name digits es n h d small =
    update_employee-parsed name (c_string digits) _ es n h
      (parse_employee_hours-decimal digits d small)

last_of-append :
    (e : Employee) (front : Directory) (last : Entry)
    → last_of e (map stored (front ++ (last ∷ []))) ≡ stored last
unfolding last_of
last_of-append e [] last = refl
last_of-append e (x ∷ front) last = last_of-append (stored x) front last

delete_last :
    (name : List ℕ) (allocated : ℕ) (last : Entry) (front : Directory)
    → delete_employee (c_string name) allocated (map stored (front ++ (last ∷ [])))
      ≡ delete_loop (c_string name) (stored last) allocated (map stored (front ++ (last ∷ [])))
unfolding delete_employee
delete_last name allocated last [] = refl
delete_last name allocated last (e ∷ front) =
    ap (λ l. delete_loop (c_string name) l allocated (map stored (e ∷ (front ++ (last ∷ [])))))
      (last_of-append (stored e) front last)

-- The array after the loop: the last element is still in its old place.
abbrev pub answer_last : Entry → Option Directory → Result (List Employee)
answer_last last none = error
answer_last last (some es) = ok (map stored es ++ (stored last ∷ []))

push-answer_last :
    (e last : Entry) (r : Option Directory)
    → push (stored e) (answer_last last r) ≡ answer_last last (cons? e r)
push-answer_last e last none = refl
push-answer_last e last (some es) = refl

-- The strings of the entry that goes are freed.
free_strings-only_behind :
    (name : List ℕ) (allocated : ℕ) (e : Entry) (es : Directory) (r : Result (List Employee))
    → text_eq e.name name ≡ true
    → (free_strings allocated >> r) ≡ (if only_behind allocated name (e ∷ es) then fault else r)
unfolding free_strings names
free_strings-only_behind name zero e es r y = rw y refl
free_strings-only_behind name (suc allocated) e es r y = rw y refl

only_behind-other :
    (name : List ℕ) (k : ℕ) (e : Entry) (es : Directory)
    → text_eq e.name name ≡ false
    → only_behind k name (e ∷ es) ≡ only_behind (k - 1) name es
unfolding names
only_behind-other name zero e es d = rw d refl
only_behind-other name (suc k) e es d =
    let before : suc k - 1 ≡ k = omega arith in rw (d, before) refl

push-freed :
    (b : Bool) (e last : Entry) (o : Option Directory)
    → push (stored e) (if b then fault else answer_last last o)
      ≡ (if b then fault else answer_last last (cons? e o))
push-freed true e last o = refl
push-freed false e last o = push-answer_last e last o

pub only_behind-nil : (name : List ℕ) (k : ℕ) → only_behind k name [] ≡ false
unfolding names
only_behind-nil name zero = refl
only_behind-nil name (suc k) = refl

nothing_behind :
    (b : Bool) (last : Entry)
    → b ≡ false
    → answer_last last none ≡ (if b then fault else answer_last last none)
nothing_behind true last e = cc
nothing_behind false last e = refl

delete_loop-answer_last :
    (name : List ℕ) (allocated : ℕ) (last : Entry) (front : Directory)
    → IsText name
    → AreNamed (front ++ (last ∷ []))
    → delete_loop (c_string name) (stored last) allocated (map stored (front ++ (last ∷ []))) ≡ (
        if only_behind allocated name (front ++ (last ∷ []))
        then fault
        else answer_last last (swap_out name last front))
unfolding delete_loop swap_out
delete_loop-answer_last name allocated last [] n h = elim (Bool-cases (text_eq last.name name)) [
  | inl y ↦
      rw (str_eq-c_string name last.name n h.0, text_eq_comm name last.name, y)
        (free_strings-only_behind name allocated last [] _ y)
  | inr d ↦
      rw (str_eq-c_string name last.name n h.0, text_eq_comm name last.name, d)
        (nothing_behind (only_behind allocated name (last ∷ [])) last
          (only_behind-other name allocated last [] d ∙ only_behind-nil name (allocated - 1)))
]
delete_loop-answer_last name allocated last (e ∷ front) n h =
    let ih = delete_loop-answer_last name (allocated - 1) last front n h.1 in
    elim (Bool-cases (text_eq e.name name)) [
      | inl y ↦
          rw
            (
              str_eq-c_string name e.name n h.0,
              text_eq_comm name e.name,
              y,
              map-append stored front (last ∷ []),
            )
            (free_strings-only_behind name allocated e (front ++ (last ∷ [])) _ y)
      | inr d ↦
          rw
            (
              str_eq-c_string name e.name n h.0,
              text_eq_comm name e.name,
              d,
              ih,
              only_behind-other name allocated e (front ++ (last ∷ [])) d,
            )
            (push-freed (only_behind (allocated - 1) name (front ++ (last ∷ []))) e last
              (swap_out name last front))
    ]

-- delete_employee on a whole directory.
pub delete_employee-delete_entry :
    (name : List ℕ) (allocated : ℕ) (e : Entry) (es : Directory)
    → IsText name
    → AreNamed (e ∷ es)
    → delete_employee (c_string name) allocated (map stored (e ∷ es)) ≡ (
        if only_behind allocated name (e ∷ es)
        then fault
        else answer_last (last_entry e es) (delete_entry name (e ∷ es)))
delete_employee-delete_entry name allocated e es n h =
    let whole = all_but_last-append e es in
    ap (λ l. delete_employee (c_string name) allocated (map stored l)) whole
    ∙ delete_last name allocated (last_entry e es) (all_but_last e es)
    ∙ delete_loop-answer_last name allocated (last_entry e es) (all_but_last e es) n
        (subst AreNamed whole h)
    ∙ ap
        (λ l.
          if only_behind allocated name l
          then fault
          else answer_last (last_entry e es) (delete_entry name (e ∷ es)))
        (sym whole)

-- The caller's shrinking of the array.
live-answer_last :
    (b : Bool) (last : Entry) (n : ℕ) (o : Option Directory)
    → Counts n o
    → ((if b then fault else answer_last last o) >>= live n) ≡ (if b then fault else answer o)
live-answer_last true last n o c = refl
live-answer_last false last n none c = refl
live-answer_last false last n (some es) c =
    live-append n (map stored es) (stored last ∷ []) (sym c ∙ sym (length-map stored es))

-- If the name is a text and every entry's name is one, then on a directory whose last entry is
-- `last` where the strings of the first `allocated` elements and no others were allocated,
-- delete_employee, followed by the caller's shrinking of the array by one, is undefined exactly if
-- an entry has the name but none of the first `allocated` entries; otherwise it answers with a
-- directory that holds the same entries, as often, as the one without the first entry of that name,
-- and with STATUS_ERROR exactly if no entry has the name.
pub delete_employee-erase_first :
    (name : List ℕ) (allocated : ℕ) (last : Entry) (front : Directory)
    → IsText name
    → AreNamed (front ++ (last ∷ []))
    → (r : Option Directory) × (SameEntries r (erase_first name (front ++ (last ∷ []))))
      × ((delete_employee (c_string name) allocated (map stored (front ++ (last ∷ [])))
            >>= live (length front))
          ≡ (if only_behind allocated name (front ++ (last ∷ [])) then fault else answer r))
delete_employee-erase_first name allocated last front n h = (
  swap_out name last front,
  swap_out-erase_first name last front,
  rw (delete_last name allocated last front, delete_loop-answer_last name allocated last front n h)
      (live-answer_last _ last (length front) (swap_out name last front)
        (swap_out-Counts name last front)),
)
