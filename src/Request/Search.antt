-- ===== src/Request/Search.antt =====
-- The tests and loops of deserialize_request_options that touch memory only.
use employee_database.Prelude.{
  ℕ, Bool, false, Option, none, some, List, [], ◌∷◌, ltb, ◌==◌, if◌then◌else◌,
}
use employee_database.Memory.{Result, ok, ◌>>=◌, Block, load}
use employee_database.Memory.Text.{str_eq}
use employee_database.Employee.{Employee}

abbrev pub first_is : ℕ → List ℕ → Bool
first_is letter [] = false
first_is letter (b ∷ bs) = b == letter

-- `cursor < buf_size && *cursor == letter`
unfoldable pub option_at : ℕ → Block → ℕ → ℕ → Result Bool
option_at letter buf buf_size at =
    if ltb at buf_size then (load at 1 buf >>= λ b. ok (first_is letter b)) else ok false

abbrev pub cons_found : Employee → Option (List Employee) → Option (List Employee)
cons_found e none = none
cons_found e (some es) = some (e ∷ es)

-- The search of the update option: the first employee of the name gets the hours; `none` if it was
-- not found.
unfoldable pub update_found : Block → ℕ → List Employee → Result (Option (List Employee))
update_found name hours [] = ok none
update_found name hours (e ∷ es) =
    let rest = update_found name hours es in
    do
      same ← str_eq e.name name
      if same
          then ok (some (record e { hours = hours } ∷ es))
          else (rest >>= λ r. ok (cons_found e r))

-- The search of the delete option: `last` is written over the first employee of the name.
unfoldable pub delete_found : Block → Employee → List Employee → Result (Option (List Employee))
delete_found name last [] = ok none
delete_found name last (e ∷ es) =
    let rest = delete_found name last es in
    do
      same ← str_eq e.name name
      if same then ok (some (last ∷ es)) else (rest >>= λ r. ok (cons_found e r))

-- `(*employees)[count - 1]`, for an array of `count` elements.
unfoldable pub last_of : Employee → List Employee → Employee
last_of e [] = e
last_of e (x ∷ xs) = last_of x xs

unfoldable pub delete_search : Block → List Employee → Result (Option (List Employee))
unfolding delete_found last_of
delete_search name [] = ok none
delete_search name (e ∷ es) = delete_found name (last_of e es) (e ∷ es)
