-- ===== src/Parse.antt =====
-- src/parse.c: the command-line text of an employee, and the array edits of the command-line tool.
-- `strtok` and `strtol` are given by what the C standard says of them; texts are ASCII.
pub mod Standard
pub mod Fields
pub mod Edits
use employee_database.Prelude.{
  ℕ, zero, suc, ◌+◌, ◌-◌, ◌%◌, ◌^◌, Bool, true, false, not, ◌&&◌, ◌||◌, Option, none, some, List,
  [], ◌∷◌, min, if◌then◌else◌,
}
use employee_database.Memory.{Result, ok, error, fault, ◌>>=◌, ◌>>◌, check, Block}
use employee_database.Memory.Text.{c_string, str_eq}
use employee_database.Employee.{Employee}
use employee_database.Parse.Standard.{Number, strtok, strtol, chars, to_u32}

-- What `parse_employee_vals` writes through its pointers.
pub record Vals : Type 0 where
  pub name : Block
  pub address : Block
  pub hours : ℕ

is_end : List ℕ → Bool
is_end [] = true
is_end (c ∷ s) = false

-- `(uint32_t) strtol(shours, &end_ptr, 10)`, unless nothing was converted or text is left.
hours_of : List ℕ → Result ℕ
unfolding is_end
hours_of shours =
    let n = strtol shours in if n.converted && is_end n.rest then ok (to_u32 n) else error

-- `!*name || !*address || !*shours`: the third test reads through `shours`, also where it is null.
require_tokens : Option (List ℕ) → Option (List ℕ) → Option (List ℕ) → Result (List ℕ)
require_tokens none address shours = error
require_tokens (some name) none shours = error
require_tokens (some name) (some address) none = fault
require_tokens (some name) (some address) (some []) = error
require_tokens (some name) (some address) (some (c ∷ s)) = ok (c ∷ s)

token_block : Option (List ℕ) → Block
token_block none = []
token_block (some t) = c_string t

unfoldable pub parse_employee_vals : Block → Result Vals
unfolding hours_of require_tokens token_block
parse_employee_vals employee_str = do
  text ← chars employee_str
  let first = strtok b',' text
  let second = strtok b',' first.1
  let third = strtok b',' second.1
  shours ← require_tokens first.0 second.0 third.0
  hours ← hours_of shours
  ok (record { name = token_block first.0; address = token_block second.0; hours = hours })

unfoldable pub parse_employee : Block → Result Employee
parse_employee employee_str = do
  v ← parse_employee_vals employee_str
  ok (record { name = v.name; address = v.address; hours = v.hours })

unfoldable pub parse_employee_hours : Block → Result ℕ
unfolding hours_of
parse_employee_hours shours = do text ← chars shours; hours_of text

-- The loop of update_employee: the first employee of the name gets the hours.
update_loop : Block → ℕ → List Employee → Result (List Employee)
update_loop employee_name hours [] = error
update_loop employee_name hours (e ∷ es) =
    let rest = update_loop employee_name hours es in
    do
      same ← str_eq e.name employee_name
      if same then ok (record e { hours = hours } ∷ es) else (rest >>= λ r. ok (e ∷ r))

unfoldable pub update_employee : Block → Block → List Employee → Result (List Employee)
unfolding update_loop
update_employee employee_name shours employees = do
  hours ← parse_employee_hours shours
  update_loop employee_name hours employees

-- `employees[employees_size - 1]`
last_of : Employee → List Employee → Employee
last_of e [] = e
last_of e (x ∷ xs) = last_of x xs

-- `free(employees[i].name)` and `free(employees[i].address)`, where the first `allocated` elements
-- of the array, counted from the one at `i`, have the strings that read_employees allocated. The
-- strings of the others are parts of the command line, which parse_employee only points to: to free
-- these is undefined.
free_strings : ℕ → Result (Unit {0})
free_strings zero = fault
free_strings (suc allocated) = ok tt

-- The loop of delete_employee: the strings of the first employee of the name are freed, and `last`
-- is written over it. The array keeps its size; main of the command-line tool counts one less.
delete_loop : Block → Employee → ℕ → List Employee → Result (List Employee)
unfolding free_strings
delete_loop employee_name last allocated [] = error
delete_loop employee_name last allocated (e ∷ es) =
    let rest = delete_loop employee_name last (allocated - 1) es in
    do
      same ← str_eq employee_name e.name
      if same then (free_strings allocated >> ok (last ∷ es)) else (rest >>= λ r. ok (e ∷ r))

unfoldable pub delete_employee : Block → ℕ → List Employee → Result (List Employee)
unfolding delete_loop last_of
delete_employee employee_name allocated [] = error
delete_employee employee_name allocated (e ∷ es) =
    delete_loop employee_name (last_of e es) allocated (e ∷ es)
