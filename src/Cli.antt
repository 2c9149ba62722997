-- ===== src/Cli.antt =====
-- executable_src/cli/cli.c: what main does with an open database file.
pub mod Run
pub mod Steps
pub mod Edited
pub mod Setup
use employee_database.Prelude.{
  ℕ, ◌+◌, ◌-◌, ◌*◌, ◌%◌, ◌^◌, Bool, true, false, Option, none, some, List, [], ◌∷◌, ◌++◌, length,
}
use employee_database.Memory.{Result, ok, error, ◌>>=◌, ◌>>◌, check, Block, Allocator}
use employee_database.Employee.{Employee, DbHeader, live}
use employee_database.Parse.{parse_employee, update_employee, delete_employee}

-- The options of the command line; `none` is a null pointer.
pub record Arguments : Type 0 where
  pub add_employee_str : Option Block
  pub update_employee_str : Option Block
  pub update_employee_hours_str : Option Block
  pub delete_employee_str : Option Block
  pub list_flag : Bool

-- The variables of main. The first `allocated` employees are those of the file, whose strings
-- read_employees allocated.
pub record Variables : Type 0 where
  pub employees : List Employee
  pub allocated : ℕ
  pub employees_size : ℕ
  pub dbhdr : DbHeader

pub add_step : Allocator → Option Block → Variables → Result Variables
add_step m none v = ok v
add_step m (some s) v = do
  let employees_size = v.employees_size + 1
  check (m.can_grow (24 * employees_size))
  kept ← live v.employees_size v.employees
  e ← parse_employee s
  ok (record {
    employees = kept ++ (e ∷ []);
    allocated = v.allocated;
    employees_size = employees_size;
    dbhdr = record v.dbhdr { employee_count = (v.dbhdr.employee_count + 1) % 2 ^ 32 };
  })

-- Either both arguments are given or none; otherwise main prints the usage and exits.
pub update_step : Option Block → Option Block → Variables → Result Variables
update_step none none v = ok v
update_step none (some hours) v = error
update_step (some name) none v = error
update_step (some name) (some hours) v = do
  current ← live v.employees_size v.employees
  employees ← update_employee name hours current
  ok (record v { employees = employees })

-- The array keeps its last element; both counts are one less.
pub delete_step : Option Block → Variables → Result Variables
delete_step none v = ok v
delete_step (some name) v = do
  current ← live v.employees_size v.employees
  employees ← delete_employee name v.allocated current
  ok (record v {
    employees = employees;
    employees_size = v.employees_size - 1;
    dbhdr = record v.dbhdr { employee_count = (v.dbhdr.employee_count + (2 ^ 32 - 1)) % 2 ^ 32 };
  })

-- The employees that are printed.
list_step : Bool → Variables → Result (List Employee)
list_step true v = live v.employees_size v.employees
list_step false v = ok []

-- The edits that main makes in memory, and what it prints.
unfoldable pub edit : Allocator → Arguments → Variables → Result (Variables × List Employee)
unfolding add_step update_step delete_step list_step
edit m a v = do
  v₁ ← add_step m a.add_employee_str v
  v₂ ← update_step a.update_employee_str a.update_employee_hours_str v₁
  v₃ ← delete_step a.delete_employee_str v₂
  printed ← list_step a.list_flag v₃
  ok (v₃, printed)
