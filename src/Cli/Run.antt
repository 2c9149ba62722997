-- ===== src/Cli/Run.antt =====
-- main of executable_src/cli/cli.c from the open file on: it loads the database, edits and prints it,
-- and saves it.
pub mod Saves
use employee_database.Prelude.{ℕ, List}
use employee_database.Memory.{Allocator}
use employee_database.Employee.{Employee}
use employee_database.Disk.{Io, ◌>>=◌, pure, lift}
use employee_database.Serialize.{load_db, write_db}
use employee_database.Cli.{Arguments, edit}

-- An exit with a message is `failed`; the value is what was printed.
unfoldable pub run : Allocator → List ℕ → Arguments → Io (List Employee)
run m before a = do
  db ← load_db before
  edited ← lift (
      edit m a (record {
        employees = db.1;
        allocated = db.0.employee_count;
        employees_size = db.0.employee_count;
        dbhdr = db.0;
      }))
  _ ← write_db edited.0.dbhdr edited.0.employees
  pure edited.1
