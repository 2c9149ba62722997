-- ===== src/Cli/Setup.antt =====
-- executable_src/cli/cli.c: main up to the open file, and the whole of it.
pub mod Last
pub mod Whole
use employee_database.Prelude.{
  ℕ, Bool, true, false, Option, none, some, List, [], ◌∷◌, ◌==◌, if◌then◌else◌,
}
use employee_database.Memory.{Block, Allocator}
use employee_database.Employee.{Employee}
use employee_database.Disk.{File}
use employee_database.Startup.{
  Started, started, exited, ◌>>=◌, or_exit_io, Answer, Storage, open_db,
}
use employee_database.Cli.{Arguments}
use employee_database.Cli.Run.{run}

-- The variables that the options set.
pub record Options : Type 0 where
  pub fname : Option Block
  pub new_file_flag : Bool
  pub arguments : Arguments

abbrev pub no_options : Options
no_options = record {
  fname = none;
  new_file_flag = false;
  arguments = record {
    add_employee_str = none;
    update_employee_str = none;
    update_employee_hours_str = none;
    delete_employee_str = none;
    list_flag = false;
  };
}

-- The body of the loop.
set_option : ℕ → Option Block → Options → Started Options
set_option c optarg o =
    if c == b'f'
    then started (record o { fname = optarg })
    else if c == b'n'
    then started (record o { new_file_flag = true })
    else if c == b'a'
    then started (record o { arguments = record o.arguments { add_employee_str = optarg } })
    else if c == b'd'
    then started (record o { arguments = record o.arguments { delete_employee_str = optarg } })
    else if c == b'u'
    then started (record o { arguments = record o.arguments { update_employee_str = optarg } })
    else if c == b'h'
    then started
        (record o { arguments = record o.arguments { update_employee_hours_str = optarg } })
    else if c == b'l'
    then started (record o { arguments = record o.arguments { list_flag = true } })
    else if c == b'?'
    then exited 0
    else exited 1

-- The loop over the answers of `getopt`.
unfoldable pub get_options : List Answer → Options → Started Options
unfolding set_option
get_options [] o = started o
get_options (a ∷ answers) o = do o' ← set_option a.c a.optarg o; get_options answers o'

-- `-f` is required.
require : Option Block → Started Block
require none = exited 0
require (some fname) = started fname

-- main: what is printed, and the file as it is left.
unfoldable pub main :
    Allocator → List ℕ → (Block → Storage) → List Answer → Started (List Employee × File)
unfolding require
main m before storage answers = do
  o ← get_options answers no_options
  fname ← require o.fname
  f ← open_db o.new_file_flag (storage fname)
  or_exit_io (run m before o.arguments f)
