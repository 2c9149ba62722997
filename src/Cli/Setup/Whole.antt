-- ===== src/Cli/Setup/Whole.antt =====
-- The whole of main of executable_src/cli/cli.c.
use employee_database.Prelude.{ℕ, ◌≡◌, refl, Bool, true, some, List}
use employee_database.Memory.{Result, ok, error, fault, Block, Allocator}
use employee_database.Employee.{Employee}
use employee_database.Employee.Directory.{Directory}
use employee_database.Disk.{File, IoResult}
use employee_database.Serialize.Reopen.{image, opened}
use employee_database.Request.Database.{Saved, IsDirectory}
use employee_database.Request.Meaning.{Request, added}
use employee_database.Startup.{Started, started, exited, faulted, or_exit_io, Answer, Storage}
use employee_database.Startup.Files.{Offers, open_db-opened}
use employee_database.Cli.Edited.{Asks, edited, printed}
use employee_database.Cli.Run.{run}
use employee_database.Cli.Run.Saves.{Ends, run-Ends}
use employee_database.Cli.Setup.{Options, no_options, get_options, main}

-- How main ends, by what the edits give.
abbrev pub MainEnds : Bool → Result Directory → Started (List Employee × File) → Type 0
MainEnds l error r = r ≡ exited 1
MainEnds l fault r = r ≡ faulted
MainEnds l (ok ds) r = (g : File) × (r ≡ started (printed l ds, g)) × Saved ds g

Ends-MainEnds :
    (l : Bool) (es : Directory) (o : Result Directory) (r : IoResult (List Employee))
    → Ends l es o r
    → MainEnds l o (or_exit_io r)
Ends-MainEnds l es error r e = rw e refl
Ends-MainEnds l es fault r e = rw e refl
Ends-MainEnds l es (ok ds) r (g, e, saved) = (g, rw e refl, saved)

-- If no allocation is refused and every system call on the file succeeds, the options that main
-- reads name a file that holds exactly a well-formed directory, or ask with -n for a new file under
-- a name that is free, for the empty directory, the other options ask for edits with well-formed
-- texts, and with the added entry the directory still fits 32 bits, then main ends with the edited
-- directory in the file, perhaps with old bytes behind it, and has printed that directory if asked
-- to; or, if a name to update or delete is missing, it exits with the status 1; or, if no name to
-- update is missing, and the added entry has the name to delete but no entry of the file has it, it
-- ends in undefined behaviour, since it frees parts of the command line.
pub main-MainEnds :
    (m : Allocator) (before : List ℕ) (storage : Block → Storage) (answers : List Answer)
    (o : Options) (fname : Block) (r : Request) (es : Directory)
    → ((n : ℕ) → m.can_grow n ≡ true)
    → get_options answers no_options ≡ started o
    → o.fname ≡ some fname
    → Offers o.new_file_flag (storage fname) es
    → Asks o.arguments r
    → IsDirectory es
    → IsDirectory (added r.add es)
    → MainEnds r.list (edited r es) (main m before storage answers)
unfolding main
main-MainEnds m before storage answers o fname r es granted parsed named offers q d d' =
    rw (parsed, named, open_db-opened o.new_file_flag (storage fname) es offers)
      (Ends-MainEnds r.list es (edited r es) (run m before o.arguments (opened (image es)))
        (run-Ends m before o.arguments r es granted q d d'))
