-- ===== src/Cli/Run/Saves.antt =====
-- A run of the command-line tool saves the edited directory, or leaves the file alone, or is
-- undefined.
use employee_database.Prelude.{
  ℕ, ◌≡◌, refl, sym, ap, Bool, true, List, [], arith, map, append-nil, length,
}
use employee_database.Memory.{Result, ok, error, fault, Allocator}
use employee_database.Employee.{Employee, stored}
use employee_database.Employee.Directory.{Directory}
use employee_database.Disk.{File, IoResult, done, failed, crash, ◌>>=◌, lift, pure}
use employee_database.Serialize.{write_db}
use employee_database.Serialize.Image.{quiet}
use employee_database.Serialize.Reopen.{image, image_size, opened, load_db-image}
use employee_database.Request.Database.{Saved, IsDirectory, header_of, write_db-Saved}
use employee_database.Request.Meaning.{Request, added}
use employee_database.Cli.{Arguments, Variables, edit}
use employee_database.Cli.Steps.{Keeps}
use employee_database.Cli.Edited.{Asks, Edits, edited, printed, edit-Edits}
use employee_database.Cli.Run.{run}

-- How a run on the file of `es` ends, by what the edits give.
abbrev pub Ends : Bool → Directory → Result Directory → IoResult (List Employee) → Type 0
Ends l es error r = r ≡ failed (quiet (image es) (image_size es))
Ends l es fault r = r ≡ crash
Ends l es (ok ds) r = (g : File) × (r ≡ done (printed l ds) g) × Saved ds g

Edits-Ends :
    (loaded : ℕ) (l : Bool) (es : Directory) (o : Result Directory)
    (r : Result (Variables × List Employee))
    → Edits loaded l o r
    → Ends l es o (
        (lift r >>= λ x. write_db x.0.dbhdr x.0.employees >>= λ h. pure x.1)
          (quiet (image es) (image_size es)))
Edits-Ends loaded l es error r e = rw e
Edits-Ends loaded l es fault r e = rw e
Edits-Ends loaded l es (ok ds) r (v, run, k) =
    let (g, saved, wrote) =
      write_db-Saved v.dbhdr es ds k.spare (quiet (image es) (image_size es)) k.directory k.count
        (record {
          left = [];
          pos = image_size es;
          file = ap (λ c. quiet c (image_size es)) (sym (append-nil (image es)));
        }) in
    (g, rw (run, k.array, wrote), saved)

-- If no allocation is refused and every system call on the file succeeds in full, the arguments of
-- the command-line tool ask for edits with well-formed options, and the file holds exactly a
-- well-formed directory, which with the added entry still fits 32 bits, then a run on the open file
-- ends with the edited directory in the file, perhaps with old bytes behind it, and has printed
-- that directory if asked to; or, if a name to update or delete is missing, it fails and leaves the
-- file's bytes as they were; or, if only the added entry has the name to delete, it is undefined.
pub run-Ends :
    (m : Allocator) (before : List ℕ) (a : Arguments) (r : Request) (es : Directory)
    → ((n : ℕ) → m.can_grow n ≡ true)
    → Asks a r
    → IsDirectory es
    → IsDirectory (added r.add es)
    → Ends r.list es (edited r es) (run m before a (opened (image es)))
unfolding run
run-Ends m before a r es granted q d d' =
    let v : Variables = record {
      employees = map stored es;
      allocated = length es;
      employees_size = length es;
      dbhdr = header_of es;
    } in
    let k : Keeps (length es) es v = record {
      spare = [];
      array = sym (append-nil (map stored es));
      size = refl;
      allocated = refl;
      count = refl;
      directory = d;
    } in
    rw (load_db-image before es d.entries (omega (arith, d.small))) (
      Edits-Ends (length es) r.list es (edited r es) (edit m a v)
        (edit-Edits m a r es v granted q k d'))
