-- ===== src/Cli/Steps.antt =====
-- The steps of the command-line tool on a directory: add, update, delete.
use employee_database.Prelude.{
  ℕ, if◌then◌else◌, ◌+◌, ◌-◌, ◌%◌, ◌^◌, ◌<◌, ◌≡◌, refl, sym, ap, ◌∙◌, Bool, true, false, Option,
  none, some, List, [], ◌∷◌, ◌++◌, arith, length, map, append-nil, length-append, ◌*◌,
}
use employee_database.Memory.{Result, ok, error, fault, ◌>>=◌, Block, Allocator}
use employee_database.Memory.Text.{c_string}
use employee_database.Employee.{Entry, Employee, stored, live}
use employee_database.Employee.Prefix.{live-append, length-map}
use employee_database.Employee.Directory.{
  Directory, set_hours, answer, last_entry, delete_entry, only_behind, found,
}
use employee_database.Parse.{parse_employee, update_employee, delete_employee}
use employee_database.Parse.Edits.{
  update_employee-parsed, answer_last, delete_employee-delete_entry, only_behind-nil,
}
use employee_database.Request.Meaning.{added, updated}
use employee_database.Request.Edits.{All-IsText}
use employee_database.Request.Fits.{
  Counts, Fits, set_hours-Counts, delete_entry-Counts, set_hours-Fits, delete_entry-Fits,
}
use employee_database.Client.Asks.{AsksAdd, AsksUpdate, AsksDelete}
use employee_database.Request.Database.{IsDirectory}
use employee_database.Proto.Listing.Rows.{rows}
use employee_database.Proto.Listing.Read.{length-rows}
use employee_database.Cli.{Variables, add_step, update_step, delete_step}
use mathlib.Core.List.{map-append}

-- The array starts with the directory, and both counts are its length; `loaded` employees are from
-- the file.
pub record Keeps (loaded : ℕ) (es : Directory) (v : Variables) : Type 0 where
  pub spare : List Employee
  pub array : v.employees ≡ map stored es ++ spare
  pub size : v.employees_size ≡ length es
  pub allocated : v.allocated ≡ loaded
  pub count : v.dbhdr.employee_count ≡ length es
  pub directory : IsDirectory es

pub Keeps-live :
    {loaded : ℕ} (es : Directory) (v : Variables)
    → Keeps loaded es v
    → live v.employees_size v.employees ≡ ok (map stored es)
Keeps-live es v k =
    ap (λ n. live n v.employees) k.size
    ∙ ap (live (length es)) k.array
    ∙ live-append (length es) (map stored es) k.spare (sym (length-map stored es))

-- A step that carries out an edit, or fails where the edit finds no entry.
abbrev pub Steps : ℕ → Option Directory → Result Variables → Type 0
Steps loaded none r = r ≡ error
Steps loaded (some ds) r = (v : Variables) × (r ≡ ok v) × Keeps loaded ds v

-- A deletion from a directory whose first `loaded` entries are from the file. The strings of an
-- entry that was added are not freed: `fault`.
abbrev pub erased : ℕ → Option (List ℕ) → Directory → Result Directory
erased loaded none es = ok es
erased loaded (some name) es =
    if only_behind loaded name es then fault else found (delete_entry name es)

-- A step with an outcome beyond: it leaves the defined behaviour.
abbrev pub Outcomes : ℕ → Result Directory → Result Variables → Type 0
Outcomes loaded (ok ds) r = (v : Variables) × (r ≡ ok v) × Keeps loaded ds v
Outcomes loaded error r = r ≡ error
Outcomes loaded fault r = r ≡ fault

pub add_step-Steps :
    {loaded : ℕ} (m : Allocator) (s : Option Block) (o : Option Entry) (es : Directory)
    (v : Variables)
    → ((n : ℕ) → m.can_grow n ≡ true)
    → AsksAdd s o
    → Keeps loaded es v
    → IsDirectory (added o es)
    → Steps loaded (some (added o es)) (add_step m s v)
unfolding add_step parse_employee
add_step-Steps m none none es v granted a k d = (v, refl, k)
add_step-Steps m none (some e) es v granted a k d = absurd a
add_step-Steps m (some s) none es v granted a k d = absurd a
add_step-Steps m (some s) (some e) es v granted (name, address, parsed) k d =
    let one = length-append es (e ∷ []) in
    let count : (v.dbhdr.employee_count + 1) % 2 ^ 32 ≡ length (es ++ (e ∷ [])) =
      omega (arith, k.count, d.small, one, length-rows (es ++ (e ∷ []))) in
    (
      record {
        employees = map stored es ++ (stored e ∷ []);
        allocated = v.allocated;
        employees_size = v.employees_size + 1;
        dbhdr = record v.dbhdr { employee_count = (v.dbhdr.employee_count + 1) % 2 ^ 32 };
      },
      rw (granted (24 * (v.employees_size + 1)), Keeps-live es v k, parsed),
      record {
        spare = [];
        array = sym (append-nil (map stored (es ++ (e ∷ []))) ∙ map-append stored es (e ∷ []));
        size = omega (arith, k.size, one);
        allocated = k.allocated;
        count = count;
        directory = d;
      },
    )

update_answer :
    {loaded : ℕ} (o : Option Directory) (es : Directory) (v : Variables)
    (r : Result (List Employee))
    → Keeps loaded es v
    → Counts (length es) o
    → Fits (length (rows es)) o
    → r ≡ answer o
    → Steps loaded o (r >>= λ employees. ok (record v { employees = employees }))
update_answer none es v r k c fits e = rw e
update_answer (some ds) es v r k c fits e = (
  record v { employees = map stored ds },
  rw e,
  record {
    spare = [];
    array = sym (append-nil (map stored ds));
    size = k.size ∙ sym c;
    allocated = k.allocated;
    count = k.count ∙ sym c;
    directory = record { entries = fits.0; small = omega (arith, fits.1, k.directory.small) };
  },
)

-- The hours of the update option fit 32 bits.
abbrev pub Fitting : Option (List ℕ × ℕ) → Type 0
Fitting none = Unit {0}
Fitting (some u) = u.1 < 2 ^ 32

pub update_step-Steps :
    {loaded : ℕ} (s h : Option Block) (o : Option (List ℕ × ℕ)) (es : Directory) (v : Variables)
    → AsksUpdate s h o
    → Fitting o
    → Keeps loaded es v
    → Steps loaded (updated o es) (update_step s h v)
unfolding update_step
update_step-Steps none none none es v q u k = (v, refl, k)
update_step-Steps none none (some o) es v q u k = absurd q
update_step-Steps none (some h) o es v q u k = absurd q
update_step-Steps (some s) none o es v q u k = absurd q
update_step-Steps (some s) (some h) none es v q u k = absurd q
update_step-Steps (some s) (some h) (some (name, hours)) es v (e, n, parsed) u k =
    rw (Keeps-live es v k) (
      update_answer (set_hours name hours es) es v _ k (set_hours-Counts name hours es)
        (set_hours-Fits name hours es u k.directory.entries)
        (ap (λ s. update_employee s h (map stored es)) e
          ∙ update_employee-parsed name h hours es n.text (All-IsText es k.directory.entries)
              parsed))

delete_answer :
    {loaded : ℕ} (o : Option Directory) (es : Directory) (last : Entry) (v : Variables)
    (r : Result (List Employee))
    → Keeps loaded es v
    → 0 < length es
    → Counts (length es - 1) o
    → Fits (length (rows es)) o
    → r ≡ answer_last last o
    → Outcomes loaded (found o) (
        r >>= λ employees. ok (record v {
          employees = employees;
          employees_size = v.employees_size - 1;
          dbhdr = record v.dbhdr {
            employee_count = (v.dbhdr.employee_count + (2 ^ 32 - 1)) % 2 ^ 32;
          };
        }))
delete_answer none es last v r k some_left c fits e = rw e
delete_answer (some ds) es last v r k some_left c fits e = (
  record v {
    employees = map stored ds ++ (stored last ∷ []);
    employees_size = v.employees_size - 1;
    dbhdr = record v.dbhdr { employee_count = (v.dbhdr.employee_count + (2 ^ 32 - 1)) % 2 ^ 32 };
  },
  rw e,
  record {
    spare = stored last ∷ [];
    array = refl;
    size = omega (arith, k.size, c);
    allocated = k.allocated;
    count = omega (arith, k.count, c, some_left, k.directory.small, length-rows es);
    directory = record { entries = fits.0; small = omega (arith, fits.1, k.directory.small) };
  },
)

delete_freed :
    {loaded : ℕ} (b : Bool) (o : Option Directory) (es : Directory) (last : Entry) (v : Variables)
    (r : Result (List Employee))
    → Keeps loaded es v
    → 0 < length es
    → Counts (length es - 1) o
    → Fits (length (rows es)) o
    → r ≡ (if b then fault else answer_last last o)
    → Outcomes loaded (if b then fault else found o) (
        r >>= λ employees. ok (record v {
          employees = employees;
          employees_size = v.employees_size - 1;
          dbhdr = record v.dbhdr {
            employee_count = (v.dbhdr.employee_count + (2 ^ 32 - 1)) % 2 ^ 32;
          };
        }))
delete_freed true o es last v r k some_left c fits e = rw e
delete_freed false o es last v r k some_left c fits e =
    delete_answer o es last v r k some_left c fits e

pub delete_step-Outcomes :
    {loaded : ℕ} (s : Option Block) (o : Option (List ℕ)) (es : Directory) (v : Variables)
    → AsksDelete s o
    → Keeps loaded es v
    → Outcomes loaded (erased loaded o es) (delete_step s v)
unfolding delete_step delete_employee
delete_step-Outcomes none none es v q k = (v, refl, k)
delete_step-Outcomes none (some name) es v q k = absurd q
delete_step-Outcomes (some s) none es v q k = absurd q
delete_step-Outcomes {loaded} (some s) (some name) [] v q k =
    rw (Keeps-live [] v k, only_behind-nil name loaded)
delete_step-Outcomes {loaded} (some s) (some name) (e ∷ es) v (same, n) k =
    rw (Keeps-live (e ∷ es) v k) (
      delete_freed (only_behind loaded name (e ∷ es)) (delete_entry name (e ∷ es)) (e ∷ es)
        (last_entry e es) v _ k (omega arith) (delete_entry-Counts name (e ∷ es))
        (delete_entry-Fits name (e ∷ es) k.directory.entries)
        (ap (λ s. delete_employee s v.allocated (map stored (e ∷ es))) same
          ∙ ap (λ n. delete_employee (c_string name) n (map stored (e ∷ es))) k.allocated
          ∙ delete_employee-delete_entry name loaded e es n.text
              (All-IsText (e ∷ es) k.directory.entries)))
