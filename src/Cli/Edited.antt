-- ===== src/Cli/Edited.antt =====
-- The command-line tool's edits do what its arguments ask for.
use employee_database.Prelude.{ℕ, ◌≡◌, Bool, true, false, Option, none, some, List, [], length, map}
use employee_database.Memory.{Result, ok, error, fault, ◌>>=◌, Block, Allocator}
use employee_database.Employee.{Employee, stored}
use employee_database.Employee.Directory.{Directory, found}
use employee_database.Request.Meaning.{Request, added, updated}
use employee_database.Client.Asks.{AsksAdd, AsksUpdate, AsksDelete}
use employee_database.Request.Database.{IsDirectory}
use employee_database.Cli.{Arguments, Variables, update_step, delete_step, list_step, edit}
use employee_database.Cli.Steps.{
  Keeps, Keeps-live, Steps, Outcomes, erased, Fitting, add_step-Steps, update_step-Steps,
  delete_step-Outcomes,
}

-- The arguments of the command line ask for the request.
pub record Asks (a : Arguments) (r : Request) : Type 0 where
  pub add : AsksAdd a.add_employee_str r.add
  pub update : AsksUpdate a.update_employee_str a.update_employee_hours_str r.update
  pub delete : AsksDelete a.delete_employee_str r.delete
  pub list : a.list_flag ≡ r.list
  pub hours : Fitting r.update

-- The directory after all edits; `error` if a name is missing, and `fault` if the only entry with the
-- name to delete is the one that was added.
abbrev pub edited : Request → Directory → Result Directory
edited r es = found (updated r.update (added r.add es)) >>= λ ds. erased (length es) r.delete ds

abbrev pub printed : Bool → Directory → List Employee
printed true es = map stored es
printed false es = []

-- What edit answers.
abbrev pub Edits : ℕ → Bool → Result Directory → Result (Variables × List Employee) → Type 0
Edits loaded l (ok ds) r = (v : Variables) × (r ≡ ok (v, printed l ds)) × Keeps loaded ds v
Edits loaded l error r = r ≡ error
Edits loaded l fault r = r ≡ fault

after_delete :
    (loaded : ℕ) (l : Bool) (o : Result Directory) (r : Result Variables)
    → Outcomes loaded o r
    → Edits loaded l o (r >>= λ v. list_step l v >>= λ p. ok (v, p))
unfolding list_step
after_delete loaded l error r s = rw s
after_delete loaded l fault r s = rw s
after_delete loaded true (ok ds) r (v, run, k) = (v, rw (run, Keeps-live ds v k), k)
after_delete loaded false (ok ds) r (v, run, k) = (v, rw run, k)

after_update :
    (loaded : ℕ) (l : Bool) (s : Option Block) (d : Option (List ℕ)) (o : Option Directory)
    (r : Result Variables)
    → AsksDelete s d
    → Steps loaded o r
    → Edits loaded l
        (found o >>= λ ds. erased loaded d ds)
        (r >>= λ v. delete_step s v >>= λ v'. list_step l v' >>= λ p. ok (v', p))
after_update loaded l s d none r q e = rw e
after_update loaded l s d (some ds) r q (v, run, k) = rw run (
    after_delete loaded l (erased loaded d ds) (delete_step s v)
      (delete_step-Outcomes s d ds v q k))

pub edit-Edits :
    (m : Allocator) (a : Arguments) (r : Request) (es : Directory) (v : Variables)
    → ((n : ℕ) → m.can_grow n ≡ true)
    → Asks a r
    → Keeps (length es) es v
    → IsDirectory (added r.add es)
    → Edits (length es) r.list (edited r es) (edit m a v)
unfolding edit
edit-Edits m a r es v granted q k d =
    let (v₁, run, k₁) = add_step-Steps m a.add_employee_str r.add es v granted q.add k d in
    rw (run, q.list)
      (after_update (length es) r.list a.delete_employee_str r.delete
        (updated r.update (added r.add es))
        (update_step a.update_employee_str a.update_employee_hours_str v₁) q.delete
        (update_step-Steps a.update_employee_str a.update_employee_hours_str r.update
          (added r.add es) v₁ q.update q.hours k₁))
