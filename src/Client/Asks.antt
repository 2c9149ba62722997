-- ===== src/Client/Asks.antt =====
-- When the arguments of the client's command line ask for a request, and how long that is.
use employee_database.Prelude.{
  ℕ, ◌^◌, ◌<◌, ◌≡◌, Bool, true, false, Option, none, some, List, ◌++◌, arith, length, length-append,
}
use employee_database.Memory.{ok, Block}
use employee_database.Memory.Bytes.{be16, be32}
use employee_database.Memory.Text.{c_string}
use employee_database.Employee.{Entry}
use employee_database.Parse.{parse_employee_vals, parse_employee_hours}
use employee_database.Proto.Options.Format.{IsShort}
use employee_database.Request.Meaning.{
  Request, request_bytes, add_bytes, update_bytes, delete_bytes, list_bytes,
}
use employee_database.Client.{Arguments}

-- The line of the add option is accepted as the entry.
abbrev pub AsksAdd : Option Block → Option Entry → Type 0
AsksAdd none none = Unit {0}
AsksAdd none (some e) = ⊥
AsksAdd (some s) none = ⊥
AsksAdd (some s) (some e) =
    IsShort e.name
    × IsShort e.address
    × (parse_employee_vals s
        ≡ ok (record { name = c_string e.name; address = c_string e.address; hours = e.hours }))

-- The hours of the update option are accepted, and its name fits.
abbrev pub AsksUpdate : Option Block → Option Block → Option (List ℕ × ℕ) → Type 0
AsksUpdate none none none = Unit {0}
AsksUpdate (some s) (some h) (some u) =
    (s ≡ c_string u.0) × IsShort u.0 × (parse_employee_hours h ≡ ok u.1)
AsksUpdate s h u = ⊥

abbrev pub AsksDelete : Option Block → Option (List ℕ) → Type 0
AsksDelete none none = Unit {0}
AsksDelete (some s) (some name) = (s ≡ c_string name) × IsShort name
AsksDelete s name = ⊥

-- The arguments of the command line ask for the request.
pub record Asks (a : Arguments) (r : Request) : Type 0 where
  pub add : AsksAdd a.add_employee_str r.add
  pub update : AsksUpdate a.update_employee_str a.update_hours_str r.update
  pub delete : AsksDelete a.delete_employee_str r.delete
  pub list : a.list_flag ≡ r.list

pub add_short : (s : Option Block) (o : Option Entry) → AsksAdd s o → length (add_bytes o) < 2 ^ 18
add_short none none h = omega arith
add_short none (some e) h = absurd h
add_short (some s) none h = absurd h
add_short (some s) (some e) (n, a, parsed) = omega (
  arith,
  n.short,
  a.short,
  length-append e.name (be16 (length e.address) ++ (e.address ++ be32 e.hours)),
  length-append e.address (be32 e.hours),
)

pub update_short :
    (s h : Option Block) (o : Option (List ℕ × ℕ))
    → AsksUpdate s h o
    → length (update_bytes o) < 2 ^ 17
update_short none none none q = omega arith
update_short none none (some u) q = absurd q
update_short none (some h) o q = absurd q
update_short (some s) none o q = absurd q
update_short (some s) (some h) none q = absurd q
update_short (some s) (some h) (some (name, hours)) (e, n, parsed) =
    omega (arith, n.short, length-append name (be32 hours))

pub delete_short :
    (s : Option Block) (o : Option (List ℕ)) → AsksDelete s o → length (delete_bytes o) < 2 ^ 17
delete_short none none q = omega arith
delete_short none (some u) q = absurd q
delete_short (some s) none q = absurd q
delete_short (some s) (some name) (e, n) = omega (arith, n.short)

pub list_short : (l : Bool) → length (list_bytes l) < 2 ^ 1
list_short true = omega arith
list_short false = omega arith

pub length-request_bytes :
    (a : Arguments) (r : Request) → Asks a r → length (request_bytes r) < 2 ^ 31
length-request_bytes a r q =
    let x₃ = delete_bytes r.delete in
    let x₄ = list_bytes r.list in
    omega (
      arith,
      add_short a.add_employee_str r.add q.add,
      update_short a.update_employee_str a.update_hours_str r.update q.update,
      delete_short a.delete_employee_str r.delete q.delete,
      list_short r.list,
      length-append (add_bytes r.add) (update_bytes r.update ++ (x₃ ++ x₄)),
      length-append (update_bytes r.update) (x₃ ++ x₄),
      length-append x₃ x₄,
    )
