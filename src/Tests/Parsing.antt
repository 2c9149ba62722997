-- ===== src/Tests/Parsing.antt =====
-- src/parse.c on concrete lines.
use employee_database.Prelude.{◌%◌, ◌^◌, ◌≡◌, refl, if◌then◌else◌, Option, [], ◌∷◌, map, arith}
use employee_database.Memory.{ok, error, fault, ◌>>=◌}
use employee_database.Memory.Text.{c_string}
use employee_database.Employee.{stored, live}
use employee_database.Employee.Directory.{
  Directory, only_behind, set_hours, erase_first, SameEntries, answer,
}
use employee_database.Parse.{
  parse_employee_vals, parse_employee_hours, update_employee, delete_employee,
}
use employee_database.Parse.Standard.{chars, strtok, strtol, to_u32}
use employee_database.Parse.Standard.Decimal.{decimal}
use employee_database.Parse.Fields.{
  IsField, IsNumeral, parse_employee_vals-fields, parse_employee_vals-no_hours,
}
use employee_database.Parse.Edits.{update_employee-set_hours, delete_employee-erase_first}
use employee_database.Tests.Data.{ada, bob}

name-IsField : IsField (b'a' ∷ b'd' ∷ b'a' ∷ [])
name-IsField = record { text = omega arith; free = omega arith; filled = λ e. cc }

address-IsField : IsField (b'x' ∷ [])
address-IsField = record { text = omega arith; free = omega arith; filled = λ e. cc }

forty-IsNumeral : IsNumeral (b'4' ∷ b'0' ∷ [])
forty-IsNumeral = record { digits = omega arith; filled = λ e. cc }

parse_employee_vals-fields_example :
    parse_employee_vals (c_string (b'a' ∷ b'd' ∷ b'a' ∷ 44 ∷ b'x' ∷ 44 ∷ b'4' ∷ b'0' ∷ []))
    ≡ ok (record {
      name = c_string (b'a' ∷ b'd' ∷ b'a' ∷ []);
      address = c_string (b'x' ∷ []);
      hours = decimal 0 (b'4' ∷ b'0' ∷ []) % 2 ^ 32;
    })
unfolding decimal
parse_employee_vals-fields_example =
    parse_employee_vals-fields (b'a' ∷ b'd' ∷ b'a' ∷ []) (b'x' ∷ []) (b'4' ∷ b'0' ∷ []) name-IsField
      address-IsField forty-IsNumeral (omega arith)

parse_employee_vals-no_hours_example :
    parse_employee_vals (c_string (b'a' ∷ b'd' ∷ b'a' ∷ 44 ∷ b'x' ∷ [])) ≡ fault
parse_employee_vals-no_hours_example =
    parse_employee_vals-no_hours (b'a' ∷ b'd' ∷ b'a' ∷ []) (b'x' ∷ []) [] name-IsField
      address-IsField

abbrev staff : Directory
staff = ada ∷ bob ∷ []

update_employee-set_hours_example :
    update_employee
      (c_string (b'b' ∷ b'o' ∷ b'b' ∷ []))
      (c_string (b'4' ∷ b'0' ∷ []))
      (map stored staff)
    ≡ answer (set_hours (b'b' ∷ b'o' ∷ b'b' ∷ []) (decimal 0 (b'4' ∷ b'0' ∷ []) % 2 ^ 32) staff)
unfolding decimal
update_employee-set_hours_example =
    update_employee-set_hours (b'b' ∷ b'o' ∷ b'b' ∷ []) (b'4' ∷ b'0' ∷ []) staff (omega arith)
      (omega arith) forty-IsNumeral (omega arith)

delete_employee-erase_first_example :
    (r : Option Directory) × (SameEntries r
      (erase_first (b'a' ∷ b'd' ∷ b'a' ∷ []) (ada ∷ bob ∷ [])))
    × ((delete_employee (c_string (b'a' ∷ b'd' ∷ b'a' ∷ [])) 1 (map stored (ada ∷ bob ∷ []))
          >>= live 1)
        ≡ (if only_behind 1 (b'a' ∷ b'd' ∷ b'a' ∷ []) (ada ∷ bob ∷ []) then fault else answer r))
delete_employee-erase_first_example =
    delete_employee-erase_first (b'a' ∷ b'd' ∷ b'a' ∷ []) 1 bob (ada ∷ []) (omega arith)
      (omega arith)

-- A negative number of hours is accepted, and wraps.
parse_negative_hours : parse_employee_hours (c_string (b'-' ∷ b'1' ∷ [])) ≡ ok 4294967295
unfolding parse_employee_hours chars strtol to_u32
parse_negative_hours = refl

-- Text behind the number is refused.
parse_hours_with_text : parse_employee_hours (c_string (b'1' ∷ b'x' ∷ [])) ≡ error
unfolding parse_employee_hours chars strtol to_u32
parse_hours_with_text = refl

pub parse_forty : parse_employee_hours (c_string (b'4' ∷ b'0' ∷ [])) ≡ ok 40
unfolding parse_employee_hours chars strtol to_u32
parse_forty = refl

pub parse_ada_line :
    parse_employee_vals (c_string (b'a' ∷ b'd' ∷ b'a' ∷ 44 ∷ b'x' ∷ 44 ∷ b'4' ∷ b'0' ∷ []))
    ≡ ok (record {
      name = c_string (b'a' ∷ b'd' ∷ b'a' ∷ []);
      address = c_string (b'x' ∷ []);
      hours = 40;
    })
unfolding parse_employee_vals chars strtok strtol to_u32
parse_ada_line = refl
