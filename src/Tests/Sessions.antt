-- ===== src/Tests/Sessions.antt =====
-- The client's request on concrete arguments.
use employee_database.Prelude.{◌≡◌, refl, true, some, [], ◌∷◌, ◌++◌, arith, length, take, drop}
use employee_database.Memory.{Block, ok}
use employee_database.Memory.Bytes.{be32, le32, of_be, of_le}
use employee_database.Memory.Text.{c_string}
use employee_database.Parse.{parse_employee_vals, parse_employee_hours}
use employee_database.Parse.Standard.{chars, strtok, strtol, to_u32}
use employee_database.Request.{deserialize_request_options}
use employee_database.Request.Meaning.{request_bytes, serve}
use employee_database.Request.Answer.{Replies}
use employee_database.Client.{Arguments, build_request}
use employee_database.Client.Asks.{Asks}
use employee_database.Client.Build.{Sends, build_request-Sends}
use employee_database.Client.Session.{build_request-serve}
use employee_database.Tests.Data.{ada, bob, ample}
use employee_database.Tests.Requests.{
  whole_request, whole_request-IsRequest, loaded, loaded_file, loaded-Serves, two-IsDirectory,
}

abbrev pub bob_line : Block
bob_line = c_string (b'b' ∷ b'o' ∷ b'b' ∷ 44 ∷ b'y' ∷ b'z' ∷ 44 ∷ b'7' ∷ [])

abbrev pub arguments : Arguments
arguments = record {
  add_employee_str = some bob_line;
  update_employee_str = some (c_string (b'a' ∷ b'd' ∷ b'a' ∷ []));
  update_hours_str = some (c_string (b'7' ∷ []));
  delete_employee_str = some (c_string (b'a' ∷ b'd' ∷ b'a' ∷ []));
  list_flag = true;
}

pub parse_bob_line :
    parse_employee_vals bob_line
    ≡ ok (record { name = c_string bob.name; address = c_string bob.address; hours = bob.hours })
unfolding parse_employee_vals chars strtok strtol to_u32
parse_bob_line = refl

pub parse_seven : parse_employee_hours (c_string (b'7' ∷ [])) ≡ ok 7
unfolding parse_employee_hours chars strtol to_u32
parse_seven = refl

pub arguments-Asks : Asks arguments whole_request
arguments-Asks = record {
  add = (
    record { text = omega arith; short = omega arith },
    record { text = omega arith; short = omega arith },
    parse_bob_line,
  );
  update = (refl, record { text = omega arith; short = omega arith }, parse_seven);
  delete = (refl, record { text = omega arith; short = omega arith });
  list = refl;
}

build_request-Sends_example :
    Sends ample
      (le32 2 ++ (be32 (length (request_bytes whole_request)) ++ request_bytes whole_request))
      (build_request ample arguments)
build_request-Sends_example = build_request-Sends ample arguments whole_request arguments-Asks

build_request-serve_example :
    (msg : Block) × (build_request ample arguments ≡ ok msg)
    × (of_le (take 4 msg) ≡ 2)
    × (of_be (take 4 (drop 4 msg)) 0 ≡ length (drop 8 msg))
    × Replies
        (serve whole_request (ada ∷ []))
        loaded
        (deserialize_request_options ample (drop 8 msg) (length (drop 8 msg)) loaded loaded_file)
build_request-serve_example =
    build_request-serve ample ample arguments whole_request (ada ∷ []) loaded loaded_file
      (λ n. refl) (λ n. refl) arguments-Asks whole_request-IsRequest loaded-Serves two-IsDirectory
      refl
