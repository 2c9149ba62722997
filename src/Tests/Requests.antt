-- ===== src/Tests/Requests.antt =====
-- A whole request on concrete data.
use employee_database.Prelude.{◌≡◌, refl, true, none, some, [], ◌∷◌, ◌++◌, map, arith, length}
use employee_database.Memory.Text.{text_eq}
use employee_database.Employee.{stored}
use employee_database.Employee.Directory.{set_hours, swap_out}
use employee_database.Employee.Directory.{erase_first, SameEntries, Directory}
use employee_database.Memory.{ok}
use employee_database.Memory.Text.{c_string}
use employee_database.Prelude.{Option}
use employee_database.Request.Search.{delete_search}
use employee_database.Request.Edits.{with_last_of}
use employee_database.Request.Erase.{delete_search-erase_first}
use employee_database.Disk.{File}
use employee_database.Proto.Listing.Rows.{rows}
use employee_database.Request.{Work, deserialize_request_options}
use employee_database.Request.Database.{Serves, IsDirectory, header_of}
use employee_database.Request.Meaning.{Request, request_bytes, IsRequest, serve, missing, listed}
use employee_database.Request.Answer.{Replies}
use employee_database.Request.Served.{deserialize_request_options-serve}
use employee_database.Serialize.Image.{quiet}
use employee_database.Serialize.Reopen.{image}
use employee_database.Tests.Data.{ada, bob, ada-IsEntry, bob-IsEntry, ample}

-- Add bob, give ada 7 hours, delete ada, list.
abbrev pub whole_request : Request
whole_request = record {
  add = some bob;
  update = some (b'a' ∷ b'd' ∷ b'a' ∷ [], 7);
  delete = some (b'a' ∷ b'd' ∷ b'a' ∷ []);
  list = true;
}

pub whole_request-IsRequest : IsRequest whole_request
whole_request-IsRequest = record {
  update = (record { text = omega arith; short = omega arith }, omega arith);
  delete = record { text = omega arith; short = omega arith };
}

abbrev pub loaded_file : File
loaded_file = quiet (image (ada ∷ []) ++ []) 18

abbrev pub loaded : Work
loaded = record {
  employees = map stored (ada ∷ []) ++ [];
  dbhdr = header_of (ada ∷ []);
  response_buf = 3 ∷ 0 ∷ 0 ∷ 0 ∷ 0xaa ∷ 0xaa ∷ 0xaa ∷ 0xaa ∷ 0xaa ∷ [];
  response_buf_size = 9;
  cursor = 0;
}

pub one-IsDirectory : IsDirectory (ada ∷ [])
unfolding rows
one-IsDirectory = record { entries = (ada-IsEntry, tt); small = omega arith }

pub two-IsDirectory : IsDirectory (ada ∷ bob ∷ [])
unfolding rows
two-IsDirectory = record { entries = (ada-IsEntry, (bob-IsEntry, tt)); small = omega arith }

pub loaded-Serves : Serves (ada ∷ []) loaded loaded_file
loaded-Serves = record {
  spare = [];
  array = refl;
  header = refl;
  directory = one-IsDirectory;
  saved = record { left = []; pos = 18; file = refl };
}

deserialize_request_options-serve_example : Replies (serve whole_request (ada ∷ [])) loaded (
    deserialize_request_options ample
      (request_bytes whole_request)
      (length (request_bytes whole_request))
      loaded
      loaded_file)
deserialize_request_options-serve_example =
    deserialize_request_options-serve ample (λ n. refl) (request_bytes whole_request) whole_request
      (ada ∷ []) loaded loaded_file refl whole_request-IsRequest loaded-Serves two-IsDirectory refl

-- Only bob is left, and listed.
serve_whole : serve whole_request (ada ∷ []) ≡ (bob ∷ [], listed (bob ∷ []))
unfolding set_hours swap_out text_eq
serve_whole = refl

-- A name that is missing ends the request before the list option.
serve_missing :
    serve (record { add = none; update = none; delete = some (b'x' ∷ []); list = true }) (ada ∷ [])
    ≡ (ada ∷ [], missing)
unfolding swap_out text_eq
serve_missing = refl

delete_search-erase_first_example :
    (r : Option Directory) × SameEntries r (erase_first (b'a' ∷ b'd' ∷ b'a' ∷ []) (ada ∷ bob ∷ []))
    × (delete_search (c_string (b'a' ∷ b'd' ∷ b'a' ∷ [])) (map stored (ada ∷ bob ∷ []))
        ≡ ok (with_last_of (ada ∷ bob ∷ []) r))
delete_search-erase_first_example =
    delete_search-erase_first (b'a' ∷ b'd' ∷ b'a' ∷ []) (ada ∷ bob ∷ []) (omega arith) (omega arith)
