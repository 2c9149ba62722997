-- ===== src/Request/Meaning.antt =====
-- What a request asks for, its bytes, and what the server owes it.
use employee_database.Prelude.{
  ℕ, ◌^◌, ◌<◌, Bool, true, false, Option, none, some, List, [], ◌∷◌, ◌++◌, length, ◌+◌, take, drop,
}
use employee_database.Memory.{Block}
use employee_database.Memory.Bytes.{be32}
use employee_database.Employee.{Entry}
use employee_database.Employee.Directory.{Directory, set_hours, delete_entry}
use employee_database.Proto.Options.Format.{sized_text, add_fields, update_fields, IsShort}
use employee_database.Proto.Listing.Rows.{rows}

-- At most one option of each kind.
pub record Request : Type 0 where
  pub add : Option Entry
  pub update : Option (List ℕ × ℕ)
  pub delete : Option (List ℕ)
  pub list : Bool

abbrev pub add_bytes : Option Entry → Block
add_bytes none = []
add_bytes (some e) = b'a' ∷ add_fields e

abbrev pub update_bytes : Option (List ℕ × ℕ) → Block
update_bytes none = []
update_bytes (some u) = b'u' ∷ update_fields u.0 u.1

abbrev pub delete_bytes : Option (List ℕ) → Block
delete_bytes none = []
delete_bytes (some name) = b'd' ∷ sized_text name

abbrev pub list_bytes : Bool → Block
list_bytes true = b'l' ∷ []
list_bytes false = []

-- The options in the order in which the client serialises them.
abbrev pub request_bytes : Request → Block
request_bytes r =
    add_bytes r.add ++ (update_bytes r.update ++ (delete_bytes r.delete ++ list_bytes r.list))

abbrev pub IsUpdate : Option (List ℕ × ℕ) → Type 0
IsUpdate none = Unit {0}
IsUpdate (some u) = IsShort u.0 × (u.1 < 2 ^ 32)

abbrev pub IsDelete : Option (List ℕ) → Type 0
IsDelete none = Unit {0}
IsDelete (some name) = IsShort name

-- Names are texts of 16 bits, and hours fit 32 bits.
pub record IsRequest (r : Request) : Type 0 where
  pub update : IsUpdate r.update
  pub delete : IsDelete r.delete

abbrev pub added : Option Entry → Directory → Directory
added none es = es
added (some e) es = es ++ (e ∷ [])

-- `none` where the name of the option is missing.
abbrev pub updated : Option (List ℕ × ℕ) → Directory → Option Directory
updated none es = some es
updated (some u) es = set_hours u.0 u.1 es

abbrev pub deleted : Option (List ℕ) → Directory → Option Directory
deleted none es = some es
deleted (some name) es = delete_entry name es

pub data Reply : Type 0 where
  missing : Reply
  finished : Reply
  listed : Directory → Reply

abbrev pub listing : Bool → Directory → Reply
listing true es = listed es
listing false es = finished

-- An edit whose name is missing ends the request; otherwise `next` follows.
abbrev pub proceed :
    (Directory → Directory × Reply) → Directory → Option Directory → Directory × Reply
proceed next es none = (es, missing)
proceed next es (some ds) = next ds

abbrev pub serve_list : Bool → Directory → Directory × Reply
serve_list l es = (es, listing l es)

abbrev pub serve_delete : Option (List ℕ) → Bool → Directory → Directory × Reply
serve_delete d l es = proceed (serve_list l) es (deleted d es)

-- The options take effect in the order add, update, delete, list; a name that is missing ends the
-- request.
abbrev pub serve : Request → Directory → Directory × Reply
serve r es =
    proceed (serve_delete r.delete r.list) (added r.add es) (updated r.update (added r.add es))

-- The response of 9 bytes, `b`, after a reply was written to it.
abbrev pub reply_bytes : Block → Reply → Block
reply_bytes b missing = take 4 b ++ (1 ∷ drop 5 b)
reply_bytes b finished = take 4 b ++ (0 ∷ be32 0)
reply_bytes b (listed es) = take 4 b ++ (0 ∷ (be32 (length (rows es)) ++ rows es))

abbrev pub reply_size : ℕ → Reply → ℕ
reply_size n missing = n
reply_size n finished = n
reply_size n (listed es) = 9 + length (rows es)
