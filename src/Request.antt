-- ===== src/Request.antt =====
-- deserialize_request_options of src/proto.c: the server carries out the options of a request, in
-- the order add, update, delete, list. Each block of the function that starts with the test of an
-- option's letter is a stage.
pub mod Search
pub mod Database
pub mod Meaning
pub mod Edits
pub mod Fits
pub mod Stages
pub mod Update
pub mod Delete
pub mod Answer
pub mod Served
pub mod Erase
use employee_database.Prelude.{
  ℕ, ◌+◌, ◌-◌, ◌*◌, ◌%◌, ◌^◌, Bool, true, false, Option, none, some, List, [], ◌∷◌, ◌++◌,
  if◌then◌else◌, drop, replicate,
}
use employee_database.Memory.{Block, store, Allocator}
use employee_database.Memory.Bytes.{be32}
use employee_database.Employee.{Employee, DbHeader, live}
use employee_database.Proto.Options.{
  deserialize_add_employee_option, deserialize_update_employee_option,
  deserialize_delete_employee_option,
}
use employee_database.Proto.Buffer.{Buffer}
use employee_database.Proto.Listing.{serialize_list_employee_response}
use employee_database.Disk.{Io, ◌>>=◌, ◌>>◌, pure, lift, check}
use employee_database.Serialize.{write_db}
use employee_database.Request.Search.{option_at, update_found, delete_search}

-- What the function reads and writes through its pointers; `cursor` is the offset of
-- `conn->buf_cursor`.
pub record Work : Type 0 where
  pub employees : List Employee
  pub dbhdr : DbHeader
  pub response_buf : Block
  pub response_buf_size : ℕ
  pub cursor : ℕ

-- `*(*response_buf + sizeof(proto_msg)) = flag`
pub set_flag : ℕ → Work → Io Work
set_flag flag w = do
  b ← lift (store 4 (flag ∷ []) w.response_buf)
  pure (record w { response_buf = b })

-- What follows the search of the update option.
pub update_result : Work → Option (List Employee) → Io (Work × Bool)
unfolding set_flag
update_result w none = do w' ← set_flag 1 w; pure (w', true)
update_result w (some es) = do
  let employees = es ++ drop w.dbhdr.employee_count w.employees
  dbhdr ← write_db w.dbhdr employees
  pure (record w { employees = employees; dbhdr = dbhdr }, false)

-- What follows the search of the delete option, which has decremented the count if it found the
-- name.
pub delete_result : Work → Option (List Employee) → Io (Work × Bool)
unfolding set_flag
delete_result w none = do w' ← set_flag 1 w; pure (w', true)
delete_result w (some es) = do
  let employees = es ++ drop w.dbhdr.employee_count w.employees
  let count = (w.dbhdr.employee_count + (2 ^ 32 - 1)) % 2 ^ 32
  dbhdr ← write_db (record w.dbhdr { employee_count = count }) employees
  pure (record w { employees = employees; dbhdr = dbhdr }, false)

-- The list response: a header of 9 bytes, the rows behind it, then the flag and the length.
pub list_result : Allocator → Work → Io Work
unfolding set_flag
list_result m w = do
  current ← lift (live w.dbhdr.employee_count w.employees)
  b ← lift (
      serialize_list_employee_response m
        (record { block = w.response_buf; cursor = 9; capacity = 9 }) current)
  w' ← set_flag 0 (record w { response_buf = b.block })
  let data_len = (b.capacity + (2 ^ 32 - 9)) % 2 ^ 32
  response ← lift (store 5 (be32 data_len) w'.response_buf)
  pure (record w' { response_buf = response; response_buf_size = b.capacity })

-- The success flag and a length of zero.
pub empty_result : Work → Io Work
unfolding set_flag
empty_result w = do
  w' ← set_flag 0 w
  response ← lift (store 5 (replicate 4 0) w'.response_buf)
  pure (record w' { response_buf = response })

module _ (m : Allocator) (buf : Block) (buf_size : ℕ) where
  -- The new count wraps as a `uint32_t`, and so does the index of the new element.
  pub add_option : Work → Io Work
  add_option w = do
    let count = (w.dbhdr.employee_count + 1) % 2 ^ 32
    check (m.can_grow (count * 24))
    kept ← lift (live ((count + (2 ^ 32 - 1)) % 2 ^ 32) w.employees)
    added ← lift (deserialize_add_employee_option buf (w.cursor + 1))
    let employees = kept ++ (added.0 ∷ [])
    dbhdr ← write_db (record w.dbhdr { employee_count = count }) employees
    pure (record w { employees = employees; dbhdr = dbhdr; cursor = added.1 })

  pub add_stage : Work → Io Work
  unfolding add_option
  add_stage w = do
    asked ← lift (option_at b'a' buf buf_size w.cursor)
    if asked then add_option w else pure w

  pub update_option : Work → Io (Work × Bool)
  unfolding update_result
  update_option w = do
    option ← lift (deserialize_update_employee_option buf (w.cursor + 1))
    current ← lift (live w.dbhdr.employee_count w.employees)
    found ← lift (update_found option.0 option.1 current)
    update_result (record w { cursor = option.2 }) found

  -- The flag of the result says that the function has returned.
  pub update_stage : Work → Io (Work × Bool)
  unfolding update_option
  update_stage w = do
    asked ← lift (option_at b'u' buf buf_size w.cursor)
    if asked then update_option w else pure (w, false)

  pub delete_option : Work → Io (Work × Bool)
  unfolding delete_result
  delete_option w = do
    option ← lift (deserialize_delete_employee_option buf (w.cursor + 1))
    current ← lift (live w.dbhdr.employee_count w.employees)
    found ← lift (delete_search option.0 current)
    delete_result (record w { cursor = option.1 }) found

  pub delete_stage : Work → Io (Work × Bool)
  unfolding delete_option
  delete_stage w = do
    asked ← lift (option_at b'd' buf buf_size w.cursor)
    if asked then delete_option w else pure (w, false)

  -- The list option, and the answer where it is missing.
  pub list_stage : Work → Io Work
  unfolding list_result empty_result
  list_stage w = do
    asked ← lift (option_at b'l' buf buf_size w.cursor)
    if asked then list_result m w else empty_result w

  pub delete_and_list : Work → Io Work
  unfolding delete_stage list_stage
  delete_and_list w = do r ← delete_stage w; if r.1 then pure r.0 else list_stage r.0

  unfoldable pub deserialize_request_options : Work → Io Work
  unfolding add_stage update_stage delete_and_list
  deserialize_request_options w = do
    w₁ ← add_stage (record w { cursor = 0 })
    r ← update_stage w₁
    if r.1 then pure r.0 else delete_and_list r.0
