-- ===== src/Request/Answer.antt =====
-- The whole request: deserialize_request_options does what the request means.
use employee_database.Prelude.{
  ℕ, ◌+◌, ◌-◌, ◌%◌, ◌^◌, ◌≡◌, refl, sym, ap, ◌∙◌, Bool, true, [], ◌∷◌, ◌++◌, arith, length,
  append-nil, append_assoc, false, drop, take, length-append, length-nil, length-take, length-drop,
  take-append-drop,
}
use employee_database.Memory.{Result, ok, error, fault, Block, Allocator, store}
use employee_database.Memory.Bytes.{be32}
use employee_database.Memory.Cursor.{At}
use employee_database.Memory.Access.{store-append}
use employee_database.Employee.Directory.{Directory}
use employee_database.Disk.{File, IoResult, done}
use employee_database.Proto.Buffer.{Buffer}
use employee_database.Proto.Buffer.Room.{Holds}
use employee_database.Proto.Listing.Rows.{rows, Fills, serialize_list_employee_response-Fills}
use employee_database.Request.{Work, set_flag, list_result, empty_result, list_stage}
use employee_database.Request.Database.{Serves, Serves-live}
use employee_database.Request.Meaning.{
  list_bytes, Reply, finished, listed, listing, reply_bytes, reply_size,
}
use employee_database.Request.Stages.{option_at-At}

-- The state at the end: the database holds the directory, and the response is the reply.
pub record Replied (es : Directory) (reply : Reply) (w w' : Work) (g : File) : Type 0 where
  pub serves : Serves es w' g
  pub response : w'.response_buf ≡ reply_bytes w.response_buf reply
  pub size : w'.response_buf_size ≡ reply_size w.response_buf_size reply

-- The function returns in such a state.
abbrev pub Replies : Directory × Reply → Work → IoResult Work → Type 0
Replies p w r = (w' : Work) × (g : File) × (r ≡ done w' g) × Replied p.0 p.1 w w' g

filled_rows :
    (m : Allocator) (w : Block) (r : Result Buffer)
    → ((n : ℕ) → m.can_grow n ≡ true)
    → Fills m w r
    → (b : Buffer) × (r ≡ ok b) × (b.block ≡ w) × (b.capacity ≡ length w)
filled_rows m w (ok b) granted h =
    let none_left : h.rest ≡ [] = length-nil h.rest h.roomy in
    (b, refl, h.bytes ∙ ap (λ r. w ++ r) none_left ∙ append-nil w, omega (arith, h.sized, h.roomy))
filled_rows m w error granted h = absurd (cc (h.1, granted h.0))
filled_rows m w fault granted h = absurd h

-- The two stores into the response's header of 9 bytes, `h ++ t`, in front of `rest`.
header_stores :
    (h t rest word : Block)
    → length h ≡ 4
    → length t ≡ 5
    → length word ≡ 4
    → (c : Block) × (store 4 (0 ∷ []) ((h ++ t) ++ rest) ≡ ok c)
      × (store 5 word c ≡ ok (h ++ (0 ∷ (word ++ rest))))
header_stores h [] rest word four five w = absurd (omega (arith, five))
header_stores h (x ∷ u) rest word four five w = (
  h ++ ((0 ∷ []) ++ (u ++ rest)),
  rw (append_assoc h (x ∷ u) rest) (store-append 4 h (0 ∷ []) (x ∷ []) (u ++ rest) (sym four) refl),
  rw
      (
        sym (append_assoc h (0 ∷ []) (u ++ rest)),
        store-append 5 (h ++ (0 ∷ [])) word u rest (omega (arith, length-append h (0 ∷ [])))
            (omega arith),
      )
      (ap ok (append_assoc h (0 ∷ []) (word ++ rest))),
)

response_stores :
    (b rest word : Block)
    → length b ≡ 9
    → length word ≡ 4
    → (c : Block) × (store 4 (0 ∷ []) (b ++ rest) ≡ ok c)
      × (store 5 word c ≡ ok (take 4 b ++ (0 ∷ (word ++ rest))))
response_stores b rest word nine w = rw (take-append-drop 4 b) at (
    header_stores (take 4 b) (drop 4 b) rest word (omega (arith, length-take 4 b))
      (omega (arith, length-drop 4 b)) w)

module _ (m : Allocator) (granted : (n : ℕ) → m.can_grow n ≡ true) (buf : Block) where
  list_result-Replies :
      (es : Directory) (w : Work) (f : File)
      → Serves es w f
      → length w.response_buf ≡ 9
      → Replies (es, listed es) w (list_result m w f)
  unfolding list_result set_flag
  list_result-Replies es w f s nine =
      let start : Holds w.response_buf 0
          (record { block = w.response_buf; cursor = 9; capacity = 9 }) =
        record {
          rest = [];
          bytes = sym (append-nil w.response_buf);
          at_end = sym nine;
          sized = omega arith;
          roomy = refl;
        } in
      let whole = w.response_buf ++ rows es in
      let size : length whole ≡ 9 + length (rows es) =
        omega (arith, length-append w.response_buf (rows es)) in
      let (b, run, block, capacity) = filled_rows m whole _ granted (
        serialize_list_employee_response-Fills m es w.response_buf _ s.directory.entries start
          (omega (arith, s.directory.small))) in
      let data_len : (b.capacity + (2 ^ 32 - 9)) % 2 ^ 32 ≡ length (rows es) =
        omega (arith, capacity, size, s.directory.small) in
      let (c, flag, word) =
        response_stores w.response_buf (rows es) (be32 (length (rows es))) nine refl in
      (
        record {
          employees = w.employees;
          dbhdr = w.dbhdr;
          response_buf = take 4 w.response_buf ++ (0 ∷ (be32 (length (rows es)) ++ rows es));
          response_buf_size = b.capacity;
          cursor = w.cursor;
        },
        f,
        rw (Serves-live es w f s, run, block, flag, data_len, word),
        record {
          serves = record {
            spare = s.spare;
            array = s.array;
            header = s.header;
            directory = s.directory;
            saved = s.saved;
          };
          response = refl;
          size = capacity ∙ size;
        },
      )

  empty_result-Replies :
      (es : Directory) (w : Work) (f : File)
      → Serves es w f
      → length w.response_buf ≡ 9
      → Replies (es, finished) w (empty_result w f)
  unfolding empty_result set_flag
  empty_result-Replies es w f s nine =
      let (c, flag, word) = response_stores w.response_buf [] (be32 0) nine refl in
      let flag' = rw (append-nil w.response_buf) at flag in
      (
        record w { response_buf = take 4 w.response_buf ++ (0 ∷ be32 0) },
        f,
        rw (flag', word),
        record {
          serves = record {
            spare = s.spare;
            array = s.array;
            header = s.header;
            directory = s.directory;
            saved = s.saved;
          };
          response = refl;
          size = refl;
        },
      )

  pub list_stage-Replies :
      (l : Bool) (es : Directory) (w : Work) (f : File)
      → Serves es w f
      → At w.cursor (list_bytes l) buf
      → length w.response_buf ≡ 9
      → Replies (es, listing l es) w (list_stage m buf (length buf) w f)
  unfolding list_stage
  list_stage-Replies true es w f s a nine =
      rw (option_at-At b'l' w.cursor (b'l' ∷ []) buf a) (list_result-Replies es w f s nine)
  list_stage-Replies false es w f s a nine =
      rw (option_at-At b'l' w.cursor [] buf a) (empty_result-Replies es w f s nine)
