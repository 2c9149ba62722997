-- ===== src/Request/Stages.antt =====
-- Each stage of a request carries out its option on the database, or passes on what it was given.
use employee_database.Prelude.{
  ℕ, ◌+◌, ◌-◌, ◌%◌, ◌^◌, ◌<◌, ◌≡◌, refl, sym, ap, ◌∙◌, Bool, Option, none, some, [], ◌∷◌, ◌++◌,
  arith, drop, take, length, map, All-append_split, ◌*◌, length-append, true, false, lt→ltb, le→ltb,
  append-nil,
}
use employee_database.Memory.{ok, Block, Allocator, store}
use employee_database.Memory.Access.{load-append}
use employee_database.Memory.Cursor.{At, At-skip}
use employee_database.Employee.{Entry, IsEntry, DbHeader, stored}
use employee_database.Employee.Prefix.{live-append, length-map}
use employee_database.Employee.Directory.{Directory}
use employee_database.Disk.{File, IoResult, done}
use employee_database.Proto.Options.Format.{add_fields}
use employee_database.Proto.Options.Deserialize.{deserialize_add_employee_option-At}
use employee_database.Proto.Listing.Read.{length-rows}
use employee_database.Request.{Work, set_flag, add_option, add_stage}
use employee_database.Request.Search.{option_at, first_is}
use employee_database.Request.Database.{Serves, IsDirectory, header_of, write_db-Saved}
use employee_database.Request.Meaning.{added, add_bytes, reply_bytes, missing}
use mathlib.Core.List.{map-append}

-- The test for an option reads the letter at the cursor.
pub option_at-At :
    (letter at : ℕ) (rest buf : Block)
    → At at rest buf
    → option_at letter buf (length buf) at ≡ ok (first_is letter rest)
unfolding option_at
option_at-At letter at [] buf a =
    rw (
      le→ltb at (length buf) (omega (arith, a.offset, ap length a.bytes, length-append a.front [])))
option_at-At letter at (b ∷ rest) buf a =
    let inside : at < length buf =
      omega (arith, a.offset, ap length a.bytes, length-append a.front (b ∷ rest)) in
    rw
      (lt→ltb at (length buf) inside, a.bytes, load-append at 1 a.front (b ∷ []) rest a.offset refl)

-- What a stage hands to the next one.
pub record Next (buf : Block) (es : Directory) (rest : Block) (w w' : Work) (g : File)
    : Type 0 where
  pub serves : Serves es w' g
  pub at : At w'.cursor rest buf
  pub response : w'.response_buf ≡ w.response_buf
  pub size : w'.response_buf_size ≡ w.response_buf_size

module _ (m : Allocator) (granted : (n : ℕ) → m.can_grow n ≡ true) (buf : Block) where
  add_option-added :
      (e : Entry) (rest : Block) (es : Directory) (w : Work) (f : File)
      → Serves es w f
      → At w.cursor (add_bytes (some e) ++ rest) buf
      → IsDirectory (es ++ (e ∷ []))
      → (w' : Work) × (g : File) × (add_option m buf (length buf) w f ≡ done w' g)
        × Next buf (es ++ (e ∷ [])) rest w w' g
  unfolding add_option
  add_option-added e rest es w f s a d =
      let ds = es ++ (e ∷ []) in
      let few : length ds < 2 ^ 32 = omega (arith, d.small, length-rows ds) in
      let one : length ds ≡ length es + 1 = omega (arith, length-append es (e ∷ [])) in
      let count : (length es + 1) % 2 ^ 32 ≡ length ds = omega (arith, few, one) in
      let index : (length ds + (2 ^ 32 - 1)) % 2 ^ 32 ≡ length es = omega (arith, few, one) in
      let grown : map stored es ++ (stored e ∷ []) ≡ map stored ds ++ [] =
        sym (append-nil (map stored ds) ∙ map-append stored es (e ∷ [])) in
      let i = (All-append_split IsEntry es (e ∷ []) d.entries).1.0 in
      let fields = At-skip w.cursor 1 (b'a' ∷ []) (add_fields e ++ rest) buf refl a in
      let next =
        At-skip (w.cursor + 1) (length (add_fields e)) (add_fields e) rest buf refl fields in
      let h : DbHeader = record { fsize = w.dbhdr.fsize; employee_count = length ds } in
      let (g, saved, run) = write_db-Saved h es ds [] f d refl s.saved in
      (
        record {
          employees = map stored ds ++ [];
          dbhdr = header_of ds;
          response_buf = w.response_buf;
          response_buf_size = w.response_buf_size;
          cursor = w.cursor + 1 + length (add_fields e);
        },
        g,
        rw (
          ap (λ h. h.employee_count) s.header,
          count,
          granted (length ds * 24),
          index,
          s.array,
          live-append (length es) (map stored es) s.spare (sym (length-map stored es)),
          deserialize_add_employee_option-At (w.cursor + 1) rest buf e
              (record { text = i.name_text; short = omega (arith, i.name_short) })
              (record { text = i.address_text; short = omega (arith, i.address_short) })
              i.hours_word fields,
          grown,
          run,
        ),
        record {
          serves = record { spare = []; array = refl; header = refl; directory = d; saved = saved };
          at = next;
          response = refl;
          size = refl;
        },
      )

  -- The add stage appends the new entry and saves, if the option is there.
  pub add_stage-added :
      (o : Option Entry) (rest : Block) (es : Directory) (w : Work) (f : File)
      → first_is b'a' rest ≡ false
      → Serves es w f
      → At w.cursor (add_bytes o ++ rest) buf
      → IsDirectory (added o es)
      → (w' : Work) × (g : File) × (add_stage m buf (length buf) w f ≡ done w' g)
        × Next buf (added o es) rest w w' g
  unfolding add_stage
  add_stage-added none rest es w f absent s a d = (
    w,
    f,
    rw (option_at-At b'a' w.cursor rest buf a, absent),
    record { serves = s; at = a; response = refl; size = refl },
  )
  add_stage-added (some e) rest es w f absent s a d =
      rw (option_at-At b'a' w.cursor (add_bytes (some e) ++ rest) buf a)
        (add_option-added e rest es w f s a d)

-- The function has returned with the flag 1 in the response, because a name was missing.
pub record Refused (es : Directory) (w w' : Work) (g : File) : Type 0 where
  pub serves : Serves es w' g
  pub response : w'.response_buf ≡ reply_bytes w.response_buf missing
  pub size : w'.response_buf_size ≡ w.response_buf_size

-- How a stage with a search ends, by what the edit gives.
abbrev pub Ends :
    Block → Directory → Block → Work → Option Directory → IoResult (Work × Bool) → Type 0
Ends buf es rest w none r = (w' : Work) × (g : File) × (r ≡ done (w', true) g) × Refused es w w' g
Ends buf es rest w (some ds) r =
    (w' : Work) × (g : File) × (r ≡ done (w', false) g) × Next buf ds rest w w' g

-- The flag is stored at offset 4 of the response.
pub set_flag-store :
    (flag : ℕ) (w : Work) (f : File)
    → length w.response_buf ≡ 9
    → set_flag flag w f
      ≡ done (record w { response_buf = take 4 w.response_buf ++ (flag ∷ drop 5 w.response_buf) }) f
unfolding set_flag store
set_flag-store flag w f nine = rw (nine)

pub Serves-Refused :
    (es : Directory) (w : Work) (f : File) (cursor : ℕ)
    → Serves es w f
    → Refused es w
        (record w { cursor = cursor; response_buf = reply_bytes w.response_buf missing })
        f
Serves-Refused es w f cursor s = record {
  serves = record {
    spare = s.spare;
    array = s.array;
    header = s.header;
    directory = s.directory;
    saved = s.saved;
  };
  response = refl;
  size = refl;
}
