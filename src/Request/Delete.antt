-- ===== src/Request/Delete.antt =====
-- The delete stage of a request.
use employee_database.Prelude.{
  ℕ, ◌+◌, ◌-◌, ◌%◌, ◌^◌, ◌<◌, ◌≡◌, refl, sym, ap, Option, none, some, List, [], ◌∷◌, ◌++◌, arith,
  length, map, append_assoc, false, drop, drop-append,
}
use employee_database.Memory.{Block, Allocator}
use employee_database.Memory.Cursor.{At, At-skip}
use employee_database.Employee.{Entry, Employee, DbHeader, stored}
use employee_database.Employee.Prefix.{length-map}
use employee_database.Employee.Directory.{Directory, delete_entry, last_entry}
use employee_database.Disk.{File}
use employee_database.Proto.Options.Format.{sized_text}
use employee_database.Proto.Options.Deserialize.{deserialize_delete_employee_option-At}
use employee_database.Proto.Listing.Rows.{rows}
use employee_database.Proto.Listing.Read.{length-rows}
use employee_database.Request.{Work, delete_result, delete_option, delete_stage}
use employee_database.Request.Search.{first_is}
use employee_database.Request.Database.{Serves, IsDirectory, header_of, write_db-Saved, Serves-live}
use employee_database.Request.Meaning.{deleted, delete_bytes, IsDelete}
use employee_database.Request.Edits.{
  with_last, with_last_of, delete_search-delete_entry, All-IsText,
}
use employee_database.Request.Fits.{Fits, Counts, delete_entry-Fits, delete_entry-Counts}
use employee_database.Request.Stages.{option_at-At, Ends, set_flag-store, Serves-Refused}

-- What follows the search.
delete_result-Ends :
    (buf : Block) (o : Option Directory) (rest : Block) (e : Entry) (es : Directory) (w : Work)
    (f : File) (cursor : ℕ)
    → Serves (e ∷ es) w f
    → At cursor rest buf
    → length w.response_buf ≡ 9
    → Fits (length (rows (e ∷ es))) o
    → Counts (length es) o
    → Ends buf
        (e ∷ es)
        rest
        w
        o
        (delete_result (record w { cursor = cursor }) (with_last (last_entry e es) o) f)
unfolding delete_result
delete_result-Ends buf none rest e es w f cursor s a nine fits count = (
  _,
  f,
  rw (set_flag-store 1 (record w { cursor = cursor }) f nine),
  Serves-Refused (e ∷ es) w f cursor s,
)
delete_result-Ends buf (some ds) rest e es w f cursor s a nine fits count =
    let d : IsDirectory ds = record {
      entries = fits.0;
      small = omega (arith, fits.1, s.directory.small);
    } in
    let counted = ap (λ h. h.employee_count) s.header in
    let few : length (e ∷ es) < 2 ^ 32 = omega (arith, s.directory.small, length-rows (e ∷ es)) in
    let one_less : (length (e ∷ es) + (2 ^ 32 - 1)) % 2 ^ 32 ≡ length ds =
      omega (arith, few, count) in
    let spare : List Employee = stored (last_entry e es) ∷ s.spare in
    let h : DbHeader = record { fsize = w.dbhdr.fsize; employee_count = length ds } in
    let (g, saved, run) = write_db-Saved h (e ∷ es) ds spare f d refl s.saved in
    let left : drop (length (e ∷ es)) w.employees ≡ s.spare = rw s.array (
      drop-append (length (e ∷ es)) (map stored (e ∷ es)) s.spare
        (sym (length-map stored (e ∷ es)))) in
    (
      record {
        employees = map stored ds ++ spare;
        dbhdr = header_of ds;
        response_buf = w.response_buf;
        response_buf_size = w.response_buf_size;
        cursor = cursor;
      },
      g,
      rw (
        counted,
        left,
        one_less,
        append_assoc (map stored ds) (stored (last_entry e es) ∷ []) s.spare,
        run,
      ),
      record {
        serves = record {
          spare = spare;
          array = refl;
          header = refl;
          directory = d;
          saved = saved;
        };
        at = a;
        response = refl;
        size = refl;
      },
    )

delete_found-Ends :
    (buf : Block) (name : List ℕ) (rest : Block) (es : Directory) (w : Work) (f : File) (cursor : ℕ)
    → Serves es w f
    → At cursor rest buf
    → length w.response_buf ≡ 9
    → Ends buf es rest w
        (delete_entry name es)
        (delete_result (record w { cursor = cursor }) (with_last_of es (delete_entry name es)) f)
unfolding delete_result
delete_found-Ends buf name rest [] w f cursor s a nine = (
  _,
  f,
  rw (set_flag-store 1 (record w { cursor = cursor }) f nine),
  Serves-Refused [] w f cursor s,
)
delete_found-Ends buf name rest (e ∷ es) w f cursor s a nine =
    let less : length (e ∷ es) - 1 ≡ length es = omega arith in
    delete_result-Ends buf (delete_entry name (e ∷ es)) rest e es w f cursor s a nine
      (delete_entry-Fits name (e ∷ es) s.directory.entries)
      (rw less at (delete_entry-Counts name (e ∷ es)))

module _ (m : Allocator) (buf : Block) where
  -- The delete stage deletes the first entry of the name and saves, or ends the request.
  pub delete_stage-deleted :
      (o : Option (List ℕ)) (rest : Block) (es : Directory) (w : Work) (f : File)
      → first_is b'd' rest ≡ false
      → IsDelete o
      → Serves es w f
      → At w.cursor (delete_bytes o ++ rest) buf
      → length w.response_buf ≡ 9
      → Ends buf es rest w (deleted o es) (delete_stage m buf (length buf) w f)
  unfolding delete_stage delete_option
  delete_stage-deleted none rest es w f absent u s a nine = (
    w,
    f,
    rw (option_at-At b'd' w.cursor rest buf a, absent),
    record { serves = s; at = a; response = refl; size = refl },
  )
  delete_stage-deleted (some name) rest es w f absent u s a nine =
      let fields = At-skip w.cursor 1 (b'd' ∷ []) (sized_text name ++ rest) buf refl a in
      let next =
        At-skip (w.cursor + 1) (length (sized_text name)) (sized_text name) rest buf refl fields in
      rw
        (
          option_at-At b'd' w.cursor (delete_bytes (some name) ++ rest) buf a,
          deserialize_delete_employee_option-At (w.cursor + 1) rest buf name u fields,
          Serves-live es w f s,
          delete_search-delete_entry name es u.text (All-IsText es s.directory.entries),
        )
        (delete_found-Ends buf name rest es w f _ s next nine)
