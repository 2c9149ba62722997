-- ===== src/Request/Update.antt =====
-- The update stage of a request.
use employee_database.Prelude.{
  ℕ, ◌+◌, ◌≡◌, refl, sym, ap, ◌∙◌, Option, none, some, List, [], ◌∷◌, ◌++◌, arith, length, map,
  false, drop, drop-append,
}
use employee_database.Memory.{Block, Allocator}
use employee_database.Memory.Cursor.{At, At-skip}
use employee_database.Employee.{stored}
use employee_database.Employee.Prefix.{length-map}
use employee_database.Employee.Directory.{Directory, set_hours}
use employee_database.Disk.{File}
use employee_database.Proto.Options.Format.{update_fields}
use employee_database.Proto.Options.Deserialize.{deserialize_update_employee_option-At}
use employee_database.Proto.Listing.Rows.{rows}
use employee_database.Request.{Work, update_result, update_option, update_stage}
use employee_database.Request.Search.{first_is}
use employee_database.Request.Database.{Serves, IsDirectory, header_of, write_db-Saved, Serves-live}
use employee_database.Request.Meaning.{updated, update_bytes, IsUpdate}
use employee_database.Request.Edits.{stored_all, update_found-set_hours, All-IsText}
use employee_database.Request.Fits.{Fits, Counts, set_hours-Fits, set_hours-Counts}
use employee_database.Request.Stages.{option_at-At, Ends, set_flag-store, Serves-Refused}

-- What follows the search.
update_result-Ends :
    (buf : Block) (o : Option Directory) (rest : Block) (es : Directory) (w : Work) (f : File)
    (cursor : ℕ)
    → Serves es w f
    → At cursor rest buf
    → length w.response_buf ≡ 9
    → Fits (length (rows es)) o
    → Counts (length es) o
    → Ends buf es rest w o (update_result (record w { cursor = cursor }) (stored_all o) f)
unfolding update_result
update_result-Ends buf none rest es w f cursor s a nine fits count = (
  _,
  f,
  rw (set_flag-store 1 (record w { cursor = cursor }) f nine),
  Serves-Refused es w f cursor s,
)
update_result-Ends buf (some ds) rest es w f cursor s a nine fits count =
    let d : IsDirectory ds = record {
      entries = fits.0;
      small = omega (arith, fits.1, s.directory.small);
    } in
    let (g, saved, run) =
      write_db-Saved w.dbhdr es ds s.spare f d (ap (λ h. h.employee_count) s.header ∙ sym count)
        s.saved in
    let left : drop w.dbhdr.employee_count w.employees ≡ s.spare =
      rw (s.array, ap (λ h. h.employee_count) s.header)
        (drop-append (length es) (map stored es) s.spare (sym (length-map stored es))) in
    (
      record {
        employees = map stored ds ++ s.spare;
        dbhdr = header_of ds;
        response_buf = w.response_buf;
        response_buf_size = w.response_buf_size;
        cursor = cursor;
      },
      g,
      rw (left, run),
      record {
        serves = record {
          spare = s.spare;
          array = refl;
          header = refl;
          directory = d;
          saved = saved;
        };
        at = a;
        response = refl;
        size = refl;
      },
    )

module _ (m : Allocator) (buf : Block) where
  -- The update stage gives the first entry of the name its hours and saves, or ends the request.
  pub update_stage-updated :
      (o : Option (List ℕ × ℕ)) (rest : Block) (es : Directory) (w : Work) (f : File)
      → first_is b'u' rest ≡ false
      → IsUpdate o
      → Serves es w f
      → At w.cursor (update_bytes o ++ rest) buf
      → length w.response_buf ≡ 9
      → Ends buf es rest w (updated o es) (update_stage m buf (length buf) w f)
  unfolding update_stage update_option
  update_stage-updated none rest es w f absent u s a nine = (
    w,
    f,
    rw (option_at-At b'u' w.cursor rest buf a, absent),
    record { serves = s; at = a; response = refl; size = refl },
  )
  update_stage-updated (some (name, hours)) rest es w f absent u s a nine =
      let fields = At-skip w.cursor 1 (b'u' ∷ []) (update_fields name hours ++ rest) buf refl a in
      let next =
        At-skip (w.cursor + 1) (length (update_fields name hours)) (update_fields name hours) rest
          buf refl fields in
      rw
        (
          option_at-At b'u' w.cursor (update_bytes (some (name, hours)) ++ rest) buf a,
          deserialize_update_employee_option-At (w.cursor + 1) rest buf name hours u.0 u.1 fields,
          Serves-live es w f s,
          update_found-set_hours name hours es u.0.text (All-IsText es s.directory.entries),
        )
        (update_result-Ends buf (set_hours name hours es) rest es w f _ s next nine
          (set_hours-Fits name hours es u.1 s.directory.entries) (set_hours-Counts name hours es))
