-- ===== src/Startup/Files.antt =====
-- The database file that a program opens or makes.
use employee_database.Prelude.{◌≡◌, refl, Bool, true, false, none, some, []}
use employee_database.Employee.Directory.{Directory}
use employee_database.Disk.{write, overwrite, lseek}
use employee_database.Proto.Listing.Rows.{rows}
use employee_database.Serialize.{write_new_file_hdr}
use employee_database.Serialize.Reopen.{image, opened}
use employee_database.Startup.{started, Storage, open_db, new_header}

-- The file is to be made, and there is none, or it holds the directory; every call on it succeeds.
abbrev pub Offers : Bool → Storage → Directory → Type 0
Offers true d es = (d ≡ record { existing = none; granted = true; script = [] }) × (es ≡ [])
Offers false d es = d ≡ record { existing = some (image es); granted = true; script = [] }

-- The program goes on with the image of the directory, at its start.
pub open_db-opened :
    (new : Bool) (d : Storage) (es : Directory)
    → Offers new d es
    → open_db new d ≡ started (opened (image es))
unfolding open_db new_header write_new_file_hdr write overwrite lseek rows
open_db-opened true d es (e, none_yet) = rw (e, none_yet) refl
open_db-opened false d es e = rw e refl
