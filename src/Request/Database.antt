-- ===== src/Request/Database.antt =====
-- The database that a request works on: the array, the header and the file hold one directory.
use employee_database.Prelude.{
  ℕ, ◌+◌, ◌^◌, ◌<◌, ◌≡◌, refl, ap, sym, ◌∙◌, List, ◌++◌, arith, length, drop, All, map,
}
use employee_database.Employee.{IsEntry, Employee, DbHeader, stored, live}
use employee_database.Employee.Prefix.{live-append, length-map}
use employee_database.Memory.{ok}
use employee_database.Employee.Directory.{Directory}
use employee_database.Disk.{File, done}
use employee_database.Proto.Listing.Rows.{rows}
use employee_database.Serialize.{header_bytes, write_db}
use employee_database.Serialize.Image.{quiet}
use employee_database.Serialize.Reopen.{image_size, image, write_db-image}
use employee_database.Request.{Work}

-- The file is the image of the directory, perhaps with bytes of an older image behind it, and all
-- system calls on it succeed in full.
pub record Saved (es : Directory) (f : File) : Type 0 where
  pub left : List ℕ
  pub pos : ℕ
  pub file : f ≡ quiet (image es ++ left) pos

-- All entries are well formed, and their image and the list response of them are shorter than
-- 2 ^ 32 bytes.
pub record IsDirectory (es : Directory) : Type 0 where
  pub entries : All IsEntry es
  pub small : 9 + length (rows es) < 2 ^ 32

abbrev pub header_of : Directory → DbHeader
header_of es = record { fsize = image_size es; employee_count = length es }

-- The array starts with the directory, the header describes it, and the file holds it.
pub record Serves (es : Directory) (w : Work) (f : File) : Type 0 where
  pub spare : List Employee
  pub array : w.employees ≡ map stored es ++ spare
  pub header : w.dbhdr ≡ header_of es
  pub directory : IsDirectory es
  pub saved : Saved es f

-- From any earlier directory in the file, write_db saves the new one.
pub write_db-Saved :
    (h : DbHeader) (old es : Directory) (spare : List Employee) (f : File)
    → IsDirectory es
    → h.employee_count ≡ length es
    → Saved old f
    → (g : File) × Saved es g × (write_db h (map stored es ++ spare) f ≡ done (header_of es) g)
write_db-Saved h old es spare f d counted o = (
  quiet (image es ++ drop (length (rows es)) (rows old ++ o.left)) 8,
  record { left = drop (length (rows es)) (rows old ++ o.left); pos = 8; file = refl },
  ap (write_db h (map stored es ++ spare)) o.file
      ∙ write_db-image h es spare (header_bytes (image_size old) (length old)) (rows old ++ o.left)
          o.pos d.entries counted (omega (arith, d.small)) refl,
)

-- The live part of the array is the directory.
pub Serves-live :
    (es : Directory) (w : Work) (f : File)
    → Serves es w f
    → live w.dbhdr.employee_count w.employees ≡ ok (map stored es)
Serves-live es w f s =
    ap (λ h. live h.employee_count w.employees) s.header
    ∙ ap (live (length es)) s.array
    ∙ live-append (length es) (map stored es) s.spare (sym (length-map stored es))
