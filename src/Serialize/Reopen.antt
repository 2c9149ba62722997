-- ===== src/Serialize/Reopen.antt =====
-- write_db and the next start of a program: what load_db finds in the file.
use employee_database.Prelude.{
  ℕ, ◌+◌, ◌%◌, ◌^◌, ◌<◌, ◌≤◌, ◌≡◌, ◌≢◌, refl, sym, ap, ◌∙◌, List, [], ◌++◌, arith, length, drop,
  length-append, drop-append, append-nil, All, map, eq→==, ne→==, drop-all, length-drop,
}
use employee_database.Memory.Bytes.{of_be-be32}
use employee_database.Memory.Cursor.{At}
use employee_database.Employee.{IsEntry, Employee, DbHeader, stored}
use employee_database.Employee.Directory.{Directory}
use employee_database.Employee.Prefix.{live-append, length-map}
use employee_database.Proto.Listing.Rows.{rows}
use employee_database.Proto.Listing.Read.{length-rows}
use employee_database.Disk.{
  File, put, overwrite, done, failed, Io, ◌>>=◌, read, write, lseek, fstat,
}
use employee_database.Disk.Content.{overwrite-seam}
use employee_database.Serialize.{
  write_employees, read_employees, header_bytes, write_new_file_hdr, write_db, read_dbhdr, load_db,
}
use employee_database.Serialize.Loop.{quiet-IsClass}
use employee_database.Serialize.Image.{quiet, write_employees-rows, read_employees-rows}

-- The bytes that a directory takes in the file, the header included.
abbrev pub image_size : Directory → ℕ
image_size es = 8 + length (rows es)

-- The file's image of a directory.
abbrev pub image : Directory → List ℕ
image es = header_bytes (image_size es) (length es) ++ rows es

write_employees-quiet :
    (es : Directory) (c : List ℕ) (p : ℕ)
    → All IsEntry es
    → write_employees (map stored es) (quiet c p)
      ≡ done (length (rows es)) (quiet (overwrite c p (rows es)) (p + length (rows es)))
write_employees-quiet es c p i =
    let (t, nil, run) = write_employees-rows (λ s. s ≡ []) es (quiet c p) quiet-IsClass i refl in
    run ∙ ap (λ s. done (length (rows es)) (put (rows es) s (quiet c p))) nil

-- If every system call succeeds in full, the array starts with a well-formed directory whose length
-- is the header's count, and the directory's image is shorter than 2 ^ 32 bytes, write_db on a file
-- with a header of 8 bytes leaves the image of the directory, followed by what the old file had
-- behind that length, and the header gives the image's size and the number of entries.
pub write_db-image :
    (h : DbHeader) (es : Directory) (spare : List Employee) (head tail : List ℕ) (p : ℕ)
    → All IsEntry es
    → h.employee_count ≡ length es
    → image_size es < 2 ^ 32
    → length head ≡ 8
    → write_db h (map stored es ++ spare) (quiet (head ++ tail) p)
      ≡ done
          (record { fsize = image_size es; employee_count = length es })
          (quiet (image es ++ drop (length (rows es)) tail) 8)
unfolding write_db lseek write
write_db-image h es spare head tail p i counted small hd =
    let word : image_size es % 2 ^ 32 ≡ image_size es = omega arith in
    let count : length es % 2 ^ 32 ≡ length es = omega (arith, length-rows es) in
    let tail' = rows es ++ drop (length (rows es)) tail in
    rw (
      counted,
      live-append (length es) (map stored es) spare (sym (length-map stored es)),
      write_employees-quiet es (head ++ tail) 8 i,
      word,
      count,
      overwrite-seam head tail 8 (rows es) (sym hd),
      overwrite-seam [] (head ++ tail') 0 (header_bytes (image_size es) (length es)) refl,
      drop-append 8 head tail' (sym hd),
    )

-- The state of a file that a program has just opened.
abbrev pub opened : List ℕ → File
opened c = quiet c 0

read_dbhdr-image :
    (before : List ℕ) (fsize count : ℕ) (rest : List ℕ)
    → fsize < 2 ^ 32
    → count < 2 ^ 32
    → 8 + length rest ≡ fsize
    → read_dbhdr before (opened (header_bytes fsize count ++ rest))
      ≡ done
          (record { fsize = fsize; employee_count = count })
          (quiet (header_bytes fsize count ++ rest) 8)
unfolding read_dbhdr read fstat
read_dbhdr-image before fsize count rest small few size =
    let whole : length (header_bytes fsize count ++ rest) ≡ fsize = omega (arith, size) in
    rw (of_be-be32 fsize small, of_be-be32 count few, eq→== _ fsize whole)

read_dbhdr_stale :
    (before : List ℕ) (fsize count : ℕ) (rest : List ℕ)
    → fsize < 2 ^ 32
    → 8 + length rest ≢ fsize
    → read_dbhdr before (opened (header_bytes fsize count ++ rest))
      ≡ failed (quiet (header_bytes fsize count ++ rest) 8)
unfolding read_dbhdr read fstat
read_dbhdr_stale before fsize count rest small size =
    let whole : length (header_bytes fsize count ++ rest) ≢ fsize = omega (arith, size) in
    rw (of_be-be32 fsize small, ne→== _ fsize whole)

-- The image of a directory loads as the directory.
pub load_db-image :
    (before : List ℕ) (es : Directory)
    → All IsEntry es
    → image_size es < 2 ^ 32
    → load_db before (opened (image es))
      ≡ done
          (record { fsize = image_size es; employee_count = length es }, map stored es)
          (quiet (image es) (image_size es))
unfolding load_db
load_db-image before es i small =
    let start : At 8 (rows es ++ []) (image es) = record {
      front = header_bytes (image_size es) (length es);
      bytes = ap (λ r. header_bytes (image_size es) (length es) ++ r) (sym (append-nil (rows es)));
      offset = refl;
    } in
    rw (
      read_dbhdr-image before (image_size es) (length es) (rows es) small
          (omega (arith, length-rows es)) refl,
      read_employees-rows es 8 [] (image es) i start,
    )

-- Another start of a program on what is in the file.
abbrev pub restart : List ℕ → DbHeader → Io (DbHeader × List Employee)
restart before h f = load_db before (opened f.content)

module _ (before : List ℕ) (h : DbHeader) (es : Directory) (spare : List Employee)
    (head tail : List ℕ) (p : ℕ) (i : All IsEntry es) (counted : h.employee_count ≡ length es)
    (small : image_size es < 2 ^ 32) (hd : length head ≡ 8) where
  -- If every system call succeeds in full, the array starts with a well-formed directory whose
  -- length is the header's count, the directory's image is shorter than 2 ^ 32 bytes, and the old
  -- file has a header and is not longer than that image, then what write_db saves is what load_db
  -- reads at the next start: the header with the image's size and the number of entries, and the
  -- entries in order.
  pub write_db-load_db :
      length tail ≤ length (rows es)
      → (write_db h (map stored es ++ spare) >>= restart before) (quiet (head ++ tail) p)
        ≡ done
            (record { fsize = image_size es; employee_count = length es }, map stored es)
            (quiet (image es) (image_size es))
  write_db-load_db fits =
      rw
        (
          write_db-image h es spare head tail p i counted small hd,
          drop-all (length (rows es)) tail fits,
          append-nil,
        )
        (load_db-image before es i small)

  -- If every system call succeeds in full, the array starts with a well-formed directory whose
  -- length is the header's count, the directory's image is shorter than 2 ^ 32 bytes, and the old
  -- file has a header and is longer than that image, as after an edit that shortens the directory,
  -- the next start refuses the file that write_db left: read_dbhdr finds a size in the header that
  -- is not the file's size.
  pub write_db_stale :
      length (rows es) < length tail
      → (write_db h (map stored es ++ spare) >>= restart before) (quiet (head ++ tail) p)
        ≡ failed (quiet (image es ++ drop (length (rows es)) tail) 8)
  unfolding load_db
  write_db_stale longer =
      let rest = rows es ++ drop (length (rows es)) tail in
      rw (
        write_db-image h es spare head tail p i counted small hd,
        read_dbhdr_stale before (image_size es) (length es) rest small (
            omega (
              arith,
              length-append (rows es) (drop (length (rows es)) tail),
              length-drop (length (rows es)) tail,
            )),
      )

-- If every system call succeeds in full, an empty file to which write_new_file_hdr wrote its header
-- loads as the empty directory, with the file's size 8.
pub write_new_file_hdr-load_db :
    (before : List ℕ)
    → (write_new_file_hdr >>= λ _ f. load_db before (opened f.content)) (opened [])
      ≡ done (record { fsize = 8; employee_count = 0 }, []) (quiet (image []) 8)
unfolding write_new_file_hdr write overwrite load_db rows read_employees
write_new_file_hdr-load_db before =
    rw (read_dbhdr-image before 8 0 [] (omega arith) (omega arith) refl)
