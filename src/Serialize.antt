-- ===== src/Serialize.antt =====
-- src/serialize.c: employees and the header in the database file, and in a buffer.
pub mod Loop
pub mod Image
pub mod Reopen
pub mod InMemory
use employee_database.Prelude.{
  ℕ, zero, suc, ◌+◌, ◌*◌, ◌%◌, ◌^◌, List, [], ◌∷◌, ◌++◌, length, take, drop, ◌==◌,
}
use employee_database.Memory.{Result, Block, load}
use employee_database.Memory.Bytes.{be16, be32, of_be}
use employee_database.Memory.Text.{strlen}
use employee_database.Employee.{Employee, DbHeader, live}
use employee_database.Disk.{
  Outcome, partial, refused, File, put, IoResult, done, failed, crash, Io, ◌>>=◌, ◌>>◌, pure, lift,
  check, write, read, lseek, fstat,
}

-- The loop of write_all: what is left to write, and the bytes written so far. The script is an
-- argument, since each round takes one entry of it; a round writes a byte at least.
write_loop : List Outcome → List ℕ → ℕ → Io ℕ
write_loop s [] total f = done total (record f { script = s })
write_loop [] (x ∷ xs) total f = done (total + length (x ∷ xs)) (put (x ∷ xs) [] f)
write_loop (partial k ∷ s) (x ∷ xs) total f =
    write_loop s (drop k xs) (total + length (take (suc k) (x ∷ xs)))
      (put (take (suc k) (x ∷ xs)) s f)
write_loop (refused ∷ s) (x ∷ xs) total f = failed (record f { script = s })

unfoldable pub write_all : List ℕ → Io ℕ
unfolding write_loop
write_all buf f = write_loop f.script buf 0 f

unfoldable pub fserialize_employee : Employee → Io ℕ
fserialize_employee e = do
  name_strlen ← lift (strlen e.name)
  let name_len = (name_strlen + 1) % 2 ^ 16
  n₁ ← write_all (be16 name_len)
  name ← lift (load 0 name_len e.name)
  n₂ ← write_all name
  address_strlen ← lift (strlen e.address)
  let address_len = (address_strlen + 1) % 2 ^ 16
  n₃ ← write_all (be16 address_len)
  address ← lift (load 0 address_len e.address)
  n₄ ← write_all address
  n₅ ← write_all (be32 e.hours)
  pure (n₁ + n₂ + n₃ + n₄ + n₅)

-- `read(fd, buf, n) != n` is an error.
read_exact : ℕ → Io (List ℕ)
read_exact n = do bytes ← read n; check (length bytes == n); pure bytes

unfoldable pub fdeserialize_employee : Io Employee
unfolding read_exact
fdeserialize_employee = do
  name_len ← read_exact 2
  name ← read_exact (of_be name_len 0)
  address_len ← read_exact 2
  address ← read_exact (of_be address_len 0)
  hours ← read_exact 4
  pure (record { name = name; address = address; hours = of_be hours 0 })

unfoldable pub write_employees : List Employee → Io ℕ
write_employees [] = pure 0
write_employees (e ∷ es) = do
  nbytes ← fserialize_employee e
  rest ← write_employees es
  pure (nbytes + rest)

unfoldable pub read_employees : ℕ → Io (List Employee)
read_employees zero = pure []
read_employees (suc n) = do e ← fdeserialize_employee; es ← read_employees n; pure (e ∷ es)

-- A header as it stands in the file.
abbrev pub header_bytes : ℕ → ℕ → List ℕ
header_bytes fsize employee_count = be32 fsize ++ be32 employee_count

unfoldable pub write_new_file_hdr : Io (Unit {0})
write_new_file_hdr = do _ ← write (header_bytes 8 0); pure tt

-- The array `employees` may be longer than `employee_count`. The header comes back in host order.
unfoldable pub write_db : DbHeader → List Employee → Io DbHeader
write_db dbhdr employees = do
  lseek 8
  current ← lift (live dbhdr.employee_count employees)
  nbytes_written ← write_employees current
  let fsize = (8 + nbytes_written) % 2 ^ 32
  lseek 0
  _ ← write (header_bytes fsize dbhdr.employee_count)
  pure (record { fsize = fsize; employee_count = dbhdr.employee_count % 2 ^ 32 })

-- `before` is what the header struct held: a short read leaves its last bytes as they were.
unfoldable pub read_dbhdr : List ℕ → Io DbHeader
read_dbhdr before = do
  got ← read 8
  let bytes = got ++ drop (length got) before
  let fsize = of_be (take 4 bytes) 0
  st_size ← fstat
  check (st_size == fsize)
  pure (record { fsize = fsize; employee_count = of_be (take 4 (drop 4 bytes)) 0 })

-- What both programs do with an open file: read the header, then as many employees as it counts.
unfoldable pub load_db : List ℕ → Io (DbHeader × List Employee)
load_db before = do
  dbhdr ← read_dbhdr before
  employees ← read_employees dbhdr.employee_count
  pure (dbhdr, employees)
