-- ===== src/Serialize/Image.antt =====
-- What write_employees leaves in the file, and that read_employees reads it back.
use employee_database.Prelude.{
  ℕ, ◌+◌, ◌%◌, ◌^◌, ◌≡◌, refl, sym, ap, subst, ◌∙◌, List, [], ◌∷◌, ◌++◌, arith, length,
  length-append, take-append, drop-append, append_assoc, append-nil, All, map, eq→==,
}
use employee_database.Memory.{ok, load}
use employee_database.Memory.Access.{load-append}
use employee_database.Memory.Bytes.{be16, be32, of_be-be16, of_be-be32}
use employee_database.Memory.Text.{c_string, strlen-c_string}
use employee_database.Memory.Cursor.{At, At-skip}
use employee_database.Employee.{Entry, IsEntry, stored}
use employee_database.Employee.Directory.{Directory}
use employee_database.Proto.Listing.Rows.{row, row-append, rows, length-row}
use employee_database.Disk.{Outcome, File, put, IoResult, done, Io, after, ◌>>=◌, pure, read}
use employee_database.Serialize.{
  write_all, fserialize_employee, read_exact, fdeserialize_employee, write_employees,
  read_employees,
}
use employee_database.Serialize.Loop.{IsClass, put-nil, put-put, write_all-done}

load_whole : (s : List ℕ) (n : ℕ) → n ≡ length s + 1 → load 0 n (c_string s) ≡ ok (c_string s)
load_whole s n e =
    ap (load 0 n) (sym (append-nil (c_string s)))
    ∙ load-append 0 n [] (c_string s) [] refl (omega (arith, length-append s (0 ∷ [])))

module _ (K : List Outcome → Type 0) (class : IsClass K) where
  -- A step of a chain of writes.
  write-then :
      (P : IoResult ℕ → Type 0) (xs front : List ℕ) (s : List Outcome) (f : File) (k : ℕ → Io ℕ)
      → K s
      → ((t : List Outcome) → K t → P (k (length xs) (put (front ++ xs) t f)))
      → P (after (write_all xs (put front s f)) k)
  write-then P xs front s f k clean next =
      let (t, clean', run) = write_all-done K xs (put front s f) class clean in
      rw run (rw (put-put front xs s t f) (next t clean'))

  fserialize_employee-then :
      (P : IoResult ℕ → Type 0) (e : Entry) (front : List ℕ) (s : List Outcome) (f : File)
      → IsEntry e
      → K s
      → ((t : List Outcome) → K t → P (done (length (row e)) (put (front ++ row e) t f)))
      → P (fserialize_employee (stored e) (put front s f))
  unfolding fserialize_employee
  fserialize_employee-then P e front s f i clean next =
      let name_len = length e.name + 1 in
      let address_len = length e.address + 1 in
      let name_fits : name_len % 2 ^ 16 ≡ name_len = omega (arith, i.name_short) in
      let address_fits : address_len % 2 ^ 16 ≡ address_len = omega (arith, i.address_short) in
      let bytes : front
            ++ be16 name_len
            ++ c_string e.name
            ++ be16 address_len
            ++ c_string e.address
            ++ be32 e.hours
          ≡ front ++ row e =
        simp append_assoc in
      let count : length (be16 name_len)
            + length (c_string e.name)
            + length (be16 address_len)
            + length (c_string e.address)
            + length (be32 e.hours)
          ≡ length (row e) =
        omega
          (arith, length-row e, length-append e.name (0 ∷ []), length-append e.address (0 ∷ [])) in
      rw (strlen-c_string e.name i.name_text, name_fits, load_whole e.name name_len refl)
        (write-then P (be16 name_len) front s f _ clean (λ s₁ c₁.
          (write-then P (c_string e.name) _ s₁ f _ c₁ (λ s₂ c₂.
            rw
              (
                strlen-c_string e.address i.address_text,
                address_fits,
                load_whole e.address address_len refl,
              )
              (write-then P (be16 address_len) _ s₂ f _ c₂ (λ s₃ c₃.
                (write-then P (c_string e.address) _ s₃ f _ c₃ (λ s₄ c₄.
                  write-then P (be32 e.hours) _ s₄ f _ c₄
                    (λ s₅ c₅. rw (bytes, count) (next s₅ c₅))))))))))

  write_employees-then :
      (P : IoResult ℕ → Type 0) (es : Directory) (front : List ℕ) (s : List Outcome) (f : File)
      → All IsEntry es
      → K s
      → ((t : List Outcome) → K t → P (done (length (rows es)) (put (front ++ rows es) t f)))
      → P (write_employees (map stored es) (put front s f))
  unfolding write_employees rows
  write_employees-then P [] front s f i clean next = rw (append-nil front) at (next s clean)
  write_employees-then P (e ∷ es) front s f i clean next =
      fserialize_employee-then
        (λ r. P (after r (λ n. write_employees (map stored es) >>= λ rest. pure (n + rest)))) e
        front s f i.0 clean
        (λ t c.
          write_employees-then (λ r. P (after r (λ rest. pure (length (row e) + rest)))) es
            (front ++ row e) t f i.1 c
            (λ u d.
              let count : length (row e) + length (rows es) ≡ length (row e ++ rows es) =
                omega (arith, length-append (row e) (rows es)) in
              rw (append_assoc front (row e) (rows es), count) (next u d)))

-- If no `write` returns -1, however the system splits the writes, write_employees on a well-formed
-- directory writes the rows of its entries at the file's offset, leaves the rest of the file, and
-- returns their length in bytes; this holds with any class of scripts without a refusal that is
-- closed under dropping calls, and the script left is in the class.
pub write_employees-rows :
    (K : List Outcome → Type 0) (es : Directory) (f : File)
    → IsClass K
    → All IsEntry es
    → K f.script
    → (t : List Outcome) × K t
      × (write_employees (map stored es) f ≡ done (length (rows es)) (put (rows es) t f))
write_employees-rows K es f class i clean =
    subst
      (λ g.
        (t : List Outcome) × K t
        × (write_employees (map stored es) g ≡ done (length (rows es)) (put (rows es) t f)))
      (put-nil f.script f)
      (write_employees-then K class
        (λ r. (t : List Outcome) × K t × (r ≡ done (length (rows es)) (put (rows es) t f))) es []
        f.script f i clean (λ t c. (t, c, refl)))

-- A file whose system calls all succeed in full.
abbrev pub quiet : List ℕ → ℕ → File
quiet c p = record { content = c; pos = p; script = [] }

read_exact-At :
    (n p : ℕ) (xs rest c : List ℕ)
    → n ≡ length xs
    → At p (xs ++ rest) c
    → read_exact n (quiet c p) ≡ done xs (quiet c (p + length xs))
unfolding read_exact read
read_exact-At n p xs rest c e a = rw (
  a.bytes,
  drop-append p a.front (xs ++ rest) a.offset,
  take-append n xs rest e,
  eq→== (length xs) n (sym e),
)

fdeserialize_employee-At :
    (p : ℕ) (e : Entry) (rest c : List ℕ)
    → IsEntry e
    → At p (row e ++ rest) c
    → fdeserialize_employee (quiet c p) ≡ done (stored e) (quiet c (p + length (row e)))
unfolding fdeserialize_employee
fdeserialize_employee-At p e rest c i a =
    let n = length e.name + 1 in
    let d = length e.address + 1 in
    let name_len : length (c_string e.name) ≡ n = omega (arith, length-append e.name (0 ∷ [])) in
    let address_len : length (c_string e.address) ≡ d =
      omega (arith, length-append e.address (0 ∷ [])) in
    let a₁ = rw (row-append e rest) at a in
    let a₂ = At-skip p 2 (be16 n) _ c refl a₁ in
    let a₃ = At-skip (p + 2) (length (c_string e.name)) (c_string e.name) _ c refl a₂ in
    let p₃ = p + 2 + length (c_string e.name) in
    let a₄ = At-skip p₃ 2 (be16 d) _ c refl a₃ in
    let a₅ = At-skip (p₃ + 2) (length (c_string e.address)) (c_string e.address) _ c refl a₄ in
    let p₅ = p₃ + 2 + length (c_string e.address) in
    let end : p₅ + 4 ≡ p + length (row e) = omega (arith, length-row e) in
    rw (
      read_exact-At 2 p (be16 n) _ c refl a₁,
      of_be-be16 n i.name_short,
      read_exact-At n (p + 2) (c_string e.name) _ c (sym name_len) a₂,
      read_exact-At 2 p₃ (be16 d) _ c refl a₃,
      of_be-be16 d i.address_short,
      read_exact-At d (p₃ + 2) (c_string e.address) _ c (sym address_len) a₄,
      read_exact-At 4 p₅ (be32 e.hours) rest c refl a₅,
      of_be-be32 e.hours i.hours_word,
      end,
    )

-- read_employees reads back the rows of as many entries as it is asked for.
pub read_employees-rows :
    (es : Directory) (p : ℕ) (rest c : List ℕ)
    → All IsEntry es
    → At p (rows es ++ rest) c
    → read_employees (length es) (quiet c p) ≡ done (map stored es) (quiet c (p + length (rows es)))
unfolding read_employees rows
read_employees-rows [] p rest c i a = ap (λ q. done [] (quiet c q)) (omega arith)
read_employees-rows (e ∷ es) p rest c i a =
    let a₁ : At p (row e ++ (rows es ++ rest)) c = rw (append_assoc (row e) (rows es) rest) at a in
    let a₂ = At-skip p (length (row e)) (row e) (rows es ++ rest) c refl a₁ in
    let end : p + length (row e) + length (rows es) ≡ p + length (row e ++ rows es) =
      omega (arith, length-append (row e) (rows es)) in
    rw (
      fdeserialize_employee-At p e (rows es ++ rest) c i.0 a₁,
      read_employees-rows es (p + length (row e)) rest c i.1 a₂,
      end,
    )
