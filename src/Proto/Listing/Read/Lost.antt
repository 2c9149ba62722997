-- ===== src/Proto/Listing/Read/Lost.antt =====
-- A list response of more than 32 rows: the array that the client grows forgets its first rows.
use employee_database.Prelude.{
  ℕ, zero, suc, Option, ◌+◌, ◌-◌, ◌*◌, ◌≤◌, ◌<◌, ◌≡◌, refl, sym, ap, ◌∙◌, true, none, [], ◌∷◌, ◌++◌,
  arith, length, length-append, length-replicate, append_assoc, append-nil, All, take-append,
  replicate,
}
use employee_database.Memory.{ok, Block, Allocator}
use employee_database.Employee.{Employee, Entry, IsEntry}
use employee_database.Employee.Directory.{Directory}
use employee_database.Memory.Cursor.{At}
use employee_database.Proto.Listing.{read_rows, deserialize_list_employee_response}
use employee_database.Proto.Listing.Rows.{row, rows}
use employee_database.Proto.Listing.Read.{
  filled, roomy, steps, steps_lem, read_rows-filled, read_rows-grown, read_rows_end, length-rows,
  length-filled,
}

rows-append : (front bs : Directory) → rows (front ++ bs) ≡ rows front ++ rows bs
unfolding rows
rows-append [] bs = refl
rows-append (e ∷ front) bs =
    ap (λ r. row e ++ r) (rows-append front bs) ∙ sym (append_assoc (row e) (rows front) (rows bs))

steps-append :
    (front bs : Directory) (fuel : ℕ) → steps (front ++ bs) fuel ≡ steps front (steps bs fuel)
unfolding steps
steps-append [] bs fuel = refl
steps-append (e ∷ front) bs fuel = ap suc (steps-append front bs fuel)

twice : (n : ℕ) → replicate (n * 2) none ≡ roomy (replicate n none) n
twice n = same n n (n * 2) (omega arith)
  where
    same : (a b c : ℕ) → c ≡ a + b → replicate c none ≡ roomy (replicate a none) b
    same zero b c h = ap (λ k. replicate k none) (omega arith)
    same (suc a) b zero h = absurd (omega arith)
    same (suc a) b (suc c) h = ap (λ r. none ∷ r) (same a b c (omega arith))

-- The rounds of a response whose first `n` rows fill the array of `n`.
module _ (m : Allocator) (buf : Block) (n : ℕ) (front : Directory) (e : Entry)
    (es : Directory) where
  read_lost :
      (spare : ℕ)
      → All IsEntry front
      → All IsEntry (e ∷ es)
      → length front ≡ n
      → 0 < n
      → length (e ∷ es) ≤ n
      → m.can_grow (n * 2 * 24) ≡ true
      → At 0 (rows front ++ rows (e ∷ es)) buf
      → At (0 + length (rows front)) (rows (e ∷ es) ++ []) buf
      → length buf ≡ length (rows front) + length (rows (e ∷ es))
      → read_rows
          (steps front (steps (e ∷ es) (suc spare)))
          m
          buf
          (length buf)
          0
          (replicate n none)
          0
        ≡ ok
            (roomy (replicate n none ++ filled (e ∷ es)) (n - length (e ∷ es)), n + length (e ∷ es))
  unfolding steps rows
  read_lost spare hf he full some_n few grown start behind total =
      let at = 0 + length (rows front) in
      let size : length (filled front) ≡ n = length-filled front ∙ full in
      let behind' : At at (row e ++ (rows es ++ [])) buf =
        rw (append_assoc (row e) (rows es) []) at behind in
      let no_room : n - length front ≡ 0 = omega arith in
      let first =
        read_rows-filled (steps (e ∷ es) (suc spare)) m (rows (e ∷ es)) buf 0 front [] n hf start
          (omega arith) in
      let cast₁ : read_rows (steps (e ∷ es) (suc spare)) m buf (length buf) at
            (roomy (filled front) (n - length front)) (0 + length front)
          ≡ read_rows (steps (e ∷ es) (suc spare)) m buf (length buf) at (filled front)
              (length (filled front)) =
        let count : 0 + length front ≡ length (filled front) = omega (arith, size) in
        rw (no_room, append-nil (filled front), count) in
      let growth =
        read_rows-grown (steps es (suc spare)) m (rows es ++ []) buf at e (filled front) he.0
          behind' (omega (arith, size)) (rw size grown) in
      let cast₂ : read_rows (steps (e ∷ es) (suc spare)) m buf (length buf) at
            (replicate (length (filled front) * 2) none) (length (filled front))
          ≡ read_rows (steps (e ∷ es) (suc spare)) m buf (length buf) at
              (roomy (replicate n none) n) (length (replicate {A = Option Employee} n none)) =
        rw (size, twice n, length-replicate {A = Option Employee} n none) in
      let second =
        read_rows-filled (suc spare) m [] buf at (e ∷ es) (replicate n none) n he behind few in
      let last =
        read_rows_end spare m buf (at + length (rows (e ∷ es)))
          (roomy (replicate n none ++ filled (e ∷ es)) (n - length (e ∷ es)))
          (length (replicate {A = Option Employee} n none) + length (e ∷ es))
          (omega (arith, total)) in
      first
      ∙ cast₁
      ∙ growth
      ∙ cast₂
      ∙ second
      ∙ last
      ∙ rw (length-replicate {A = Option Employee} n none)

-- Of the rows of 32 well-formed entries and then of between 1 and 32 more, with no allocation
-- refused, deserialize_list_employee_response keeps only what follows the first 32: the fresh array
-- of 64 that takes the place of the full one starts out unwritten.
pub deserialize_list_employee_response-lost :
    (m : Allocator) (front : Directory) (e : Entry) (es : Directory)
    → All IsEntry front
    → All IsEntry (e ∷ es)
    → length front ≡ 32
    → length (e ∷ es) ≤ 32
    → m.can_grow (32 * 2 * 24) ≡ true
    → m.can_grow ((32 + length (e ∷ es)) * 24) ≡ true
    → deserialize_list_employee_response m
        (rows (front ++ (e ∷ es)))
        (length (rows (front ++ (e ∷ es))))
      ≡ ok (replicate 32 none ++ filled (e ∷ es))
unfolding deserialize_list_employee_response
deserialize_list_employee_response-lost m front e es hf he full few grown granted =
    let buf = rows (front ++ (e ∷ es)) in
    let back = rows (e ∷ es) in
    let spare = length buf - length (front ++ (e ∷ es)) in
    let split : buf ≡ rows front ++ back = rows-append front (e ∷ es) in
    let rounds : length buf + 1 ≡ steps front (steps (e ∷ es) (suc spare)) = omega (
      arith,
      steps_lem (front ++ (e ∷ es)) (suc spare),
      ap (λ n. n) (steps-append front (e ∷ es) (suc spare)),
      length-rows (front ++ (e ∷ es)),
    ) in
    let start : At 0 (rows front ++ back) buf = record {
      front = [];
      bytes = split;
      offset = refl;
    } in
    let behind : At (0 + length (rows front)) (rows (e ∷ es) ++ []) buf = record {
      front = rows front;
      bytes = split ∙ ap (λ r. rows front ++ r) (sym (append-nil back));
      offset = omega arith;
    } in
    let total : length buf ≡ length (rows front) + length back =
      ap length split ∙ length-append (rows front) back in
    rw rounds (
      rw (read_lost m buf 32 front e es spare hf he full (omega arith) few grown start behind total)
        (rw granted (
          ap ok (
            take-append (32 + length (e ∷ es)) (replicate 32 none ++ filled (e ∷ es))
              (replicate (32 - length (e ∷ es)) none) (omega (arith, length-filled (e ∷ es)))))))
