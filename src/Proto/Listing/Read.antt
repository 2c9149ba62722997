-- ===== src/Proto/Listing/Read.antt =====
-- What the client reads from a list response.
pub mod Fuel
pub mod Lost
use employee_database.Prelude.{
  ℕ, zero, suc, ◌+◌, ◌-◌, ◌*◌, ◌≤◌, ◌<◌, ◌^◌, ◌≡◌, refl, sym, ap, ◌∙◌, true, false, Bool, Option,
  none, some, List, [], ◌∷◌, ◌++◌, arith, length, length-append, length-replicate, append_assoc,
  append-nil, All, map, take, drop, replicate, drop-append, take-append, lt→ltb, le→ltb, eq→==,
  ne→==, ltb, ◌==◌, if◌then◌else◌,
}
use native.Mathlib.Numerals.{add-one}
use employee_database.Memory.{Result, ok, error, ◌>>=◌, ◌>>◌, check, Block, Allocator}
use employee_database.Memory.Bytes.{be16, be32}
use employee_database.Memory.Text.{IsText, c_string, strncpy, strncpy-c_string}
use employee_database.Employee.{Entry, IsEntry, Employee, stored}
use employee_database.Employee.Directory.{Directory}
use employee_database.Employee.Prefix.{length-map}
use employee_database.Memory.Cursor.{At, At-skip}
use employee_database.Proto.Options.Deserialize.{load_u16-At, load_u32-At}
use employee_database.Proto.Listing.{
  Slots, put_slot, grow_slots, read_row, read_rows, deserialize_list_employee_response,
}
use employee_database.Proto.Listing.Rows.{row, row-append, rows, length-row}

-- The elements that hold the entries.
abbrev pub filled : Directory → Slots
filled es = map (λ e. some (stored e)) es

copy_At :
    (at : ℕ) (s rest buf : Block)
    → IsText s
    → At at (c_string s ++ rest) buf
    → strncpy (drop at buf) (length s + 1) ≡ ok (c_string s)
copy_At at s rest buf text a =
    rw (a.bytes, drop-append at a.front (c_string s ++ rest) a.offset)
      (strncpy-c_string s rest (length s + 1) text refl)

read_row-At :
    (at : ℕ) (e : Entry) (rest buf : Block)
    → IsEntry e
    → At at (row e ++ rest) buf
    → read_row buf at ≡ ok (stored e, at + length (row e))
unfolding read_row
read_row-At at e rest buf i a =
    let n = length e.name + 1 in
    let d = length e.address + 1 in
    let name_len : length (c_string e.name) ≡ n = omega (arith, length-append e.name (0 ∷ [])) in
    let address_len : length (c_string e.address) ≡ d =
      omega (arith, length-append e.address (0 ∷ [])) in
    let a₁ = rw (row-append e rest) at a in
    let a₂ = At-skip at 2 (be16 n) _ buf refl a₁ in
    let a₃ = At-skip (at + 2) n (c_string e.name) _ buf (sym name_len) a₂ in
    let a₄ = At-skip (at + 2 + n) 2 (be16 d) _ buf refl a₃ in
    let a₅ = At-skip (at + 2 + n + 2) d (c_string e.address) _ buf (sym address_len) a₄ in
    rw
      (
        load_u16-At at n _ buf i.name_short a₁,
        copy_At (at + 2) e.name _ buf i.name_text a₂,
        load_u16-At (at + 2 + n) d _ buf i.address_short a₃,
        copy_At (at + 2 + n + 2) e.address _ buf i.address_text a₄,
        load_u32-At (at + 2 + n + 2 + d) e.hours rest buf i.hours_word a₅,
      )
      (ap (λ k. ok (stored e, k)) (omega (arith, length-row e)))

-- An array with `k` free elements behind `front`.
abbrev roomy : Slots → ℕ → Slots
roomy front k = front ++ replicate k none

put_slot-roomy :
    (front : Slots) (k : ℕ) (e : Employee)
    → put_slot (length front) e (roomy front (suc k)) ≡ ok (roomy (front ++ (some e ∷ [])) k)
unfolding put_slot
put_slot-roomy [] k e = refl
put_slot-roomy (x ∷ front) k e = rw (put_slot-roomy front k e)

grow_slots-roomy :
    (m : Allocator) (front : Slots) (k : ℕ)
    → grow_slots m (length front) (roomy front (suc k)) ≡ ok (roomy front (suc k))
unfolding grow_slots
grow_slots-roomy m front k = rw (
    ne→== (length front) (length (roomy front (suc k)))
      (omega (arith, length-append front (replicate (suc k) none))))

unread : (at : ℕ) (e : Entry) (rest buf : Block) → At at (row e ++ rest) buf → at < length buf
unread at e rest buf a = omega (
  arith,
  ap length a.bytes,
  length-append a.front (row e ++ rest),
  length-append (row e) rest,
  length-row e,
  a.offset,
)

-- The rounds that the rows of `es` take, and `fuel` more.
steps : Directory → ℕ → ℕ
steps [] fuel = fuel
steps (e ∷ es) fuel = suc (steps es fuel)

steps_lem : (es : Directory) (fuel : ℕ) → steps es fuel ≡ length es + fuel
unfolding steps
steps_lem [] fuel = omega arith
steps_lem (e ∷ es) fuel = omega (arith, steps_lem es fuel)

-- As long as the array has room, each row of the response fills its next element.
read_rows-filled :
    (fuel : ℕ) (m : Allocator) (rest buf : Block) (at : ℕ) (es : Directory) (front : Slots) (k : ℕ)
    → All IsEntry es
    → At at (rows es ++ rest) buf
    → length es ≤ k
    → read_rows (steps es fuel) m buf (length buf) at (roomy front k) (length front)
      ≡ read_rows fuel m buf
          (length buf)
          (at + length (rows es))
          (roomy (front ++ filled es) (k - length es))
          (length front + length es)
unfolding read_rows rows steps
read_rows-filled fuel m rest buf at [] front k i a fits =
    let same_at : at + 0 ≡ at = omega arith in
    let same_room : k - 0 ≡ k = omega arith in
    let same_length : length front + 0 ≡ length front = omega arith in
    rw (append-nil, same_at, same_room, same_length)
read_rows-filled fuel m rest buf at (e ∷ es) front zero i a fits = absurd (omega arith)
read_rows-filled fuel m rest buf at (e ∷ es) front (suc k) i a fits =
    let front' = front ++ (some (stored e) ∷ []) in
    let length' : length front' ≡ length front + 1 =
      omega (arith, length-append front (some (stored e) ∷ [])) in
    let a' : At at (row e ++ (rows es ++ rest)) buf =
      rw (append_assoc (row e) (rows es) rest) at a in
    let ih =
      read_rows-filled fuel m rest buf (at + length (row e)) es front' k i.1
        (At-skip at (length (row e)) (row e) (rows es ++ rest) buf refl a') (omega arith) in
    let room_left : k - length es ≡ suc k - suc (length es) = omega arith in
    let count : length front' + length es ≡ length front + suc (length es) =
      omega (arith, length') in
    let place : at + length (row e) + length (rows es) ≡ at + length (row e ++ rows es) =
      omega (arith, length-append (row e) (rows es)) in
    rw
      (
        lt→ltb at (length buf) (unread at e (rows es ++ rest) buf a'),
        read_row-At at e (rows es ++ rest) buf i.0 a',
        grow_slots-roomy m front k,
        put_slot-roomy front k (stored e),
      )
      (ap
          (λ n.
            read_rows (steps es fuel) m buf (length buf) (at + length (row e)) (roomy front' k) n)
          (sym length')
        ∙ ih
        ∙ rw (append_assoc front (some (stored e) ∷ []) (filled es), room_left, count, place))

-- At the end of the response the loop stops.
read_rows_end :
    (fuel : ℕ) (m : Allocator) (buf : Block) (at : ℕ) (employees : Slots) (n : ℕ)
    → length buf ≤ at
    → read_rows (suc fuel) m buf (length buf) at employees n ≡ ok (employees, n)
unfolding read_rows
read_rows_end fuel m buf at employees n h = rw (le→ltb at (length buf) h)

-- A full array is lost where it grows: the round goes on with a fresh array of twice the size.
read_rows-grown :
    (fuel : ℕ) (m : Allocator) (rest buf : Block) (at : ℕ) (e : Entry) (full : Slots)
    → IsEntry e
    → At at (row e ++ rest) buf
    → 0 < length full
    → m.can_grow (length full * 2 * 24) ≡ true
    → read_rows (suc fuel) m buf (length buf) at full (length full)
      ≡ read_rows (suc fuel) m buf (length buf) at (replicate (length full * 2) none) (length full)
unfolding read_rows grow_slots
read_rows-grown fuel m rest buf at e full i a some_full grown =
    let fresh : Slots = replicate (length full * 2) none in
    let size : length fresh ≡ length full * 2 = length-replicate (length full * 2) none in
    rw (
      lt→ltb at (length buf) (unread at e rest buf a),
      read_row-At at e rest buf i a,
      eq→== (length full) (length full) refl,
      grown,
      ne→== (length full) (length fresh) (omega (arith, size)),
    )

pub length-rows : (es : Directory) → length es ≤ length (rows es)
unfolding rows
length-rows [] = omega arith
length-rows (e ∷ es) = omega (arith, length-append (row e) (rows es), length-row e, length-rows es)

length-filled : (es : Directory) → length (filled es) ≡ length es
length-filled es = length-map (λ (e : Entry). some (stored e)) es

-- From the rows of at most 32 well-formed entries the client's deserialize_list_employee_response
-- reads back those entries in order, if the final `realloc` to that many employees succeeds.
pub deserialize_list_employee_response-rows :
    (m : Allocator) (es : Directory)
    → All IsEntry es
    → length es ≤ 32
    → m.can_grow (length es * 24) ≡ true
    → deserialize_list_employee_response m (rows es) (length (rows es)) ≡ ok (filled es)
unfolding deserialize_list_employee_response
deserialize_list_employee_response-rows m es i few granted =
    let buf = rows es in
    let spare = length buf - length es in
    let rounds : length buf + 1 ≡ steps es (suc spare) =
      omega (arith, steps_lem es (suc spare), length-rows es) in
    let start : At 0 (buf ++ []) buf = record {
      front = [];
      bytes = sym (append-nil buf);
      offset = refl;
    } in
    let count : 0 + length es ≡ length es = omega arith in
    rw (
      rounds,
      read_rows-filled (suc spare) m [] buf 0 es [] 32 i start few,
      read_rows_end spare m buf (0 + length buf) (roomy (filled es) (32 - length es))
          (0 + length es) (omega arith),
      count,
      granted,
      take-append (length es) (filled es) (replicate (32 - length es) none)
          (omega (arith, length-filled es)),
    )
