-- ===== src/Serialize/InMemory/Overrun.antt =====
-- serialize_employee writes past its buffer, and what deserialize_employee reads of its format.
use employee_database.Prelude.{
  ℕ, ◌+◌, ◌*◌, ◌%◌, ◌^◌, ◌<◌, ◌≡◌, refl, ap, true, [], ◌∷◌, ◌++◌, arith, length, drop, append_assoc,
  length-append, lt→leb, drop-append,
}
use employee_database.Memory.{Result, ok, fault, Block, Allocator, fresh, store}
use employee_database.Memory.Access.{length-fresh}
use employee_database.Memory.Bytes.{be16, be32}
use employee_database.Memory.Cursor.{At, At-skip}
use employee_database.Memory.Text.{c_string, strlen-c_string, strncpy_whole}
use employee_database.Employee.{Entry, IsEntry, Employee, stored}
use employee_database.Proto.Buffer.{Buffer, emit}
use employee_database.Proto.Buffer.Room.{Holds, emit-then}
use employee_database.Proto.Options.Deserialize.{load_u16-At, load_u32-At}
use employee_database.Serialize.InMemory.{new_buffer, serialize_employee, deserialize_employee}

-- A store of more bytes than there is room for.
emit-fault :
    (xs written : Block) (room : ℕ) (b : Buffer)
    → Holds written room b
    → room < length xs
    → emit xs b ≡ fault
unfolding emit store
emit-fault xs written room b h over = rw (
    lt→leb (b.cursor + length xs) (length b.block)
      (omega (arith, h.at_end, h.roomy, over, ap length h.bytes, length-append written h.rest)))

drop-At : (at : ℕ) (rest buf : Block) → At at rest buf → drop at buf ≡ rest
drop-At at rest buf a = rw a.bytes (drop-append at a.front rest a.offset)

-- If no allocation is refused, serialize_employee writes past its buffer on every well-formed
-- entry: the hours are stored behind two extra terminators that the buffer has no room for.
pub serialize_employee-fault :
    (m : Allocator) (e : Entry)
    → IsEntry e
    → ((n : ℕ) → m.can_grow n ≡ true)
    → serialize_employee m (stored e) ≡ fault
unfolding serialize_employee
serialize_employee-fault m e i granted =
    let n = length e.name + 1 in
    let a = length e.address + 1 in
    let name_fits : n % 2 ^ 16 ≡ n = omega (arith, i.name_short) in
    let address_fits : a % 2 ^ 16 ≡ a = omega (arith, i.address_short) in
    let size = n + a + 2 * 2 + 4 in
    let P = λ (r : Result Buffer). r ≡ fault in
    let start : Holds [] size (new_buffer m size) = record {
      rest = fresh m.junk 0 size;
      bytes = refl;
      at_end = refl;
      sized = omega (arith, length-fresh m.junk 0 size);
      roomy = length-fresh m.junk 0 size;
    } in
    let l = length-append e.name (0 ∷ []) in
    let k = length-append e.address (0 ∷ []) in
    rw
      (
        strlen-c_string e.name i.name_text,
        strlen-c_string e.address i.address_text,
        name_fits,
        address_fits,
        granted size,
      )
      (emit-then P (be16 n) [] size _ _ start (omega arith) (λ c₁ h₁.
        rw (strncpy_whole e.name n i.name_text refl) (
          emit-then P (c_string e.name) _ _ c₁ _ h₁ (omega (arith, l)) (λ c₂ h₂.
            emit-then P (0 ∷ []) _ _ c₂ _ h₂ (omega (arith, l)) (λ c₃ h₃.
              emit-then P (be16 a) _ _ c₃ _ h₃ (omega (arith, l)) (λ c₄ h₄.
                rw (strncpy_whole e.address a i.address_text refl) (
                  emit-then P (c_string e.address) _ _ c₄ _ h₄ (omega (arith, l, k)) (λ c₅ h₅.
                    emit-then P (0 ∷ []) _ _ c₅ _ h₅ (omega (arith, l, k)) (λ c₆ h₆.
                      rw (emit-fault (be32 e.hours) _ _ c₆ h₆ (omega (arith, l, k))))))))))))

-- What serialize_employee means to write: each text behind its length, with two terminators, and
-- the hours.
abbrev pub intended : Entry → Block
intended e =
    be16 (length e.name + 1)
    ++ (c_string e.name
        ++ ((0 ∷ [])
            ++ (be16 (length e.address + 1) ++ (c_string e.address ++ ((0 ∷ []) ++ be32 e.hours)))))

-- From the bytes that serialize_employee means to write for a well-formed entry, with two
-- terminators behind each text, deserialize_employee reads an employee whose name and address point
-- at the entry's texts in the buffer, and the entry's hours.
pub deserialize_employee-intended :
    (e : Entry) (rest : Block)
    → IsEntry e
    → (d : Employee) × (s : Block) × (t : Block) × (deserialize_employee (intended e ++ rest)
        ≡ ok d)
      × (d.name ≡ c_string e.name ++ s)
      × (d.address ≡ c_string e.address ++ t)
      × (d.hours ≡ e.hours)
unfolding deserialize_employee
deserialize_employee-intended e rest i =
    let buf = intended e ++ rest in
    let n = length e.name + 1 in
    let d = length e.address + 1 in
    let l : n ≡ length (c_string e.name) = omega (arith, length-append e.name (0 ∷ [])) in
    let k : d ≡ length (c_string e.address) = omega (arith, length-append e.address (0 ∷ [])) in
    let tail₆ = be32 e.hours ++ rest in
    let tail₅ = (0 ∷ []) ++ tail₆ in
    let tail₄ = c_string e.address ++ tail₅ in
    let tail₃ = be16 d ++ tail₄ in
    let tail₂ = (0 ∷ []) ++ tail₃ in
    let tail₁ = c_string e.name ++ tail₂ in
    let a₀ : At 0 (be16 n ++ tail₁) buf = record {
      front = [];
      bytes = simp append_assoc;
      offset = refl;
    } in
    let a₁ = At-skip 0 2 (be16 n) tail₁ buf refl a₀ in
    let a₂ = At-skip 2 n (c_string e.name) tail₂ buf l a₁ in
    let a₃ = At-skip (2 + n) 1 (0 ∷ []) tail₃ buf refl a₂ in
    let a₄ = At-skip (2 + n + 1) 2 (be16 d) tail₄ buf refl a₃ in
    let a₅ = At-skip (2 + n + 1 + 2) d (c_string e.address) tail₅ buf k a₄ in
    let a₆ = At-skip (2 + n + 1 + 2 + d) 1 (0 ∷ []) tail₆ buf refl a₅ in
    (
      record { name = drop 2 buf; address = drop (2 + n + 1 + 2) buf; hours = e.hours },
      tail₂,
      tail₅,
      rw (
        load_u16-At 0 n tail₁ buf i.name_short a₀,
        load_u16-At (2 + n + 1) d tail₄ buf i.address_short a₃,
        load_u32-At (2 + n + 1 + 2 + d + 1) e.hours rest buf i.hours_word a₆,
      ),
      drop-At 2 tail₁ buf a₁,
      drop-At (2 + n + 1 + 2) tail₄ buf a₄,
      refl,
    )
