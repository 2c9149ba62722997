-- ===== src/Proto/Options/Deserialize.antt =====
-- Each deserialiser reads back the fields of its option, wherever they stand in the request.
use employee_database.Prelude.{
  ℕ, ◌+◌, ◌<◌, ◌^◌, ◌≡◌, refl, ap, List, ◌++◌, arith, length, length-append, append_assoc,
  drop-append,
}
use employee_database.Memory.{ok, Block}
use employee_database.Memory.Access.{load-append}
use employee_database.Memory.Cursor.{At, At-skip}
use employee_database.Memory.Bytes.{be16, be32, of_be-be16, of_be-be32}
use employee_database.Memory.Text.{IsText, c_string, strncpy-append}
use employee_database.Employee.{Entry, stored}
use employee_database.Proto.Options.{
  load_u16, load_u32, copy_text, deserialize_add_employee_option,
  deserialize_update_employee_option, deserialize_delete_employee_option,
}
use employee_database.Proto.Options.Format.{sized_text, add_fields, update_fields, IsShort}

pub load_u16-At :
    (at n : ℕ) (rest buf : Block) → n < 2 ^ 16 → At at (be16 n ++ rest) buf → load_u16 at buf ≡ ok n
unfolding load_u16
load_u16-At at n rest buf small a =
    rw a.bytes
      (rw (load-append at 2 a.front (be16 n) rest a.offset refl) (ap ok (of_be-be16 n small)))

pub load_u32-At :
    (at n : ℕ) (rest buf : Block) → n < 2 ^ 32 → At at (be32 n ++ rest) buf → load_u32 at buf ≡ ok n
unfolding load_u32
load_u32-At at n rest buf small a =
    rw a.bytes
      (rw (load-append at 4 a.front (be32 n) rest a.offset refl) (ap ok (of_be-be32 n small)))

copy_text-At :
    (at : ℕ) (s rest buf : Block)
    → IsText s
    → At at (s ++ rest) buf
    → copy_text at (length s) buf ≡ ok (c_string s)
unfolding copy_text
copy_text-At at s rest buf text a = rw (
  a.bytes,
  drop-append at a.front (s ++ rest) a.offset,
  strncpy-append s rest (length s) text refl,
)

module _ (at : ℕ) (rest buf : Block) where
  -- Where the fields of a delete option stand in a request, with a name shorter than 2 ^ 16,
  -- deserialize_delete_employee_option gives the name and the offset behind the fields.
  pub deserialize_delete_employee_option-At :
      (name : List ℕ)
      → IsShort name
      → At at (sized_text name ++ rest) buf
      → deserialize_delete_employee_option buf at
        ≡ ok (c_string name, at + length (sized_text name))
  unfolding deserialize_delete_employee_option
  deserialize_delete_employee_option-At name n a =
      rw
        (
          load_u16-At at (length name) (name ++ rest) buf n.short a,
          copy_text-At (at + 2) name rest buf n.text
              (At-skip at 2 (be16 (length name)) _ buf refl a),
        )
        (ap (λ k. ok (c_string name, k)) (omega arith))

  -- Where the fields of an update option stand in a request, with a name shorter than 2 ^ 16 and
  -- hours below 2 ^ 32, deserialize_update_employee_option gives the name, the hours and the offset
  -- behind the fields.
  pub deserialize_update_employee_option-At :
      (name : List ℕ) (hours : ℕ)
      → IsShort name
      → hours < 2 ^ 32
      → At at (update_fields name hours ++ rest) buf
      → deserialize_update_employee_option buf at
        ≡ ok (c_string name, hours, at + length (update_fields name hours))
  unfolding deserialize_update_employee_option
  deserialize_update_employee_option-At name hours n word a =
      let a₁ : At at (be16 (length name) ++ (name ++ (be32 hours ++ rest))) buf =
        simp append_assoc at a in
      let a₂ = At-skip at 2 (be16 (length name)) _ buf refl a₁ in
      let a₃ = At-skip (at + 2) (length name) name _ buf refl a₂ in
      rw
        (
          load_u16-At at (length name) _ buf n.short a₁,
          copy_text-At (at + 2) name _ buf n.text a₂,
          load_u32-At (at + 2 + length name) hours rest buf word a₃,
        )
        (ap (λ k. ok (c_string name, hours, k)) (omega (arith, length-append name (be32 hours))))

  -- Where the fields of an add option stand in a request, with name and address shorter than 2 ^ 16
  -- and hours below 2 ^ 32, deserialize_add_employee_option gives the stored entry and the offset
  -- behind the fields.
  pub deserialize_add_employee_option-At :
      (e : Entry)
      → IsShort e.name
      → IsShort e.address
      → e.hours < 2 ^ 32
      → At at (add_fields e ++ rest) buf
      → deserialize_add_employee_option buf at ≡ ok (stored e, at + length (add_fields e))
  unfolding deserialize_add_employee_option
  deserialize_add_employee_option-At e n d word a =
      let name = e.name in
      let address = e.address in
      let a₁ : At at
          (be16 (length e.name)
            ++ (e.name ++ (be16 (length e.address) ++ (e.address ++ (be32 e.hours ++ rest)))))
          buf =
        simp append_assoc at a in
      let a₂ = At-skip at 2 (be16 (length name)) _ buf refl a₁ in
      let a₃ = At-skip (at + 2) (length name) name _ buf refl a₂ in
      let a₄ = At-skip (at + 2 + length name) 2 (be16 (length address)) _ buf refl a₃ in
      let a₅ = At-skip (at + 2 + length name + 2) (length address) address _ buf refl a₄ in
      rw
        (
          load_u16-At at (length name) _ buf n.short a₁,
          copy_text-At (at + 2) name _ buf n.text a₂,
          load_u16-At (at + 2 + length name) (length address) _ buf d.short a₃,
          copy_text-At (at + 2 + length name + 2) address _ buf d.text a₄,
          load_u32-At (at + 2 + length name + 2 + length address) e.hours rest buf word a₅,
        )
        (ap (λ k. ok (stored e, k))
          (omega (
            arith,
            length-append name (sized_text address ++ be32 e.hours),
            length-append address (be32 e.hours),
          )))
