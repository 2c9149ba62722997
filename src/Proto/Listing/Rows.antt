-- ===== src/Proto/Listing/Rows.antt =====
-- The server's list response is the rows of the entries, one behind the other.
use employee_database.Prelude.{
  ℕ, ◌+◌, ◌*◌, ◌%◌, ◌<◌, ◌^◌, ◌≡◌, refl, false, List, [], ◌∷◌, ◌++◌, arith, length, length-append,
  append_assoc, append-nil, All, map, inl, inr,
}
use employee_database.Memory.{Result, ok, error, fault, ◌>>=◌, Block, Allocator}
use employee_database.Memory.Bytes.{be16, be32}
use employee_database.Memory.Text.{c_string, strlen-c_string, strncpy_whole}
use employee_database.Employee.{Entry, IsEntry, stored}
use employee_database.Employee.Directory.{Directory}
use employee_database.Proto.Buffer.{Buffer}
use employee_database.Proto.Buffer.Room.{Holds, Holds-cast, emit-then, resize_buffer-Holds}
use employee_database.Proto.Listing.{serialize_row, serialize_list_employee_response}

-- A string behind its length, the terminator counted.
abbrev pub counted_string : List ℕ → Block
counted_string s = be16 (length s + 1) ++ c_string s

abbrev pub row : Entry → Block
row e = counted_string e.name ++ (counted_string e.address ++ be32 e.hours)

-- The fields of a row, one behind the other.
pub row-append :
    (e : Entry) (rest : Block)
    → row e ++ rest
      ≡ be16 (length e.name + 1)
        ++ (c_string e.name
            ++ (be16 (length e.address + 1) ++ (c_string e.address ++ (be32 e.hours ++ rest))))
row-append e rest = simp append_assoc

unfoldable pub rows : Directory → Block
rows [] = []
rows (e ∷ es) = row e ++ rows es

pub length-row : (e : Entry) → length (row e) ≡ length e.name + length e.address + 10
length-row e = omega (
  arith,
  length-append e.name (0 ∷ []),
  length-append e.address (0 ∷ []),
  length-append (c_string e.name) (counted_string e.address ++ be32 e.hours),
  length-append (c_string e.address) (be32 e.hours),
)

-- The serialiser filled the buffer exactly with `written`, or `realloc` refused a size; it did not
-- fault.
abbrev pub Fills : Allocator → Block → Result Buffer → Type 0
Fills m written (ok b) = Holds written 0 b
Fills m written error = (n : ℕ) × (m.can_grow n ≡ false)
Fills m written fault = ⊥

Fills-eq : (m : Allocator) (a w : Block) (r : Result Buffer) → Fills m a r → a ≡ w → Fills m w r
Fills-eq m a w r h e = rw (← e) h

narrow :
    (w : Block) (room : ℕ) (b : Buffer)
    → Holds w room b
    → length w + room < 2 ^ 32
    → Holds w room (record b { capacity = b.capacity % 2 ^ 32 })
narrow w room b h small = record {
  rest = h.rest;
  bytes = h.bytes;
  at_end = h.at_end;
  sized = omega (arith, h.sized, h.roomy);
  roomy = h.roomy;
}

lengths :
    (e : Entry)
    → (length (c_string e.name) ≡ length e.name + 1)
      × (length (c_string e.address) ≡ length e.address + 1)
lengths e =
    (omega (arith, length-append e.name (0 ∷ [])), omega (arith, length-append e.address (0 ∷ [])))

module _ (m : Allocator) where
  serialize_row-then :
      (P : Result Buffer → Type 0) (w : Block) (b : Buffer) (e : Entry) (f : Buffer → Result Buffer)
      → IsEntry e
      → Holds w 0 b
      → length w + length (row e) < 2 ^ 32
      → ((n : ℕ) → m.can_grow n ≡ false → P error)
      → ((c : Buffer) → Holds (w ++ row e) 0 c → P (f c))
      → P (serialize_row m b (stored e) >>= f)
  unfolding serialize_row
  serialize_row-then P w b e f i h small refused k =
      let Q : Result Buffer → Type 0 = λ r. P (r >>= f) in
      let name_len = length e.name + 1 in
      let address_len = length e.address + 1 in
      let name_fits : name_len % 2 ^ 16 ≡ name_len = omega (arith, i.name_short) in
      let address_fits : address_len % 2 ^ 16 ≡ address_len = omega (arith, i.address_short) in
      let needed : name_len + address_len + 2 * 2 + 4 ≡ length (row e) =
        omega (arith, length-row e) in
      let word : b.capacity < 2 ^ 64 = omega (arith, h.sized, h.roomy) in
      rw
        (
          strlen-c_string e.name i.name_text,
          strlen-c_string e.address i.address_text,
          name_fits,
          address_fits,
          needed,
        )
        (elim (resize_buffer-Holds m (length (row e)) w 0 b h (omega arith) word) [
          | inr (n, no_room, run) ↦ rw run (refused n no_room)
          | inl (c₁, run, h₁) ↦ rw run (
              emit-then Q (be16 name_len) w _ _ _ (narrow w _ c₁ h₁ (omega arith))
                (omega (arith, length-row e))
                (λ c₂ h₂. rw (strncpy_whole e.name name_len i.name_text refl) (
                  emit-then Q (c_string e.name) _ _ c₂ _ h₂
                    (omega (arith, length-row e, length-append e.name (0 ∷ [])))
                    (λ c₃ h₃.
                      emit-then Q (be16 address_len) _ _ c₃ _ h₃
                        (omega (arith, length-row e, length-append e.name (0 ∷ [])))
                        (λ c₄ h₄. rw (strncpy_whole e.address address_len i.address_text refl) (
                          emit-then Q (c_string e.address) _ _ c₄ _ h₄
                            (omega (arith, length-row e, lengths e))
                            (λ c₅ h₅.
                              emit-then Q (be32 e.hours) _ _ c₅ ok h₅
                                (omega (arith, length-row e, lengths e))
                                (λ c₆ h₆. k c₆ (
                                  Holds-cast _ _ _ _ c₆ h₆ (simp append_assoc)
                                    (omega (arith, length-row e, lengths e)))))))))))
        ])

  -- A buffer that `w` fills takes the rows of a well-formed directory if the whole response is
  -- shorter than 2 ^ 32 bytes: afterwards it is filled exactly by `w` and the rows, or `realloc`
  -- refused a size and the answer is STATUS_ERROR; no store leaves the buffer.
  pub serialize_list_employee_response-Fills :
      (es : Directory) (w : Block) (b : Buffer)
      → All IsEntry es
      → Holds w 0 b
      → length w + length (rows es) < 2 ^ 32
      → Fills m (w ++ rows es) (serialize_list_employee_response m b (map stored es))
  unfolding serialize_list_employee_response rows
  serialize_list_employee_response-Fills [] w b i h small = rw append-nil h
  serialize_list_employee_response-Fills (e ∷ es) w b i h small =
      serialize_row-then (Fills m (w ++ (row e ++ rows es))) w b e
        (λ c. serialize_list_employee_response m c (map stored es)) i.0 h
        (omega (arith, length-append (row e) (rows es))) (λ n refused. (n, refused))
        (λ c k.
          Fills-eq m _ _ _
            (serialize_list_employee_response-Fills es (w ++ row e) c i.1 k
              (omega (arith, length-append (row e) (rows es), length-append w (row e))))
            (append_assoc w (row e) (rows es)))
