-- ===== src/Proto/Options/Serialize.antt =====
-- Each serialiser appends exactly the bytes of its option.
use employee_database.Prelude.{
  ℕ, ◌+◌, ◌*◌, ◌<◌, ◌≤◌, ◌^◌, ◌≡◌, refl, List, [], ◌∷◌, ◌++◌, arith, length, max, append_assoc,
  le→leb, inl, inr,
}
use employee_database.Memory.{Result, ok, ◌>>=◌, Block, Allocator}
use employee_database.Memory.Bytes.{be16, be32}
use employee_database.Memory.Text.{c_string, strlen-c_string, strncpy-append}
use employee_database.Employee.{Entry}
use employee_database.Parse.{parse_employee_vals, parse_employee_hours}
use employee_database.Proto.Buffer.{Buffer, resize_buffer}
use employee_database.Proto.Buffer.Room.{Holds, Holds-cast, emit-then, resize_buffer-Holds}
use employee_database.Proto.Options.{
  uint16_max, serialize_add_employee_option, serialize_update_employee_option,
  serialize_delete_employee_option, serialize_list_option,
}
use employee_database.Proto.Options.Format.{
  sized_text, add_fields, update_fields, IsShort, Appends, IsReady,
}

Holds-eq :
    (a w : Block) (left room : ℕ) (b : Buffer)
    → Holds a left b
    → a ≡ w
    → left ≤ room
    → (l : ℕ) × (l ≤ room) × Holds w l b
Holds-eq a w left room b h e fits = (left, fits, Holds-cast a w left left b h e refl)

module _ (m : Allocator) (written : Block) (room : ℕ) (b : Buffer)
    (ready : IsReady written room b) where
  -- The request for room, and then the stores.
  resize-then :
      (data_len : ℕ) (w : Block) (f : Buffer → Result Buffer)
      → data_len < 2 ^ 63
      → ((c : Buffer) → Holds written (max room data_len) c → Appends m w room (f c))
      → Appends m w room (resize_buffer m b data_len >>= f)
  resize-then data_len w f small k =
      elim (resize_buffer-Holds m data_len written room b ready.held
        (omega (arith, ready.written_small)) (omega (arith, ready.capacity_small))) [
          | inl (c, run, h) ↦ rw run (k c h)
          | inr (n, refused, run) ↦ rw run (n, refused)
        ]

  -- On a request buffer whose sizes are below 2 ^ 63, serialize_list_option appends exactly `l`, or
  -- `realloc` refused a size and it answers STATUS_ERROR; no store leaves the buffer.
  pub serialize_list_option-Appends :
      Appends m (written ++ (b'l' ∷ [])) room (serialize_list_option m b)
  unfolding serialize_list_option
  serialize_list_option-Appends =
      let P = Appends m (written ++ (b'l' ∷ [])) room in
      resize-then 1 _ _ (omega arith) (λ c h.
        emit-then P (b'l' ∷ []) written _ c ok h (omega arith)
          (λ d k. Holds-eq _ _ _ room d k refl (omega arith)))

  module _ (name : List ℕ) (n : IsShort name) where
    -- On a request buffer whose sizes are below 2 ^ 63 and a name shorter than 2 ^ 16,
    -- serialize_delete_employee_option appends exactly `d`, the length of the name and the name, or
    -- `realloc` refused a size and it answers STATUS_ERROR; no store leaves the buffer.
    pub serialize_delete_employee_option-Appends :
        Appends m
          (written ++ (b'd' ∷ sized_text name))
          room
          (serialize_delete_employee_option m b (c_string name))
    unfolding serialize_delete_employee_option
    serialize_delete_employee_option-Appends =
        let w = written ++ (b'd' ∷ sized_text name) in
        let P = Appends m w room in
        rw (strlen-c_string name n.text, le→leb (length name) uint16_max (omega (arith, n.short)))
          (resize-then (2 + length name + 1) w _ (omega (arith, n.short)) (λ c₁ h₁.
            emit-then P (b'd' ∷ []) written _ c₁ _ h₁ (omega arith) (λ c₂ h₂.
              emit-then P (be16 (length name)) _ _ c₂ _ h₂ (omega arith) (λ c₃ h₃.
                rw (strncpy-append name (0 ∷ []) (length name) n.text refl) (
                  emit-then P name _ _ c₃ ok h₃ (omega arith)
                    (λ c₄ h₄. Holds-eq _ _ _ room c₄ h₄ (simp append_assoc) (omega arith)))))))

    -- On a request buffer whose sizes are below 2 ^ 63, a name shorter than 2 ^ 16 and hours that
    -- parse_employee_hours accepts, serialize_update_employee_option appends exactly `u`, the
    -- length of the name, the name and the hours, or `realloc` refused a size and it answers
    -- STATUS_ERROR; no store leaves the buffer.
    pub serialize_update_employee_option-Appends :
        (shours : Block) (hours : ℕ)
        → parse_employee_hours shours ≡ ok hours
        → Appends m
            (written ++ (b'u' ∷ update_fields name hours))
            room
            (serialize_update_employee_option m b (c_string name) shours)
    unfolding serialize_update_employee_option
    serialize_update_employee_option-Appends shours hours parsed =
        let w = written ++ (b'u' ∷ update_fields name hours) in
        let P = Appends m w room in
        rw
          (
            parsed,
            strlen-c_string name n.text,
            le→leb (length name) uint16_max (omega (arith, n.short)),
          )
          (resize-then (2 + 4 + length name + 1) w _ (omega (arith, n.short)) (λ c₁ h₁.
            emit-then P (b'u' ∷ []) written _ c₁ _ h₁ (omega arith) (λ c₂ h₂.
              emit-then P (be16 (length name)) _ _ c₂ _ h₂ (omega arith) (λ c₃ h₃.
                rw (strncpy-append name (0 ∷ []) (length name) n.text refl) (
                  emit-then P name _ _ c₃ _ h₃ (omega arith) (λ c₄ h₄.
                    emit-then P (be32 hours) _ _ c₄ ok h₄ (omega arith)
                      (λ c₅ h₅. Holds-eq _ _ _ room c₅ h₅ (simp append_assoc) (omega arith))))))))

  -- On a request buffer whose sizes are below 2 ^ 63, and a line that parse_employee_vals accepts
  -- with name and address shorter than 2 ^ 16, serialize_add_employee_option appends exactly `a`,
  -- the length of the name, the name, the length of the address, the address and the hours, or
  -- `realloc` refused a size and it answers STATUS_ERROR; no store leaves the buffer.
  pub serialize_add_employee_option-Appends :
      (e : Entry) (str : Block)
      → IsShort e.name
      → IsShort e.address
      → parse_employee_vals str
        ≡ ok (record { name = c_string e.name; address = c_string e.address; hours = e.hours })
      → Appends m (written ++ (b'a' ∷ add_fields e)) room (serialize_add_employee_option m b str)
  unfolding serialize_add_employee_option
  serialize_add_employee_option-Appends e str n a parsed =
      let w = written ++ (b'a' ∷ add_fields e) in
      let P = Appends m w room in
      let name_len = length e.name in
      let address_len = length e.address in
      rw
        (
          parsed,
          strlen-c_string e.name n.text,
          le→leb name_len uint16_max (omega (arith, n.short)),
          strlen-c_string e.address a.text,
          le→leb address_len uint16_max (omega (arith, a.short)),
        )
        (resize-then (name_len + address_len + 2 * 2 + 4 + 1) w _ (omega (arith, n.short, a.short))
          (λ c₁ h₁. emit-then P (b'a' ∷ []) written _ c₁ _ h₁ (omega arith) (λ c₂ h₂.
            emit-then P (be16 name_len) _ _ c₂ _ h₂ (omega arith) (λ c₃ h₃.
              rw (strncpy-append e.name (0 ∷ []) name_len n.text refl) (
                emit-then P e.name _ _ c₃ _ h₃ (omega arith) (λ c₄ h₄.
                  emit-then P (be16 address_len) _ _ c₄ _ h₄ (omega arith) (λ c₅ h₅.
                    rw (strncpy-append e.address (0 ∷ []) address_len a.text refl) (
                      emit-then P e.address _ _ c₅ _ h₅ (omega arith) (λ c₆ h₆.
                        emit-then P (be32 e.hours) _ _ c₆ ok h₆ (omega arith) (λ c₇ h₇.
                          Holds-eq _ _ _ room c₇ h₇ (simp append_assoc) (omega arith)))))))))))
