-- ===== src/Proto/Buffer/Room.antt =====
-- What the buffer holds in front of its cursor, and the room behind it.
use employee_database.Prelude.{
  ℕ, ◌+◌, ◌-◌, ◌%◌, ◌^◌, ◌≤◌, ◌<◌, ◌≡◌, sym, ap, ◌∙◌, false, ◌++◌, arith, length, take, drop, max,
  length-append, length-take, length-drop, take-append-drop, append_assoc, ltb, Bool-cases, inl,
  inr, ◌⊎◌,
}
use employee_database.Memory.{Result, ok, error, ◌>>=◌, Block, store, Allocator, fresh}
use employee_database.Memory.Access.{realloc-refused, store-append, realloc-grow, length-fresh}
use employee_database.Proto.Buffer.{Buffer, resize_buffer, emit}

-- The bytes `written` stand before the cursor, and `room` bytes follow it.
pub record Holds (written : Block) (room : ℕ) (b : Buffer) : Type 0 where
  pub rest : Block
  pub bytes : b.block ≡ written ++ rest
  pub at_end : b.cursor ≡ length written
  pub sized : b.capacity ≡ length written + length rest
  pub roomy : length rest ≡ room

pub emit-Holds :
    (xs written : Block) (room : ℕ) (b : Buffer)
    → Holds written room b
    → length xs ≤ room
    → (c : Buffer) × (emit xs b ≡ ok c) × Holds (written ++ xs) (room - length xs) c
unfolding emit
emit-Holds xs written room b h fits =
    let n = length xs in
    let tail = drop n h.rest in
    let split : take n h.rest ++ tail ≡ h.rest = take-append-drop n h.rest in
    let same : length xs ≡ length (take n h.rest) = omega (arith, length-take n h.rest, h.roomy) in
    let whole : b.block ≡ written ++ (take n h.rest ++ tail) =
      h.bytes ∙ ap (λ r. written ++ r) (sym split) in
    let stored : store b.cursor xs b.block ≡ ok (written ++ (xs ++ tail)) =
      rw whole (store-append b.cursor written xs (take n h.rest) tail h.at_end same) in
    (
      record { block = written ++ (xs ++ tail); cursor = b.cursor + n; capacity = b.capacity },
      rw stored,
      record {
        rest = tail;
        bytes = sym (append_assoc written xs tail);
        at_end = omega (arith, length-append written xs, h.at_end);
        sized = omega (arith, length-append written xs, h.sized, length-drop n h.rest, h.roomy);
        roomy = omega (arith, length-drop n h.rest, h.roomy);
      },
    )

-- A step of a chain of stores: what holds of the rest of the chain holds of the chain.
pub emit-then {ℓ} :
    (P : Result Buffer → Type ℓ) (xs written : Block) (room : ℕ) (b : Buffer)
    (f : Buffer → Result Buffer)
    → Holds written room b
    → length xs ≤ room
    → ((c : Buffer) → Holds (written ++ xs) (room - length xs) c → P (f c))
    → P (emit xs b >>= f)
emit-then P xs written room b f h fits k =
    let (c, run, held) = emit-Holds xs written room b h fits in rw run (k c held)

extended :
    (written : Block) (b : Buffer) (old room size : ℕ) (more : Block)
    → Holds written old b
    → size ≡ length b.block + length more
    → length written + room ≡ size
    → Holds written room (record { block = b.block ++ more; cursor = b.cursor; capacity = size })
extended written b old room size more h size_is exact =
    let total : length b.block ≡ length written + length h.rest =
      ap length h.bytes ∙ length-append written h.rest in
    record {
      rest = h.rest ++ more;
      bytes = ap (λ r. r ++ more) h.bytes ∙ append_assoc written h.rest more;
      at_end = h.at_end;
      sized = omega (arith, total, length-append h.rest more);
      roomy = omega (arith, total, length-append h.rest more);
    }

-- On a buffer that holds `written` in front of its cursor and `room` bytes behind, whose sizes fit
-- a `size_t`, resize_buffer answers with a buffer that holds the same bytes in front of its cursor
-- and the larger of `room` and `data_len` bytes behind, or `realloc` refused a size and it answers
-- STATUS_ERROR.
pub resize_buffer-Holds :
    (m : Allocator) (data_len : ℕ) (written : Block) (room : ℕ) (b : Buffer)
    → Holds written room b
    → length written + data_len < 2 ^ 64
    → b.capacity < 2 ^ 64
    → ((c : Buffer) × (resize_buffer m b data_len ≡ ok c) × Holds written (max room data_len) c)
      ⊎ ((n : ℕ) × (m.can_grow n ≡ false) × (resize_buffer m b data_len ≡ error))
unfolding resize_buffer
resize_buffer-Holds m data_len written room b h small word =
    let delta = (b.capacity + 2 ^ 64 - b.cursor) % 2 ^ 64 in
    let size = (b.capacity + (data_len - delta)) % 2 ^ 64 in
    let left : delta ≡ room = omega (arith, h.sized, h.at_end, h.roomy) in
    elim (Bool-cases (ltb delta data_len)) [
      | inr enough ↦ inl (
        b,
        rw enough,
        record {
          rest = h.rest;
          bytes = h.bytes;
          at_end = h.at_end;
          sized = h.sized;
          roomy = ground (arith, enough, left, h.roomy);
        },
      )
      | inl short ↦
          let larger : length b.block ≤ size =
            ground (arith, short, h.sized, ap length h.bytes, length-append written h.rest) in
          elim (Bool-cases (m.can_grow size)) [
            | inr refused ↦ inr (size, refused, rw (short, realloc-refused m size b.block refused))
            | inl granted ↦
                let more = fresh m.junk (length b.block) (size - length b.block) in
                let size_is : size ≡ length b.block + length more =
                  omega
                    (arith, larger, length-fresh m.junk (length b.block) (size - length b.block)) in
                let exact : length written + max room data_len ≡ size =
                  ground (arith, short, left, h.sized, h.roomy) in
                inl (
                  record { block = b.block ++ more; cursor = b.cursor; capacity = size },
                  rw (short, realloc-grow m size b.block granted larger),
                  extended written b room (max room data_len) size more h size_is exact,
                )
          ]
    ]

pub Holds-cast : (a w : Block) (r s : ℕ) (b : Buffer) → Holds a r b → a ≡ w → r ≡ s → Holds w s b
Holds-cast a w r s b h e f = record {
  rest = h.rest;
  bytes = h.bytes ∙ ap (λ x. x ++ h.rest) e;
  at_end = rw (← e) h.at_end;
  sized = rw (← e) h.sized;
  roomy = h.roomy ∙ f;
}
