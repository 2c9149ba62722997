-- ===== src/Client/Build.antt =====
-- The client's message is the header and the bytes of the request that its arguments describe.
use employee_database.Prelude.{
  ℕ, ◌+◌, ◌-◌, ◌%◌, ◌^◌, ◌<◌, ◌≡◌, refl, sym, ◌∙◌, Bool, true, false, Option, none, some, List, [],
  ◌++◌, arith, length, append-nil, append_assoc, length-append,
}
use employee_database.Memory.{Result, ok, error, fault, ◌>>=◌, Block, Allocator, fresh}
use employee_database.Memory.Access.{store-append, load-append, length-fresh}
use employee_database.Memory.Bytes.{be32, le32}
use employee_database.Employee.{Entry}
use employee_database.Proto.Buffer.{Buffer}
use employee_database.Proto.Buffer.Room.{Holds, Holds-cast}
use employee_database.Proto.Options.Format.{Appends, IsReady}
use employee_database.Proto.Options.Serialize.{
  serialize_add_employee_option-Appends, serialize_update_employee_option-Appends,
  serialize_delete_employee_option-Appends, serialize_list_option-Appends,
}
use employee_database.Request.Meaning.{
  Request, request_bytes, add_bytes, update_bytes, delete_bytes, list_bytes,
}
use employee_database.Client.Asks.{
  AsksAdd, AsksUpdate, AsksDelete, Asks, add_short, update_short, delete_short, list_short,
  length-request_bytes,
}
use employee_database.Client.{
  Arguments, add_part, update_part, delete_part, list_part, finish_request, build_request,
}

unchanged : (m : Allocator) (w : Block) (b : Buffer) → IsReady w 0 b → Appends m (w ++ []) 0 (ok b)
unchanged m w b ready =
    (0, omega arith, Holds-cast w (w ++ []) 0 0 b ready.held (sym (append-nil w)) refl)

module _ (m : Allocator) (w : Block) (b : Buffer) (ready : IsReady w 0 b) where
  add_part-Appends :
      (s : Option Block) (o : Option Entry)
      → AsksAdd s o
      → Appends m (w ++ add_bytes o) 0 (add_part m s b)
  unfolding add_part
  add_part-Appends none none h = unchanged m w b ready
  add_part-Appends none (some e) h = absurd h
  add_part-Appends (some s) none h = absurd h
  add_part-Appends (some s) (some e) (n, a, parsed) =
      serialize_add_employee_option-Appends m w 0 b ready e s n a parsed

  update_part-Appends :
      (s h : Option Block) (o : Option (List ℕ × ℕ))
      → AsksUpdate s h o
      → Appends m (w ++ update_bytes o) 0 (update_part m s h b)
  unfolding update_part
  update_part-Appends none none none q = unchanged m w b ready
  update_part-Appends none none (some u) q = absurd q
  update_part-Appends none (some h) o q = absurd q
  update_part-Appends (some s) none o q = absurd q
  update_part-Appends (some s) (some h) none q = absurd q
  update_part-Appends (some s) (some h) (some (name, hours)) (e, n, parsed) =
      rw e (serialize_update_employee_option-Appends m w 0 b ready name n h hours parsed)

  delete_part-Appends :
      (s : Option Block) (o : Option (List ℕ))
      → AsksDelete s o
      → Appends m (w ++ delete_bytes o) 0 (delete_part m s b)
  unfolding delete_part
  delete_part-Appends none none q = unchanged m w b ready
  delete_part-Appends none (some u) q = absurd q
  delete_part-Appends (some s) none q = absurd q
  delete_part-Appends (some s) (some name) (e, n) =
      rw e (serialize_delete_employee_option-Appends m w 0 b ready name n)

  list_part-Appends : (l : Bool) → Appends m (w ++ list_bytes l) 0 (list_part m l b)
  unfolding list_part
  list_part-Appends false = unchanged m w b ready
  list_part-Appends true = serialize_list_option-Appends m w 0 b ready

-- The message that is sent, unless `realloc` refused a size.
abbrev pub Sends : Allocator → Block → Result Block → Type 0
Sends m msg (ok x) = x ≡ msg
Sends m msg error = (n : ℕ) × (m.can_grow n ≡ false)
Sends m msg fault = ⊥

-- A step of the chain.
part-then :
    (m : Allocator) (msg w : Block) (r : Result Buffer) (k : Buffer → Result Block)
    → length w < 2 ^ 63
    → Appends m w 0 r
    → ((c : Buffer) → IsReady w 0 c → Sends m msg (k c))
    → Sends m msg (r >>= k)
part-then m msg w (ok c) k small (left, none_left, h) next = next c (record {
  held = Holds-cast w w left 0 c h refl (omega (arith, none_left));
  written_small = small;
  capacity_small = omega (arith, h.sized, h.roomy, none_left, small);
})
part-then m msg w error k small h next = h
part-then m msg w fault k small h next = h

finish_request_lem :
    (junk body : Block) (b : Buffer)
    → length junk ≡ 4
    → length body < 2 ^ 32
    → Holds ((le32 2 ++ junk) ++ body) 0 b
    → finish_request b ≡ ok (le32 2 ++ (be32 (length body) ++ body))
unfolding finish_request
finish_request_lem junk body b four small h =
    let word = be32 (length body) in
    let size : b.cursor ≡ 8 + length body =
      omega (arith, h.at_end, four, length-append junk body) in
    let data_len : (b.cursor - 8) % 2 ^ 32 ≡ length body = omega (arith, size, small) in
    let bytes : b.block ≡ le32 2 ++ (junk ++ (body ++ h.rest)) = h.bytes ∙ simp append_assoc in
    let whole = le32 2 ++ (word ++ body) in
    let total : b.cursor ≡ length whole = omega (arith, size) in
    let same : le32 2 ++ (word ++ (body ++ h.rest)) ≡ [] ++ (whole ++ h.rest) = refl in
    rw (
      data_len,
      bytes,
      store-append 4 (le32 2) word junk (body ++ h.rest) refl (sym four),
      same,
      load-append 0 b.cursor [] whole h.rest refl total,
    )

-- For a command line that asks for a request, build_request makes exactly the message type, the
-- length of the request and its bytes in the order add, update, delete, list, or `realloc` refused
-- a size and it fails; no access leaves the buffer.
pub build_request-Sends :
    (m : Allocator) (a : Arguments) (r : Request)
    → Asks a r
    → Sends m (le32 2 ++ (be32 (length (request_bytes r)) ++ request_bytes r)) (build_request m a)
unfolding build_request
build_request-Sends m a r q =
    let junk = fresh m.junk 4 4 in
    let four = length-fresh m.junk 4 4 in
    let h = le32 2 ++ junk in
    let x₁ = add_bytes r.add in
    let x₂ = update_bytes r.update in
    let x₃ = delete_bytes r.delete in
    let x₄ = list_bytes r.list in
    let msg = le32 2 ++ (be32 (length (request_bytes r)) ++ request_bytes r) in
    let s₁ = add_short a.add_employee_str r.add q.add in
    let s₂ = update_short a.update_employee_str a.update_hours_str r.update q.update in
    let s₃ = delete_short a.delete_employee_str r.delete q.delete in
    let s₄ = list_short r.list in
    let l₁ = length-append h x₁ in
    let l₂ = length-append (h ++ x₁) x₂ in
    let l₃ = length-append ((h ++ x₁) ++ x₂) x₃ in
    let l₄ = length-append (((h ++ x₁) ++ x₂) ++ x₃) x₄ in
    let whole : (((h ++ x₁) ++ x₂) ++ x₃) ++ x₄ ≡ h ++ request_bytes r = simp append_assoc in
    let small = length-request_bytes a r q in
    let start : Buffer = record { block = h; cursor = 8; capacity = 8 } in
    let ready : IsReady h 0 start = record {
      held = record {
        rest = [];
        bytes = sym (append-nil h);
        at_end = omega (arith, four);
        sized = omega (arith, four);
        roomy = refl;
      };
      written_small = omega (arith, four);
      capacity_small = omega arith;
    } in
    part-then m msg (h ++ x₁) _ _ (omega (arith, l₁, s₁, four))
      (add_part-Appends m h start ready a.add_employee_str r.add q.add)
      (λ b₁ r₁.
        part-then m msg ((h ++ x₁) ++ x₂) _ _ (omega (arith, l₁, l₂, s₁, s₂, four))
          (update_part-Appends m (h ++ x₁) b₁ r₁ a.update_employee_str a.update_hours_str r.update
            q.update)
          (λ b₂ r₂.
            part-then m msg (((h ++ x₁) ++ x₂) ++ x₃) _ _
              (omega (arith, l₁, l₂, l₃, s₁, s₂, s₃, four))
              (delete_part-Appends m ((h ++ x₁) ++ x₂) b₂ r₂ a.delete_employee_str r.delete
                q.delete)
              (λ b₃ r₃.
                part-then m msg ((((h ++ x₁) ++ x₂) ++ x₃) ++ x₄) (list_part m a.list_flag b₃)
                  finish_request (omega (arith, l₁, l₂, l₃, l₄, s₁, s₂, s₃, s₄, four))
                  (rw q.list (list_part-Appends m (((h ++ x₁) ++ x₂) ++ x₃) b₃ r₃ r.list))
                  (λ b₄ r₄.
                    rw
                      (finish_request_lem junk (request_bytes r) b₄ four (omega (arith, small))
                        (rw whole at r₄.held))
                      refl))))
