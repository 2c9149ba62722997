-- ===== src/Client/Converses.antt =====
-- What the client makes of the bytes that the server sends it.
use employee_database.Prelude.{
  ℕ, ◌*◌, ◌^◌, ◌<◌, ◌≤◌, ◌≡◌, refl, sym, ap, ◌∙◌, true, false, List, [], ◌∷◌, ◌++◌, arith, length,
  map, All, append_assoc, ne→==,
}
use employee_database.Memory.{Result, ok, error, Allocator, load, fresh}
use employee_database.Memory.Access.{length-fresh}
use employee_database.Memory.Bytes.{le32, be16, be32, of_be-be32}
use employee_database.Memory.Text.{strlen-c_string}
use employee_database.Models.{code, handshake_response, handshake_request}
use employee_database.Employee.{Employee, stored, IsEntry}
use employee_database.Employee.Directory.{Directory}
use employee_database.Serialize.Loop.{refuses}
use employee_database.Proto.Listing.Rows.{rows}
use employee_database.Proto.Listing.Read.{
  filled, length-rows, deserialize_list_employee_response-rows,
}
use employee_database.Request.Meaning.{
  Reply, missing, finished, listed, reply_bytes, Request, request_bytes,
}
use employee_database.Server.Answers.Reply.{new_response}
use employee_database.Socket.{Socket, receive_all}
use employee_database.Socket.Arrivals.{bytes, breaks}
use employee_database.Socket.Receives.{Left, receive_all-Left}
use employee_database.Socket.Sends.{send_all-Sent}
use employee_database.Client.Asks.{Asks}
use employee_database.Client.Build.{build_request-Sends}
use employee_database.Client.Session.{Sends-ok}
use employee_database.Client.{
  Arguments, build_request, print_slots, receive_listing, read_response, deserialize_response,
  send_handshake, receive_handshake, handshake_flag, converse,
}

-- How the client ends: it prints the entries of a listing, or none, or fails where a name is missing.
abbrev pub outcome : Reply → Socket → Result (List Employee × Socket)
outcome missing c = error
outcome finished c = ok ([], c)
outcome (listed es) c = ok (map stored es, c)

-- A listing that the client can hold in its first array.
abbrev pub IsReadable : Reply → Type 0
IsReadable missing = Unit {0}
IsReadable finished = Unit {0}
IsReadable (listed es) = All IsEntry es × (length es ≤ 32) × (length (rows es) < 2 ^ 32)

print_slots-filled :
    (es : Directory) → All IsEntry es → print_slots (filled es) ≡ ok (map stored es)
unfolding print_slots
print_slots-filled [] i = refl
print_slots-filled (e ∷ es) (h, i) =
    rw
      (
        strlen-c_string e.name h.name_text,
        strlen-c_string e.address h.address_text,
        print_slots-filled es i,
      )
      refl

-- The client's end of the conversation, with what is still to arrive.
abbrev Reads : Reply → List ℕ → Socket → Result (List Employee × Socket) → Type 0
Reads reply more c r = (d : Socket) × (r ≡ outcome reply d) × (d.sent ≡ c.sent)

receive_listing-Reads :
    (m : Allocator) (es : Directory) (more : List ℕ) (c : Socket)
    → ((n : ℕ) → m.can_grow n ≡ true)
    → IsReadable (listed es)
    → bytes c.incoming ≡ rows es ++ more
    → breaks c.incoming ≡ false
    → Reads (listed es) more c (receive_listing m (length (rows es)) c)
unfolding receive_listing
receive_listing-Reads m es more c granted (i, few, word) e clean =
    let (d, run, l) =
      receive_all-Left (fresh m.junk 0 (length (rows es))) (rows es) more c
        (length-fresh m.junk 0 (length (rows es))) e clean in
    (
      d,
      rw
          (
            run,
            deserialize_list_employee_response-rows m es i few (granted (length es * 24)),
            print_slots-filled es i,
          )
          refl,
      ap (λ c. c.sent) l.rest,
    )

-- After the response's header of 9 bytes.
deserialize_response-header :
    (m : Allocator) (xs more : List ℕ) (c : Socket)
    → length xs ≡ 9
    → bytes c.incoming ≡ xs ++ more
    → breaks c.incoming ≡ false
    → (d : Socket) × (receive_all (fresh m.junk 0 9) 9 c ≡ ok (xs, 9, d)) × Left c more d
deserialize_response-header m xs more c nine e clean =
    let (d, run, l) =
      receive_all-Left (fresh m.junk 0 9) xs more c (length-fresh m.junk 0 9 ∙ sym nine) e clean in
    (d, rw nine at run, l)

pub deserialize_response-Reads :
    (m n : Allocator) (reply : Reply) (more : List ℕ) (c : Socket)
    → ((k : ℕ) → m.can_grow k ≡ true)
    → IsReadable reply
    → bytes c.incoming ≡ reply_bytes (new_response n) reply ++ more
    → breaks c.incoming ≡ false
    → Reads reply more c (deserialize_response m c)
unfolding deserialize_response read_response fresh load rows
deserialize_response-Reads m n missing more c granted i e clean =
    let (d, run, l) =
      deserialize_response-header m (reply_bytes (new_response n) missing) more c refl e clean in
    (d, rw run refl, ap (λ c. c.sent) l.rest)
deserialize_response-Reads m n finished more c granted i e clean =
    let (d, run, l) =
      deserialize_response-header m (reply_bytes (new_response n) finished) more c refl e clean in
    (d, rw run refl, ap (λ c. c.sent) l.rest)
deserialize_response-Reads m n (listed []) more c granted i e clean =
    let (d, run, l) =
      deserialize_response-header m (reply_bytes (new_response n) (listed [])) more c refl e
        clean in
    (d, rw run refl, ap (λ c. c.sent) l.rest)
deserialize_response-Reads m n (listed (x ∷ es)) more c granted i e clean =
    let len = length (rows (x ∷ es)) in
    let head : List ℕ = le32 3 ++ (0 ∷ be32 len) in
    let (d, run, l) = deserialize_response-header m head (rows (x ∷ es) ++ more) c refl e clean in
    let (d', run', sent) = receive_listing-Reads m (x ∷ es) more d granted i l.left l.clean in
    (
      d',
      rw (run, of_be-be32 len i.2, ne→== len 0 (omega (arith, length-rows (x ∷ es)))) run',
      sent ∙ ap (λ c. c.sent) l.rest,
    )

abbrev pub handshake_message : ℕ → List ℕ
handshake_message version = le32 (code handshake_request) ++ be16 version

abbrev pub accepted : List ℕ
accepted = le32 (code handshake_response) ++ (0 ∷ [])

receive_handshake-Left :
    (m : Allocator) (more : List ℕ) (c : Socket)
    → bytes c.incoming ≡ accepted ++ more
    → breaks c.incoming ≡ false
    → (d : Socket) × (receive_handshake m c ≡ ok d) × Left c more d
unfolding receive_handshake handshake_flag load
receive_handshake-Left m more c e clean =
    let (d, run, l) =
      receive_all-Left (fresh m.junk 0 4) (le32 1) (0 ∷ more) c (length-fresh m.junk 0 4) e clean in
    let (d', run', l') =
      receive_all-Left (fresh m.junk 0 1) (0 ∷ []) more d (length-fresh m.junk 0 1) l.left
        l.clean in
    (
      d',
      rw (run, run') refl,
      record {
        left = l'.left;
        clean = l'.clean;
        rest = l'.rest ∙ ap {A = Socket} (λ s. record s { incoming = d'.incoming }) l.rest;
      },
    )

-- The message of a request.
abbrev pub request_message : Request → List ℕ
request_message r = (le32 2 ++ be32 (length (request_bytes r))) ++ request_bytes r

pub converse-Reads :
    (m n : Allocator) (version : ℕ) (a : Arguments) (r : Request) (reply : Reply) (more : List ℕ)
    (c : Socket)
    → ((k : ℕ) → m.can_grow k ≡ true)
    → Asks a r
    → IsReadable reply
    → bytes c.incoming ≡ accepted ++ (reply_bytes (new_response n) reply ++ more)
    → breaks c.incoming ≡ false
    → refuses c.sends ≡ false
    → (d : Socket) × (converse m version a c ≡ outcome reply d)
      × (d.sent ≡ c.sent ++ (handshake_message version ++ request_message r))
unfolding converse send_handshake
converse-Reads m n version a r reply more c granted q i e clean quiet =
    let (c₁, run₁, (s₁, quiet₁, after₁)) = send_all-Sent (handshake_message version) c quiet in
    let left₁ = ap (λ c. bytes c.incoming) after₁ ∙ e in
    let (c₂, run₂, l₂) =
      receive_handshake-Left m (reply_bytes (new_response n) reply ++ more) c₁ left₁
        (ap (λ c. breaks c.incoming) after₁ ∙ clean) in
    let built : build_request m a ≡ ok (request_message r) =
      Sends-ok m (request_message r) (build_request m a) granted (build_request-Sends m a r q) in
    let quiet₂ : refuses c₂.sends ≡ false =
      ap (λ c. refuses c.sends) l₂.rest ∙ ap (λ c. refuses c.sends) after₁ ∙ quiet₁ in
    let (c₃, run₃, (s₃, quiet₃, after₃)) = send_all-Sent (request_message r) c₂ quiet₂ in
    let (d, run, sent) =
      deserialize_response-Reads m n reply more c₃ granted i
        (ap (λ c. bytes c.incoming) after₃ ∙ l₂.left)
        (ap (λ c. breaks c.incoming) after₃ ∙ l₂.clean) in
    (
      d,
      rw (run₁, run₂, built, run₃) run,
      sent
          ∙ ap (λ c. c.sent) after₃
          ∙ ap (λ b. b ++ request_message r) (ap (λ c. c.sent) l₂.rest ∙ ap (λ c. c.sent) after₁)
          ∙ append_assoc c.sent (handshake_message version) (request_message r),
    )
