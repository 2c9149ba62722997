-- ===== src/Server/Answers/Handshake.antt =====
-- The handshake of a client with the server's version, in any pieces.
use employee_database.Prelude.{
  ℕ, zero, suc, ◌+◌, ◌^◌, ◌<◌, ◌≤◌, ◌≡◌, refl, sym, ap, ◌∙◌, true, false, List, [], ◌∷◌, ◌++◌,
  arith, length, length-append, length-nil, append-nil, append_assoc, ne→==, eq→==, le→leb, subst,
  ◌==◌,
}
use native.Mathlib.Decide.{dec_lt}
use employee_database.Memory.{ok, Allocator, load}
use employee_database.Memory.Bytes.{le32, be16, of_be, of_be-be16}
use employee_database.Models.{code, handshake_response, uninitialized, initialized}
use employee_database.Serialize.Loop.{refuses}
use employee_database.Socket.Arrivals.{bytes, breaks}
use employee_database.Socket.Sends.{send_all-Sent}
use employee_database.Server.{
  Server, receive_by, receive_from_client, handle_header, handle_complete, check_version,
  handle_uninitialized_client, send_handshake_response, send_message,
}
use employee_database.Server.Answers.{Runs, here, turn, Kept, InHandshake, receive_header-Moves}
use employee_database.Server.Answers.Body.{serve_client-turn}

-- After the handshake the connection waits for the first header.
pub record Greets (rest : List ℕ) (s t : Server) : Type 0 where
  pub state : t.conn.state ≡ initialized
  pub header : length t.conn.header ≡ 8
  pub cursor : t.conn.header_cursor ≡ 0
  pub incoming : bytes t.socket.incoming ≡ rest
  pub clean : breaks t.socket.incoming ≡ false
  pub sent : t.socket.sent ≡ s.socket.sent ++ (le32 (code handshake_response) ++ (0 ∷ []))
  pub sends : refuses t.socket.sends ≡ false
  pub employees : t.employees ≡ s.employees
  pub dbhdr : t.dbhdr ≡ s.dbhdr
  pub file : t.file ≡ s.file

Greets-Kept : {rest : List ℕ} {s t u : Server} → Kept s t → Greets rest t u → Greets rest s u
Greets-Kept k g = record {
  state = g.state;
  header = g.header;
  cursor = g.cursor;
  incoming = g.incoming;
  clean = g.clean;
  sent = g.sent ∙ ap (λ b. b ++ (le32 1 ++ (0 ∷ []))) k.sent;
  sends = g.sends;
  employees = g.employees ∙ k.employees;
  dbhdr = g.dbhdr ∙ k.dbhdr;
  file = g.file ∙ k.file;
}

-- The complete header of a handshake is answered.
handle_uninitialized_client-Greets :
    (version : ℕ) (rest : List ℕ) (s : Server)
    → version < 2 ^ 16
    → InHandshake (le32 0 ++ be16 version) [] rest s
    → refuses s.socket.sends ≡ false
    → (t : Server) × (handle_uninitialized_client version s ≡ ok t) × Greets rest s t
unfolding handle_uninitialized_client check_version send_handshake_response send_message load
handle_uninitialized_client-Greets version rest s word h clean =
    let whole = (le32 0 ++ be16 version) ++ h.back in
    let typed : load 0 4 s.conn.header ≡ ok (le32 0) =
      rw (h.header, le→leb (0 + 4) (length whole) (omega arith)) refl in
    let versioned : load 4 2 s.conn.header ≡ ok (be16 version) =
      rw (h.header, le→leb (4 + 2) (length whole) (omega arith)) refl in
    let same : (of_be (be16 version) 0 == version) ≡ true =
      eq→== _ version (of_be-be16 version word) in
    let (d, run, (script, clean', after)) = send_all-Sent (le32 1 ++ (0 ∷ [])) s.socket clean in
    (
      record s { conn = record s.conn { state = initialized; header_cursor = 0 }; socket = d },
      rw (typed, versioned, same, run) refl,
      record {
        state = refl;
        header = ap length h.header ∙ omega (arith, h.same);
        cursor = refl;
        incoming = ap (λ c. bytes c.incoming) after ∙ h.incoming;
        clean = ap (λ c. breaks c.incoming) after ∙ h.clean;
        sent = ap (λ c. c.sent) after;
        sends = ap (λ c. refuses c.sends) after ∙ clean';
        employees = refl;
        dbhdr = refl;
        file = refl;
      },
    )

pub handshake_turns :
    (fuel version : ℕ) (m : Allocator) (front todo rest : List ℕ) (s : Server)
    → version < 2 ^ 16
    → InHandshake front todo rest s
    → front ++ todo ≡ le32 0 ++ be16 version
    → 0 < length todo
    → length todo ≤ fuel
    → refuses s.socket.sends ≡ false
    → (t : Server) × Runs version m s t × Greets rest s t
unfolding receive_from_client receive_by handle_header handle_complete
handshake_turns zero version m front todo rest s word h whole some_todo enough clean =
    absurd (omega (arith, some_todo, enough))
handshake_turns (suc fuel) version m front todo rest s word h whole some_todo enough clean =
    let six : length front + length todo ≡ 6 = sym (length-append front todo) ∙ ap length whole in
    let p =
      receive_header-Moves uninitialized 2 6 front todo rest s h six (omega arith) some_todo in
    let count : length todo ≡ length p.got + length p.todo' =
      ap length p.split ∙ length-append p.got p.todo' in
    let joined : (front ++ p.got) ++ p.todo' ≡ front ++ todo =
      append_assoc front p.got p.todo' ∙ ap (λ l. front ++ l) (sym p.split) in
    let number = length front + length p.got in
    let received : receive_from_client s ≡ ok (number, p.after) =
      ap (λ q. receive_by q s) h.state ∙ p.run in
    let clean' : refuses p.after.socket.sends ≡ false = ap refuses p.kept.sends ∙ clean in
    elim (dec_lt 0 (length p.todo')) [
      | yes more ↦
          (let waits : handle_header uninitialized version m number p.after ≡ ok (number, p.after) =
              rw (ne→== number 6 (omega (arith, six, count, more))) refl in
            let (t, runs, g) =
              handshake_turns fuel version m (front ++ p.got) p.todo' rest p.after word p.in_after
                (joined ∙ whole) more (omega (arith, enough, count, p.some_got)) clean' in
            (
              t,
              turn
                  (serve_client-turn version m s p.after p.after p.after number number received
                    (omega (arith, p.some_got))
                    (ap (λ q. handle_header q version m number p.after) p.in_after.state ∙ waits)
                    (ap (λ q. handle_complete q m number p.after) p.in_after.state))
                  runs,
              Greets-Kept p.kept g,
            ))
      | no none_left ↦
          (let nil : p.todo' ≡ [] = length-nil p.todo' (omega (arith, none_left)) in
            let full : front ++ p.got ≡ le32 0 ++ be16 version =
              sym (append-nil (front ++ p.got))
              ∙ ap (λ l. (front ++ p.got) ++ l) (sym nil)
              ∙ joined
              ∙ whole in
            let n : number ≡ 6 = omega (arith, six, count, ap length nil) in
            let complete =
              subst (λ l. InHandshake l [] rest p.after) full
                (subst (λ l. InHandshake (front ++ p.got) l rest p.after) nil p.in_after) in
            let (t, run, g) =
              handle_uninitialized_client-Greets version rest p.after word complete clean' in
            let headed : handle_header uninitialized version m number p.after ≡ ok (number, t) =
              rw (eq→== number 6 n, run) refl in
            (
              t,
              turn
                  (serve_client-turn version m s p.after t t number number received
                    (omega (arith, p.some_got))
                    (ap (λ q. handle_header q version m number p.after) p.in_after.state ∙ headed)
                    (ap (λ q. handle_complete q m number t) g.state))
                  here,
              Greets-Kept p.kept g,
            ))
    ]
