-- ===== src/Server/Answers/Header.antt =====
-- The header and the bytes of a request are collected, and then the request is handled.
use employee_database.Prelude.{
  ℕ, zero, suc, ◌+◌, ◌^◌, ◌<◌, ◌≤◌, ◌≡◌, refl, sym, ap, ◌∙◌, List, [], ◌++◌, arith, length, some,
  length-append, length-nil, append-nil, append_assoc, ne→==, subst, ◌%◌,
}
use native.Mathlib.Decide.{dec_lt}
use employee_database.Memory.{Result, ok, Allocator, load, fresh}
use employee_database.Memory.Access.{length-fresh}
use employee_database.Memory.Bytes.{le32, be32, of_be, of_be-be32}
use employee_database.Models.{request, initialized}
use employee_database.Server.{
  Server, receive_header, receive_by, receive_from_client, handle_header, start_request,
  handle_initialized_client, handle_complete, handle_db_access_request,
}
use employee_database.Server.Answers.{
  Runs, turn, Kept, Kept-trans, InHeader, InBody, receive_header-Moves, receive_buf-Moves,
}
use employee_database.Server.Answers.Body.{Finishes, body_after, serve_client-turn}

-- Where a request starts, its first bytes are received, and the turn goes on with them.
record Starts (version : ℕ) (m : Allocator) (buf rest : List ℕ) (s : Server)
    (r : Result (ℕ × Server)) : Type 0 where
  number : ℕ
  after : Server
  run : r ≡ ok (number, after)
  state : after.conn.state ≡ request
  finishes : Finishes version m buf rest s (handle_complete request m number after)

start_request-Starts :
    (version : ℕ) (m : Allocator) (buf rest : List ℕ) (s : Server)
    → InHeader (le32 2 ++ be32 (length buf)) [] (buf ++ rest) s
    → 0 < length buf
    → length buf < 2 ^ 32
    → Starts version m buf rest s (start_request m (length buf) s)
unfolding start_request receive_from_client receive_by
start_request-Starts version m buf rest s h some_bytes word =
    let b : Server = record s {
      conn = record s.conn {
        buf = some (fresh m.junk 0 (length buf));
        buf_cursor = 0;
        buf_size = length buf;
        state = request;
      };
    } in
    let i : InBody [] buf rest b = record {
      back = fresh m.junk 0 (length buf);
      state = refl;
      buf = refl;
      same = length-fresh m.junk 0 (length buf);
      cursor = refl;
      size = omega arith;
      incoming = h.incoming;
      clean = h.clean;
    } in
    let p = receive_buf-Moves [] buf rest b i (omega (arith, word)) some_bytes in
    let count : length buf ≡ length p.got + length p.todo' =
      ap length p.split ∙ length-append p.got p.todo' in
    let n = length {A = ℕ} [] + length p.got in
    let f =
      body_after (length p.todo') version m p.got p.todo' rest n p.after p.in_after (omega arith)
        (omega (arith, word, count)) (omega arith) in
    let f' : Finishes version m buf rest p.after (handle_complete request m n p.after) =
      subst (λ l. Finishes version m l rest p.after (handle_complete request m n p.after))
        (sym p.split) f in
    record {
      number = n;
      after = p.after;
      run = p.run;
      state = p.in_after.state;
      finishes = record {
        complete = f'.complete;
        in_body = f'.in_body;
        kept = record {
          employees = f'.kept.employees ∙ p.kept.employees;
          dbhdr = f'.kept.dbhdr ∙ p.kept.dbhdr;
          file = f'.kept.file ∙ p.kept.file;
          sent = f'.kept.sent ∙ p.kept.sent;
          sends = f'.kept.sends ∙ p.kept.sends;
        };
        reach = f'.reach;
      };
    }

-- The complete header of a request starts it.
handle_initialized_client-starts :
    (m : Allocator) (n : ℕ) (buf rest : List ℕ) (s : Server)
    → InHeader (le32 2 ++ be32 (length buf)) [] (buf ++ rest) s
    → 0 < length buf
    → length buf < 2 ^ 32
    → handle_initialized_client m n s ≡ start_request m (length buf) s
unfolding handle_initialized_client load
handle_initialized_client-starts m n buf rest s h some_bytes word =
    let len : (of_be (be32 (length buf)) 0) % 2 ^ 32 ≡ length buf =
      ap (λ k. k % 2 ^ 32) (of_be-be32 (length buf) word) ∙ omega (arith, word) in
    let none_left : h.back ≡ [] = length-nil h.back h.same in
    let header : s.conn.header ≡ le32 2 ++ be32 (length buf) =
      h.header ∙ ap (λ b. (le32 2 ++ be32 (length buf)) ++ b) none_left in
    rw (header, len, ne→== (length buf) 0 (omega (arith, some_bytes)))

-- The turns come to a state in which the request `buf` is complete, and then to whatever its
-- handling makes of it.
pub record Completes (version : ℕ) (m : Allocator) (buf rest : List ℕ) (s : Server) : Type 0 where
  pub complete : Server
  pub in_body : InBody buf [] rest complete
  pub kept : Kept s complete
  pub reach : (w : Server) → handle_db_access_request m complete ≡ ok w → Runs version m s w

-- The turn that receives the last bytes of the header.
last_turn :
    (version : ℕ) (m : Allocator) (buf rest : List ℕ) (s t : Server)
    → s.conn.state ≡ initialized
    → receive_header 8 s ≡ ok (8, t)
    → Kept s t
    → InHeader (le32 2 ++ be32 (length buf)) [] (buf ++ rest) t
    → 0 < length buf
    → length buf < 2 ^ 32
    → Completes version m buf rest s
unfolding receive_from_client receive_by handle_header
last_turn version m buf rest s t state received k h some_bytes word =
    let q = start_request-Starts version m buf rest t h some_bytes word in
    record {
      complete = q.finishes.complete;
      in_body = q.finishes.in_body;
      kept = Kept-trans k q.finishes.kept;
      reach = λ w e.
          let (u, run, runs) = q.finishes.reach w e in
          turn
            (serve_client-turn version m s t q.after u 8 q.number
              (ap (λ c. receive_by c s) state ∙ received) (omega arith)
              (ap (λ c. handle_header c version m 8 t) h.state
                ∙ handle_initialized_client-starts m 8 buf rest t h some_bytes word
                ∙ q.run)
              (ap (λ c. handle_complete c m q.number q.after) q.state ∙ run))
            runs;
    }

-- A turn that leaves some of the header missing.
early_turn :
    (version : ℕ) (m : Allocator) (n : ℕ) (buf rest : List ℕ) (s t : Server)
    → s.conn.state ≡ initialized
    → receive_header 8 s ≡ ok (n, t)
    → t.conn.state ≡ initialized
    → 0 < n
    → n < 8
    → Kept s t
    → Completes version m buf rest t
    → Completes version m buf rest s
unfolding receive_from_client receive_by handle_header handle_complete
early_turn version m n buf rest s t state received state' positive part k c =
    let missing = ne→== n 8 (omega (arith, part)) in
    let waits : handle_header initialized version m n t ≡ ok (n, t) = rw missing in
    record {
      complete = c.complete;
      in_body = c.in_body;
      kept = Kept-trans k c.kept;
      reach = λ w e.
          turn
            (serve_client-turn version m s t t t n n (ap (λ c. receive_by c s) state ∙ received)
              positive (ap (λ c. handle_header c version m n t) state' ∙ waits)
              (ap (λ c. handle_complete c m n t) state'))
            (c.reach w e);
    }

pub header_turns :
    (fuel version : ℕ) (m : Allocator) (front todo buf rest : List ℕ) (s : Server)
    → InHeader front todo (buf ++ rest) s
    → front ++ todo ≡ le32 2 ++ be32 (length buf)
    → 0 < length todo
    → length todo ≤ fuel
    → 0 < length buf
    → length buf < 2 ^ 32
    → Completes version m buf rest s
header_turns zero version m front todo buf rest s h whole some_todo enough some_bytes word =
    absurd (omega (arith, some_todo, enough))
header_turns (suc fuel) version m front todo buf rest s h whole some_todo enough some_bytes word =
    let eight : length front + length todo ≡ 8 = sym (length-append front todo) ∙ ap length whole in
    let p =
      receive_header-Moves initialized 0 8 front todo (buf ++ rest) s h eight (omega arith)
        some_todo in
    let count : length todo ≡ length p.got + length p.todo' =
      ap length p.split ∙ length-append p.got p.todo' in
    let joined : (front ++ p.got) ++ p.todo' ≡ front ++ todo =
      append_assoc front p.got p.todo' ∙ ap (λ l. front ++ l) (sym p.split) in
    elim (dec_lt 0 (length p.todo')) [
      | yes more ↦
          early_turn version m (length front + length p.got) buf rest s p.after h.state p.run
            p.in_after.state (omega (arith, p.some_got)) (omega (arith, eight, count, more)) p.kept
            (header_turns fuel version m (front ++ p.got) p.todo' buf rest p.after p.in_after
              (joined ∙ whole) more (omega (arith, enough, count, p.some_got)) some_bytes word)
      | no none_left ↦
          let nil : p.todo' ≡ [] = length-nil p.todo' (omega (arith, none_left)) in
          let full : front ++ p.got ≡ le32 2 ++ be32 (length buf) =
            sym (append-nil (front ++ p.got))
            ∙ ap (λ l. (front ++ p.got) ++ l) (sym nil)
            ∙ joined
            ∙ whole in
          let n : length front + length p.got ≡ 8 = omega (arith, eight, count, ap length nil) in
          last_turn version m buf rest s p.after h.state (p.run ∙ ap (λ k. ok (k, p.after)) n)
            p.kept
            (subst (λ l. InHeader l [] (buf ++ rest) p.after) full
              (subst (λ l. InHeader (front ++ p.got) l (buf ++ rest) p.after) nil p.in_after))
            some_bytes word
    ]
