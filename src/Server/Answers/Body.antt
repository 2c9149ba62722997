-- ===== src/Server/Answers/Body.antt =====
-- The bytes of a request are collected, and then the request is handled.
use employee_database.Prelude.{
  ℕ, zero, suc, ◌+◌, ◌^◌, ◌<◌, ◌≤◌, ◌≡◌, refl, sym, ap, ◌∙◌, true, List, [], ◌∷◌, ◌++◌, arith,
  length, length-append, append-nil, append_assoc, eq→==, ne→==, subst,
}
use employee_database.Memory.{Result, ok, Allocator}
use employee_database.Models.{request}
use employee_database.Server.{
  Server, receive_buf, receive_by, receive_from_client, handle_header, handle_complete,
  handle_db_access_request, serve_client,
}
use employee_database.Server.Answers.{
  Runs, here, turn, Kept, Kept-trans, InBody, Moves, receive_buf-Moves,
}

-- Whatever the handler makes of the complete request is reached from what the step answers.
pub record Finishes (version : ℕ) (m : Allocator) (whole rest : List ℕ) (s : Server)
    (r : Result Server) : Type 0 where
  pub complete : Server
  pub in_body : InBody whole [] rest complete
  pub kept : Kept s complete
  pub reach :
      (w : Server)
      → handle_db_access_request m complete ≡ ok w
      → (t : Server) × (r ≡ ok t) × Runs version m t w

pub Kept-refl : (s : Server) → Kept s s
Kept-refl s = record { employees = refl; dbhdr = refl; file = refl; sent = refl; sends = refl }

-- The parts of a turn.
pub serve_client-turn :
    (version : ℕ) (m : Allocator) (s t q u : Server) (n k : ℕ)
    → receive_from_client s ≡ ok (n, t)
    → 0 < n
    → handle_header t.conn.state version m n t ≡ ok (k, q)
    → handle_complete q.conn.state m k q ≡ ok u
    → serve_client version m s ≡ ok (true, u)
unfolding serve_client
serve_client-turn version m s t q u n k received positive headed completed =
    rw (received, ne→== n 0 (omega (arith, positive)), headed, completed)

-- One more turn, if the turns after its receive finish.
body_turn :
    (version : ℕ) (m : Allocator) (front todo rest : List ℕ) (s : Server)
    → InBody front todo rest s
    → (p : Moves InBody front todo rest s (receive_buf s.conn.buf s))
    → Finishes version m
        (front ++ todo)
        rest
        p.after
        (handle_complete request m (length front + length p.got) p.after)
    → Finishes version m (front ++ todo) rest s (ok s)
unfolding receive_from_client receive_by handle_header
body_turn version m front todo rest s h p f = record {
  complete = f.complete;
  in_body = f.in_body;
  kept = Kept-trans p.kept f.kept;
  reach = λ w e.
      let n = length front + length p.got in
      let (t, run, runs) = f.reach w e in
      (
        s,
        refl,
        turn
            (serve_client-turn version m s p.after p.after t n n
              (ap (λ q. receive_by q s) h.state ∙ p.run) (omega (arith, p.some_got))
              (ap (λ q. handle_header q version m n p.after) p.in_after.state)
              (ap (λ q. handle_complete q m n p.after) p.in_after.state ∙ run))
            runs,
      );
}

pub body_after :
    (fuel version : ℕ) (m : Allocator) (front todo rest : List ℕ) (n : ℕ) (s : Server)
    → InBody front todo rest s
    → n ≡ length front
    → length front + length todo < 2 ^ 32
    → length todo ≤ fuel
    → Finishes version m (front ++ todo) rest s (handle_complete request m n s)
unfolding handle_complete
body_after fuel version m front [] rest n s h at word enough = record {
  complete = s;
  in_body = rw (append-nil front) h;
  kept = Kept-refl s;
  reach = λ w e. (w, rw (eq→== n s.conn.buf_size (omega (arith, at, h.size)), e), here);
}
body_after zero version m front (x ∷ xs) rest n s h at word enough = absurd (omega (arith, enough))
body_after (suc fuel) version m front (x ∷ xs) rest n s h at word enough =
    let p = receive_buf-Moves front (x ∷ xs) rest s h word (omega arith) in
    let count : length (x ∷ xs) ≡ length p.got + length p.todo' =
      ap length p.split ∙ length-append p.got p.todo' in
    let joined : (front ++ p.got) ++ p.todo' ≡ front ++ (x ∷ xs) =
      append_assoc front p.got p.todo' ∙ ap (λ l. front ++ l) (sym p.split) in
    let next =
      body_after fuel version m (front ++ p.got) p.todo' rest (length front + length p.got) p.after
        p.in_after (sym (length-append front p.got))
        (omega (arith, word, count, length-append front p.got))
        (omega (arith, enough, count, p.some_got)) in
    rw (ne→== n s.conn.buf_size (omega (arith, at, h.size))) (
      body_turn version m front (x ∷ xs) rest s h p (
        subst
          (λ l.
            Finishes version m l rest p.after
              (handle_complete request m (length front + length p.got) p.after))
          joined next))
