-- ===== src/Server/Answers.antt =====
-- A request that arrives in any pieces is collected over the turns of its client.
pub mod Body
pub mod Header
pub mod Handshake
pub mod Reply
use employee_database.Prelude.{
  ℕ, zero, suc, ◌+◌, ◌-◌, ◌%◌, ◌^◌, ◌<◌, ◌≤◌, ◌≡◌, refl, sym, ap, ◌∙◌, true, false, Option, some,
  List, [], ◌∷◌, ◌++◌, arith, length, drop, length-drop, length-append,
}
use employee_database.Memory.{Result, ok, ◌>>=◌, Block, store, Allocator}
use employee_database.Models.{ClientConnection, ClientState, uninitialized, initialized, request}
use employee_database.Socket.{Socket, recv, is_empty}
use employee_database.Socket.Arrivals.{bytes, breaks, Got, recv-Got}
use employee_database.Socket.Receives.{prefix_split, store_piece, nonempty}
use employee_database.Server.{
  Server, receive_header, receive_buf, receive_from_client, serve_client,
}

-- Some turns of one client.
pub data Runs (version : ℕ) (m : Allocator) : Server → Server → Type 0 where
  here : {s : Server} → Runs version m s s
  turn :
      {s t u : Server}
      → serve_client version m s ≡ ok (true, t)
      → Runs version m t u
      → Runs version m s u

-- Only the connection and what arrives have changed.
pub record Kept (s t : Server) : Type 0 where
  pub employees : t.employees ≡ s.employees
  pub dbhdr : t.dbhdr ≡ s.dbhdr
  pub file : t.file ≡ s.file
  pub sent : t.socket.sent ≡ s.socket.sent
  pub sends : t.socket.sends ≡ s.socket.sends

pub Kept-trans : {s t u : Server} → Kept s t → Kept t u → Kept s u
Kept-trans a b = record {
  employees = b.employees ∙ a.employees;
  dbhdr = b.dbhdr ∙ a.dbhdr;
  file = b.file ∙ a.file;
  sent = b.sent ∙ a.sent;
  sends = b.sends ∙ a.sends;
}

-- In a state of the connection, `front` of a header is there, `todo` is to come, and `rest` after it;
-- `extra` bytes behind are not used in this state.
pub record Collects (phase : ClientState) (extra : ℕ) (front todo rest : List ℕ) (s : Server)
    : Type 0 where
  pub back : Block
  pub state : s.conn.state ≡ phase
  pub header : s.conn.header ≡ front ++ back
  pub same : length back ≡ length todo + extra
  pub cursor : s.conn.header_cursor ≡ length front
  pub incoming : bytes s.socket.incoming ≡ todo ++ rest
  pub clean : breaks s.socket.incoming ≡ false

-- The header of a request takes the 8 bytes, that of a handshake 6 of them.
abbrev pub InHeader : List ℕ → List ℕ → List ℕ → Server → Type 0
InHeader = Collects initialized 0

abbrev pub InHandshake : List ℕ → List ℕ → List ℕ → Server → Type 0
InHandshake = Collects uninitialized 2

-- Of the request, `front` is there, `todo` is to come, and `rest` after it.
pub record InBody (front todo rest : List ℕ) (s : Server) : Type 0 where
  pub back : Block
  pub state : s.conn.state ≡ request
  pub buf : s.conn.buf ≡ some (front ++ back)
  pub same : length back ≡ length todo
  pub cursor : s.conn.buf_cursor ≡ length front
  pub size : s.conn.buf_size ≡ length front + length todo
  pub incoming : bytes s.socket.incoming ≡ todo ++ rest
  pub clean : breaks s.socket.incoming ≡ false

-- A receive moves a nonempty first part of `todo` behind `front`.
pub record Moves (In : List ℕ → List ℕ → List ℕ → Server → Type 0) (front todo rest : List ℕ)
    (s : Server) (r : Result (ℕ × Server)) : Type 0 where
  pub got : List ℕ
  pub todo' : List ℕ
  pub after : Server
  pub run : r ≡ ok (length front + length got, after)
  pub split : todo ≡ got ++ todo'
  pub some_got : 0 < length got
  pub in_after : In (front ++ got) todo' rest after
  pub kept : Kept s after

-- What a `recv` for exactly `todo` gives.
pub record Piece (todo rest : List ℕ) (c : Socket) (r : Result (List ℕ × Socket)) : Type 0 where
  pub got : List ℕ
  pub todo' : List ℕ
  pub after : Socket
  pub run : r ≡ ok (got, after)
  pub split : todo ≡ got ++ todo'
  pub some_got : 0 < length got
  pub incoming : bytes after.incoming ≡ todo' ++ rest
  pub clean : breaks after.incoming ≡ false
  pub kept : after ≡ record c { incoming = after.incoming }

pub recv-Piece :
    (n : ℕ) (todo rest : List ℕ) (c : Socket)
    → n ≡ length todo
    → 0 < length todo
    → bytes c.incoming ≡ todo ++ rest
    → breaks c.incoming ≡ false
    → Piece todo rest c (recv n c)
recv-Piece n todo rest c size some_todo e clean =
    let (ys, d, run, g) = recv-Got n c (omega (arith, size, some_todo)) clean in
    let (zs, whole, behind) =
      prefix_split todo rest ys (bytes d.incoming) (sym e ∙ g.split)
        (omega (arith, g.at_most, size)) in
    record {
      got = ys;
      todo' = zs;
      after = d;
      run = run;
      split = whole;
      some_got = g.some_left (omega (arith, some_todo, ap length e, length-append todo rest));
      incoming = behind;
      clean = g.clean;
      kept = g.rest;
    }

Piece-Kept :
    {todo rest : List ℕ} {s : Server} {r : Result (List ℕ × Socket)}
    (p : Piece todo rest s.socket r) (c : ClientConnection)
    → Kept s (record s { socket = p.after; conn = c })
Piece-Kept p c = record {
  employees = refl;
  dbhdr = refl;
  file = refl;
  sent = ap (λ d. d.sent) p.kept;
  sends = ap (λ d. d.sends) p.kept;
}

pub receive_header-Moves :
    (state : ClientState) (extra size : ℕ) (front todo rest : List ℕ) (s : Server)
    → Collects state extra front todo rest s
    → length front + length todo ≡ size
    → size ≤ 8
    → 0 < length todo
    → Moves (Collects state extra) front todo rest s (receive_header size s)
unfolding receive_header
receive_header-Moves state extra size front todo rest s h whole small some_todo =
    let rem : (size + 2 ^ 64 - s.conn.header_cursor) % 2 ^ 64 ≡ length todo =
      omega (arith, h.cursor, whole, small, some_todo) in
    let p = recv-Piece (length todo) todo rest s.socket refl some_todo h.incoming h.clean in
    let count : length todo ≡ length p.got + length p.todo' =
      ap length p.split ∙ length-append p.got p.todo' in
    let header = (front ++ p.got) ++ drop (length p.got) h.back in
    record {
      got = p.got;
      todo' = p.todo';
      after = record s {
        socket = p.after;
        conn = record s.conn { header = header; header_cursor = length front + length p.got };
      };
      run = rw (
        rem,
        p.run,
        h.header,
        h.cursor,
        store_piece (length front) front p.got h.back refl (omega (arith, h.same, count)),
        nonempty p.got p.some_got,
      );
      split = p.split;
      some_got = p.some_got;
      in_after = record {
        back = drop (length p.got) h.back;
        state = h.state;
        header = refl;
        same = omega (arith, length-drop (length p.got) h.back, h.same, count);
        cursor = sym (length-append front p.got);
        incoming = p.incoming;
        clean = p.clean;
      };
      kept = Piece-Kept p _;
    }

pub receive_buf-Moves :
    (front todo rest : List ℕ) (s : Server)
    → InBody front todo rest s
    → length front + length todo < 2 ^ 32
    → 0 < length todo
    → Moves InBody front todo rest s (receive_buf s.conn.buf s)
unfolding receive_buf
receive_buf-Moves front todo rest s h word some_todo =
    let rem : (s.conn.buf_size + 2 ^ 64 - s.conn.buf_cursor) % 2 ^ 64 ≡ length todo =
      omega (arith, h.cursor, h.size, word, some_todo) in
    let p = recv-Piece (length todo) todo rest s.socket refl some_todo h.incoming h.clean in
    let count : length todo ≡ length p.got + length p.todo' =
      ap length p.split ∙ length-append p.got p.todo' in
    let buf = (front ++ p.got) ++ drop (length p.got) h.back in
    record {
      got = p.got;
      todo' = p.todo';
      after = record s {
        socket = p.after;
        conn = record s.conn { buf = some buf; buf_cursor = length front + length p.got };
      };
      run = rw (
        h.buf,
        rem,
        p.run,
        h.cursor,
        store_piece (length front) front p.got h.back refl (omega (arith, h.same, count)),
        nonempty p.got p.some_got,
      );
      split = p.split;
      some_got = p.some_got;
      in_after = record {
        back = drop (length p.got) h.back;
        state = h.state;
        buf = refl;
        same = omega (arith, length-drop (length p.got) h.back, h.same, count);
        cursor = sym (length-append front p.got);
        size = omega (arith, h.size, length-append front p.got, count);
        incoming = p.incoming;
        clean = p.clean;
      };
      kept = Piece-Kept p _;
    }
