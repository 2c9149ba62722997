-- ===== src/Socket.antt =====
-- A connected socket, and send_all and receive_all of src/proto.c. The network's part is a script
-- for each direction.
pub mod Sends
pub mod Arrivals
pub mod Receives
use employee_database.Prelude.{
  ℕ, zero, suc, ◌+◌, ◌-◌, Bool, true, false, List, [], ◌∷◌, ◌++◌, length, take, drop, ltb,
  if◌then◌else◌,
}
use employee_database.Memory.{Result, ok, error, ◌>>=◌, Block, store}
use employee_database.Disk.{Outcome, partial, refused}

-- What `recv` meets: some bytes, one at least, or an error. Behind the end of the list the peer has
-- closed the connection.
pub data Arrival : Type 0 where
  arrives : ℕ → List ℕ → Arrival
  broken : Arrival

-- What is yet to arrive, the bytes sent so far, and the outcomes of the next calls of `send`. Behind
-- the end of the outcomes every `send` succeeds in full.
pub record Socket : Type 0 where
  pub incoming : List Arrival
  pub sent : List ℕ
  pub sends : List Outcome

-- Bytes that a `recv` left wait for the next one.
abbrev pub put_back : List ℕ → List Arrival → List Arrival
put_back [] s = s
put_back (b ∷ bs) s = arrives b bs ∷ s

recv_by : List Arrival → ℕ → Socket → Result (List ℕ × Socket)
recv_by s zero c = ok ([], c)
recv_by [] (suc n) c = ok ([], c)
recv_by (arrives b bs ∷ s) (suc n) c =
    ok (b ∷ take n bs, record c { incoming = put_back (drop n bs) s })
recv_by (broken ∷ s) (suc n) c = error

-- `recv(socket, buf, n, 0)`: the bytes that it stores. A call for no bytes returns 0, as at the end
-- of the connection.
unfoldable pub recv : ℕ → Socket → Result (List ℕ × Socket)
unfolding recv_by
recv n c = recv_by c.incoming n c

-- The loop of send_all: what is left to send. A round sends a byte at least.
send_loop : List Outcome → List ℕ → Socket → Result Socket
send_loop s [] c = ok (record c { sends = s })
send_loop [] (x ∷ xs) c = ok (record c { sent = c.sent ++ (x ∷ xs); sends = [] })
send_loop (partial k ∷ s) (x ∷ xs) c =
    send_loop s (drop k xs) (record c { sent = c.sent ++ take (suc k) (x ∷ xs) })
send_loop (refused ∷ s) (x ∷ xs) c = error

-- No caller uses the number of bytes that send_all returns.
unfoldable pub send_all : List ℕ → Socket → Result Socket
unfolding send_loop
send_all buf c = send_loop c.sends buf c

abbrev pub is_empty : List ℕ → Bool
is_empty [] = true
is_empty (b ∷ bs) = false

-- The loop of receive_all, with `total` bytes received. The first argument bounds the rounds; each
-- round receives a byte at least.
receive_loop : ℕ → Block → ℕ → ℕ → Socket → Result (Block × ℕ × Socket)
receive_loop zero buf total buf_size c = ok (buf, total, c)
receive_loop (suc fuel) buf total buf_size c =
    if ltb total buf_size
    then (do
      r ← recv (buf_size - total) c
      buf' ← store total r.0 buf
      let next = receive_loop fuel buf' (total + length r.0) buf_size r.1
      if is_empty r.0 then ok (buf, 0, r.1) else next)
    else ok (buf, total, c)

-- The buffer afterwards, and the number of bytes received, or 0 if the peer closed the connection.
unfoldable pub receive_all : Block → ℕ → Socket → Result (Block × ℕ × Socket)
unfolding receive_loop
receive_all buf buf_size c = receive_loop buf_size buf 0 buf_size c
