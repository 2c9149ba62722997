-- ===== src/Tests/Sockets.antt =====
-- Sending and receiving in pieces.
use employee_database.Prelude.{◌≡◌, refl, [], ◌∷◌}
use employee_database.Memory.{ok}
use employee_database.Disk.{partial}
use employee_database.Socket.{arrives, Socket, send_all, receive_all}
use employee_database.Socket.Sends.{Sent, send_all-Sent}
use employee_database.Socket.Receives.{Left, receive_all-Left}

-- Five bytes arrive in two pieces, and `send` takes two bytes at first.
abbrev pub pieces : Socket
pieces = record {
  incoming = arrives 1 (2 ∷ []) ∷ arrives 3 (4 ∷ 5 ∷ []) ∷ [];
  sent = 9 ∷ [];
  sends = partial 1 ∷ [];
}

send_all-Sent_example :
    (d : Socket) × (send_all (6 ∷ 7 ∷ 8 ∷ []) pieces ≡ ok d) × Sent pieces (6 ∷ 7 ∷ 8 ∷ []) d
send_all-Sent_example = send_all-Sent (6 ∷ 7 ∷ 8 ∷ []) pieces refl

receive_all-Left_example :
    (d : Socket) × (receive_all (0 ∷ 0 ∷ 0 ∷ 0 ∷ []) 4 pieces ≡ ok (1 ∷ 2 ∷ 3 ∷ 4 ∷ [], 4, d))
    × Left pieces (5 ∷ []) d
receive_all-Left_example =
    receive_all-Left (0 ∷ 0 ∷ 0 ∷ 0 ∷ []) (1 ∷ 2 ∷ 3 ∷ 4 ∷ []) (5 ∷ []) pieces refl refl refl
