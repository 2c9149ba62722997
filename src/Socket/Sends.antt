-- ===== src/Socket/Sends.antt =====
-- send_all sends everything, however the system splits the transfer.
use employee_database.Prelude.{
  ℕ, suc, ◌≡◌, refl, sym, ap, ◌∙◌, false, List, [], ◌∷◌, ◌++◌, take, drop, take-append-drop,
  append_assoc, append-nil,
}
use employee_database.Memory.{Result, ok, error, fault}
use employee_database.Disk.{Outcome, partial, refused}
use employee_database.Serialize.Loop.{refuses}
use employee_database.Socket.{Socket, send_loop, send_all}

-- The socket after `xs` was sent.
abbrev pub with_sent : Socket → List ℕ → List Outcome → Socket
with_sent c xs s = record c { sent = c.sent ++ xs; sends = s }

abbrev pub Sent : Socket → List ℕ → Socket → Type 0
Sent c xs d = (s : List Outcome) × (refuses s ≡ false) × (d ≡ with_sent c xs s)

send_loop-Sent :
    (s : List Outcome) (xs : List ℕ) (c : Socket)
    → refuses s ≡ false
    → (d : Socket) × (send_loop s xs c ≡ ok d) × Sent c xs d
unfolding send_loop
send_loop-Sent s [] c clean = (
  record c { sends = s },
  refl,
  (s, clean, ap (λ l. record c { sent = l; sends = s }) (sym (append-nil c.sent))),
)
send_loop-Sent [] (x ∷ xs) c clean = (with_sent c (x ∷ xs) [], refl, ([], refl, refl))
send_loop-Sent (partial k ∷ s) (x ∷ xs) c clean =
    let front = take (suc k) (x ∷ xs) in
    let (d, run, (t, clean', e)) =
      send_loop-Sent s (drop k xs) (record c { sent = c.sent ++ front }) clean in
    let whole : (c.sent ++ front) ++ drop k xs ≡ c.sent ++ (x ∷ xs) =
      append_assoc c.sent front (drop k xs)
      ∙ ap (λ l. c.sent ++ l) (take-append-drop (suc k) (x ∷ xs)) in
    (d, run, (t, clean', e ∙ ap (λ l. record c { sent = l; sends = t }) whole))
send_loop-Sent (refused ∷ s) (x ∷ xs) c clean = cc

-- If no `send` is refused, however the system splits the transfer send_all returns and has sent
-- exactly its bytes behind those sent before, and nothing else of the socket changes but the script
-- of outcomes.
pub send_all-Sent :
    (xs : List ℕ) (c : Socket)
    → refuses c.sends ≡ false
    → (d : Socket) × (send_all xs c ≡ ok d) × Sent c xs d
unfolding send_all
send_all-Sent xs c clean = send_loop-Sent c.sends xs c clean

-- Sending ends well or in an error.
abbrev pub Ends : Result Socket → Type 0
Ends (ok c) = Unit {0}
Ends error = Unit {0}
Ends fault = ⊥

send_loop-Ends : (s : List Outcome) (xs : List ℕ) (c : Socket) → Ends (send_loop s xs c)
unfolding send_loop
send_loop-Ends s [] c = tt
send_loop-Ends [] (x ∷ xs) c = tt
send_loop-Ends (partial k ∷ s) (x ∷ xs) c = send_loop-Ends s (drop k xs) _
send_loop-Ends (refused ∷ s) (x ∷ xs) c = tt

pub send_all-Ends : (xs : List ℕ) (c : Socket) → Ends (send_all xs c)
unfolding send_all
send_all-Ends xs c = send_loop-Ends c.sends xs c
