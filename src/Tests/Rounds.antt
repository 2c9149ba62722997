-- ===== src/Tests/Rounds.antt =====
-- The server's loop with two clients.
use employee_database.Prelude.{
  ℕ, zero, suc, ◌≡◌, ◌≢◌, refl, sym, ap, ◌∙◌, true, Option, some, [], ◌∷◌, map, length, arith, ltb,
  ◌*◌,
}
use employee_database.Employee.{stored}
use employee_database.Socket.{Socket, arrives}
use employee_database.Connections.{write, hash_key, connection_map_init}
use employee_database.Connections.Spreads.{home}
use employee_database.Connections.Refines.{everywhere}
use employee_database.Request.Database.{header_of}
use employee_database.Server.Clients.{nth, named}
use employee_database.Server.Loop.{System, visit, poll_round}
use employee_database.Server.Loop.Invariant.{IsSystem}
use employee_database.Server.Loop.Turns.{Visits, visit-Visits}
use employee_database.Server.Loop.Joins.{Admits, visit-Admits}
use employee_database.Server.Loop.Reach.{here, joins, Reach-IsSystem}
use employee_database.Server.Loop.Buckets.{NewBucket}
use employee_database.Server.Loop.Round.{IsRound, RoundEnds, poll_round-RoundEnds}
use employee_database.Tests.Data.{ada, ample}
use employee_database.Tests.Requests.{loaded_file}
use employee_database.Tests.Visitors.{no_one, opened, opened-IsConsistent, start}

-- Every client sends a handshake request with the version 1.
abbrev handshakes : ℕ → Socket
handshakes fd = record { incoming = arrives 0 (0 ∷ 0 ∷ 0 ∷ 0 ∷ 1 ∷ []) ∷ []; sent = []; sends = [] }

abbrev started : System
started = record {
  clients = opened;
  sockets = handshakes;
  employees = map stored (ada ∷ []);
  dbhdr = header_of (ada ∷ []);
  file = loaded_file;
}

started-IsSystem : IsSystem 4 everywhere no_one started
unfolding connection_map_init
started-IsSystem = record {
  consistent = opened-IsConsistent;
  listens = refl;
  unmapped = refl;
  connections = λ c conn e. absurd (cc e);
}

-- The client with the descriptor 5 has come.
first : Admits 4 everywhere no_one (named 5) started (visit 1 ample 4 (named 5) 0 started)
first =
    visit-Admits 1 ample 4 (named 5) everywhere no_one started (λ n. refl) started-IsSystem
      (omega arith, refl, refl)

abbrev with_client : System
with_client = record started { clients = first.after }

Reach-IsSystem_example : IsSystem 4 everywhere (write 5 (some 0) no_one) with_client
Reach-IsSystem_example =
    Reach-IsSystem 1 ample (λ count capacity. ltb capacity (2 * count)) 4 started everywhere
      (write 5 (some 0) no_one) with_client (λ n. refl) refl start
      (joins (named 5) here (omega arith, refl, refl) first.run)

placed : nth 1 with_client.clients.pfds ≡ some 5
placed = ap (nth 1) first.pfds

visit-Visits_example :
    (c : ℕ) × (write {A = Option ℕ} 5 (some 0) no_one 5 ≡ some c)
    × Visits 1 ample 4 everywhere
        (write 5 (some 0) no_one)
        1
        5
        c
        with_client
        (visit 1 ample 4 (named 6) 1 with_client)
visit-Visits_example =
    visit-Visits 1 ample 4 (named 6) everywhere (write 5 (some 0) no_one) 0 5 with_client
      first.system placed refl (λ x e. refl)

-- The client alone has its bucket.
alone : (j x : ℕ) → nth (suc j) with_client.clients.pfds ≡ some x → (x ≡ 5) × (j ≡ 0)
alone j x e = at_place j (sym (ap (nth (suc j)) first.pfds) ∙ e)
  where
    at_place : (j : ℕ) → nth (suc j) (4 ∷ 5 ∷ []) ≡ some x → (x ≡ 5) × (j ≡ 0)
    at_place zero e = (sym (let q : 5 ≡ x = cc e in q), refl)
    at_place (suc j) e = absurd (cc e)

before_round : IsRound 4 with_client
before_round = record {
  intact = everywhere;
  f = write 5 (some 0) no_one;
  system = first.system;
  buckets = record {
    whole = λ j x e. refl;
    apart = λ j k x y e e' d. absurd (d ((alone j x e).1 ∙ sym (alone k y e').1));
  };
}

other_buckets : home 5 101 ≢ home 6 101
unfolding hash_key
other_buckets = omega arith

new_bucket : NewBucket (named 6) with_client
unfolding connection_map_init
new_bucket j x e q = other_buckets (
    ap (λ z. home z 101) (sym (alone j x e).0)
    ∙ ap (home x) (sym first.capacity)
    ∙ q
    ∙ ap (home 6) first.capacity)

-- Both the listener and the client are ready.
poll_round-RoundEnds_example :
    RoundEnds 1 ample 4
      (named 6)
      (λ i. true)
      with_client
      (poll_round 4 1 ample 4 (named 6) (λ i. true) 0 with_client)
unfolding before_round
poll_round-RoundEnds_example =
    poll_round-RoundEnds 1 ample 4 (named 6) (λ i. true) 4 with_client before_round (λ n. refl)
      (omega arith, refl, refl) new_bucket (omega (arith, ap length first.pfds))
