-- ===== src/Server/Clients/Indexed.antt =====
-- Where the map and the polled descriptors fit together.
use employee_database.Prelude.{
  ap, sym, ◌∙◌, ℕ, zero, suc, ◌<◌, ◌≤◌, ◌≡◌, ◌≢◌, refl, Option, false, none, some, List, [], ◌∷◌,
  ◌++◌, length, take, arith, Bool, true,
}
use employee_database.Models.{ClientConnection}
use employee_database.Memory.{ok}
use employee_database.Connections.{ConnectionMap, connection_map_get}
use employee_database.Connections.Spreads.{home}
use employee_database.Connections.Refines.{Holds, connection_map_get-Holds}
use employee_database.Connections.Corrupt.{connection_map_contains-get}
use employee_database.Server.Clients.{Clients, nth, set_nth, with_conns, client_of, or_fault}

-- The descriptor `fd` has a connection that knows its place `i` among the polled ones.
pub record Placed (f : ℕ → Option ℕ) (conns : ℕ → Option ClientConnection) (i fd : ℕ) : Type 0 where
  pub c : ℕ
  pub conn : ClientConnection
  pub mapped : f fd ≡ some c
  pub live : conns c ≡ some conn
  pub index : conn.conn_idx ≡ i

-- Each descriptor but the listener's, which is the first one, is placed.
abbrev pub Indexed : (ℕ → Option ℕ) → (ℕ → Option ClientConnection) → List ℕ → Type 0
Indexed f conns pfds = (i fd : ℕ) → nth (suc i) pfds ≡ some fd → Placed f conns (suc i) fd

pub record IsConsistent (intact : ℕ → Bool) (f : ℕ → Option ℕ) (s : Clients) : Type 0 where
  pub holds : Holds intact f s.client_connections
  pub light :
      s.client_connections.exceeds s.client_connections.entry_count s.client_connections.capacity
      ≡ false
  pub some_fds : 0 < length s.pfds
  pub inside : length s.pfds ≤ s.room
  pub sized : s.fd_size ≡ s.room
  pub unmade : (c : ℕ) → s.conns_made ≤ c → s.client_connections.conns c ≡ none
  pub indexed : Indexed f s.client_connections.conns s.pfds

-- The map holds the same whatever the connections are.
pub Holds-with_conns :
    {intact : ℕ → Bool} {f : ℕ → Option ℕ} (m : ConnectionMap) (conns : ℕ → Option ClientConnection)
    → Holds intact f m
    → Holds intact f (with_conns m conns)
Holds-with_conns m conns h = record {
  chain = h.chain;
  positive = h.positive;
  chained = h.chained;
  spreads = h.spreads;
  total = h.total;
  unmade = h.unmade;
}

pub nth-append_last :
    (i : ℕ) (xs : List ℕ) (y x : ℕ)
    → nth i (xs ++ (y ∷ [])) ≡ some x
    → (i ≡ length xs → x ≡ y) × (i ≢ length xs → nth i xs ≡ some x)
nth-append_last zero [] y x e = (λ q. cc e, λ n. absurd (n refl))
nth-append_last (suc i) [] y x e = absurd (cc e)
nth-append_last zero (z ∷ xs) y x e = (λ q. absurd (omega (arith, q)), λ n. e)
nth-append_last (suc i) (z ∷ xs) y x e =
    let r = nth-append_last i xs y x e in
    (λ q. r.0 (omega (arith, q)), λ n. r.1 (λ q. n (omega (arith, q))))

pub nth-append :
    (i : ℕ) (xs : List ℕ) (y x : ℕ) → nth i xs ≡ some x → nth i (xs ++ (y ∷ [])) ≡ some x
nth-append i [] y x e = absurd (cc e)
nth-append zero (z ∷ xs) y x e = e
nth-append (suc i) (z ∷ xs) y x e = nth-append i xs y x e

-- A place below the end has a descriptor.
pub nth-inside : (i : ℕ) (xs : List ℕ) → i < length xs → (x : ℕ) × (nth i xs ≡ some x)
nth-inside i [] h = absurd (omega (arith, h))
nth-inside zero (x ∷ xs) h = (x, refl)
nth-inside (suc i) (x ∷ xs) h = nth-inside i xs (omega (arith, h))

pub nth-take :
    (i n : ℕ) (xs : List ℕ) (x : ℕ) → nth i (take n xs) ≡ some x → (i < n) × (nth i xs ≡ some x)
nth-take i zero xs x e = absurd (cc e)
nth-take i (suc n) [] x e = absurd (cc e)
nth-take zero (suc n) (y ∷ xs) x e = (omega arith, e)
nth-take (suc i) (suc n) (y ∷ xs) x e = let r = nth-take i n xs x e in (omega (arith, r.0), r.1)

pub nth-set_nth :
    (i j y : ℕ) (xs : List ℕ) (x : ℕ)
    → nth j (set_nth i y xs) ≡ some x
    → (j ≡ i → x ≡ y) × (j ≢ i → nth j xs ≡ some x)
nth-set_nth i j y [] x e = absurd (cc e)
nth-set_nth zero zero y (z ∷ xs) x e = (λ q. cc e, λ n. absurd (n refl))
nth-set_nth zero (suc j) y (z ∷ xs) x e = (λ q. absurd (omega (arith, q)), λ n. e)
nth-set_nth (suc i) zero y (z ∷ xs) x e = (λ q. absurd (omega (arith, q)), λ n. e)
nth-set_nth (suc i) (suc j) y (z ∷ xs) x e =
    let r = nth-set_nth i j y xs x e in
    (λ q. r.0 (omega (arith, q)), λ n. r.1 (λ q. n (omega (arith, q))))

pub length-set_nth : (i y : ℕ) (xs : List ℕ) → length (set_nth i y xs) ≡ length xs
length-set_nth i y [] = refl
length-set_nth zero y (x ∷ xs) = refl
length-set_nth (suc i) y (x ∷ xs) = ap suc (length-set_nth i y xs)

pub nth-beyond : (i : ℕ) (xs : List ℕ) (x : ℕ) → nth i xs ≡ some x → i < length xs
nth-beyond i [] x e = absurd (cc e)
nth-beyond zero (y ∷ xs) x e = omega arith
nth-beyond (suc i) (y ∷ xs) x e = omega (arith, nth-beyond i xs x e)

-- Connections that know different places are different.
pub apart_by_index :
    (conns : ℕ → Option ClientConnection) (c d : ℕ) (x y : ClientConnection)
    → conns c ≡ some x
    → conns d ≡ some y
    → x.conn_idx ≢ y.conn_idx
    → c ≢ d
apart_by_index conns c d x y at there n q =
    let both : some x ≡ some y = sym at ∙ ap conns q ∙ there in
    let same : x ≡ y = cc both in n (ap (λ z. z.conn_idx) same)

-- The client at a place is found.
pub client_of-Placed :
    (intact : ℕ → Bool) (f : ℕ → Option ℕ) (fd c : ℕ) (s : Clients)
    → Holds intact f s.client_connections
    → intact (home fd s.client_connections.capacity) ≡ true
    → f fd ≡ some c
    → client_of fd s ≡ ok c
unfolding client_of or_fault
client_of-Placed intact f fd c s h whole mapped =
    let got : connection_map_get s.client_connections fd ≡ ok (some c) =
      connection_map_get-Holds intact f s.client_connections fd h whole ∙ ap ok mapped in
    rw (connection_map_contains-get s.client_connections fd, got) refl
