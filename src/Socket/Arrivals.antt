-- ===== src/Socket/Arrivals.antt =====
-- What a `recv` takes of what is to arrive.
use employee_database.Prelude.{
  ℕ, zero, suc, ◌<◌, ◌≤◌, ◌≡◌, refl, sym, ap, ◌∙◌, true, false, Bool, List, [], ◌∷◌, ◌++◌, length,
  take, drop, arith, take-append-drop, append_assoc, length-take,
}
use employee_database.Memory.{Result, ok, error, fault}
use employee_database.Socket.{Arrival, arrives, broken, Socket, put_back, recv, recv_by}

-- All bytes that are yet to arrive.
abbrev pub bytes : List Arrival → List ℕ
bytes [] = []
bytes (arrives b bs ∷ s) = b ∷ (bs ++ bytes s)
bytes (broken ∷ s) = bytes s

abbrev pub breaks : List Arrival → Bool
breaks [] = false
breaks (arrives b bs ∷ s) = breaks s
breaks (broken ∷ s) = true

bytes-put_back : (xs : List ℕ) (s : List Arrival) → bytes (put_back xs s) ≡ xs ++ bytes s
bytes-put_back [] s = refl
bytes-put_back (x ∷ xs) s = refl

breaks-put_back : (xs : List ℕ) (s : List Arrival) → breaks (put_back xs s) ≡ breaks s
breaks-put_back [] s = refl
breaks-put_back (x ∷ xs) s = refl

-- What a `recv` for `n` bytes, not 0, gives where no error comes: some first bytes of what is to
-- arrive, or none if nothing is.
pub record Got (n : ℕ) (c : Socket) (xs : List ℕ) (d : Socket) : Type 0 where
  pub split : bytes c.incoming ≡ xs ++ bytes d.incoming
  pub some_left : 0 < length (bytes c.incoming) → 0 < length xs
  pub at_most : length xs ≤ n
  pub clean : breaks d.incoming ≡ false
  pub rest : d ≡ record c { incoming = d.incoming }

-- A `recv` for no bytes.
pub recv_none : (c : Socket) → recv 0 c ≡ ok ([], c)
unfolding recv recv_by
recv_none c = none_by c.incoming
  where
    none_by : (s : List Arrival) → recv_by s 0 c ≡ ok ([], c)
    none_by [] = refl
    none_by (a ∷ s) = refl

recv_by-Got :
    (s : List Arrival) (n : ℕ) (c : Socket)
    → c.incoming ≡ s
    → breaks s ≡ false
    → (xs : List ℕ) × (d : Socket) × (recv_by s (suc n) c ≡ ok (xs, d)) × Got (suc n) c xs d
unfolding recv_by
recv_by-Got [] n c e clean = (
  [],
  c,
  refl,
  record {
    split = refl;
    some_left = λ h. rw e at h;
    at_most = omega arith;
    clean = rw e refl;
    rest = refl;
  },
)
recv_by-Got (arrives b bs ∷ s) n c e clean = (
  b ∷ take n bs,
  record c { incoming = put_back (drop n bs) s },
  refl,
  record {
    split =
        ap bytes e
        ∙ ap (λ l. b ∷ (l ++ bytes s)) (sym (take-append-drop n bs))
        ∙ ap (λ l. b ∷ l) (append_assoc (take n bs) (drop n bs) (bytes s))
        ∙ ap (λ l. b ∷ (take n bs ++ l)) (sym (bytes-put_back (drop n bs) s));
    some_left = λ h. omega arith;
    at_most = omega (arith, length-take n bs);
    clean = breaks-put_back (drop n bs) s ∙ clean;
    rest = refl;
  },
)
recv_by-Got (broken ∷ s) n c e clean = cc

pub recv-Got :
    (n : ℕ) (c : Socket)
    → 0 < n
    → breaks c.incoming ≡ false
    → (xs : List ℕ) × (d : Socket) × (recv n c ≡ ok (xs, d)) × Got n c xs d
unfolding recv
recv-Got zero c positive clean = absurd (omega arith)
recv-Got (suc n) c positive clean = recv_by-Got c.incoming n c refl clean

-- Whatever the network does, a `recv` for `n` bytes stores at most so many.
abbrev pub Bounded : ℕ → Result (List ℕ × Socket) → Type 0
Bounded n (ok (xs, d)) = length xs ≤ n
Bounded n error = Unit {0}
Bounded n fault = ⊥

recv_by-Bounded : (s : List Arrival) (n : ℕ) (c : Socket) → Bounded n (recv_by s n c)
unfolding recv_by
recv_by-Bounded s zero c = omega arith
recv_by-Bounded [] (suc n) c = omega arith
recv_by-Bounded (arrives b bs ∷ s) (suc n) c = omega (arith, length-take n bs)
recv_by-Bounded (broken ∷ s) (suc n) c = tt

pub recv-Bounded : (n : ℕ) (c : Socket) → Bounded n (recv n c)
unfolding recv
recv-Bounded n c = recv_by-Bounded c.incoming n c
