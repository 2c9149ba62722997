-- ===== src/Server/Setup/Listener.antt =====
-- Which address the server listens at.
use employee_database.Prelude.{
  ℕ, ◌≡◌, refl, sym, ap, subst, Option-cases, ◌∙◌, true, false, Option, none, some, List, [], ◌∷◌,
  ◌++◌, All, Bool-cases, ◌⊎◌, inl, inr,
}
use employee_database.Memory.{Result, ok, error, fault}
use employee_database.Server.Setup.{
  Address, Network, at_address, bind_loop, after_binding, get_listener_socket,
}

-- An address that the loop passes: there is no socket for it, or it can not be bound.
abbrev pub Passed : Address → Type 0
Passed a = (a.fd ≡ none) ⊎ ((fd : ℕ) × (a.fd ≡ some fd) × (a.reusable ≡ true) × (a.binds ≡ false))

-- The first address that is not passed is bound to the descriptor.
pub record Bound (fd : ℕ) (addresses : List Address) : Type 0 where
  pub front : List Address
  pub address : Address
  pub back : List Address
  pub split : addresses ≡ front ++ (address ∷ back)
  pub passed : All Passed front
  pub socket : address.fd ≡ some fd
  pub reusable : address.reusable ≡ true
  pub binds : address.binds ≡ true

Bound-pass :
    (fd : ℕ) (a : Address) (addresses : List Address)
    → Passed a
    → Bound fd addresses
    → Bound fd (a ∷ addresses)
Bound-pass fd a addresses p b = record {
  front = a ∷ b.front;
  address = b.address;
  back = b.back;
  split = ap (λ l. a ∷ l) b.split;
  passed = (p, b.passed);
  socket = b.socket;
  reusable = b.reusable;
  binds = b.binds;
}

-- What the loop leaves: a bound descriptor, which is the only one that is open, or an error.
abbrev pub Binds : List Address → Result ℕ × List ℕ → Type 0
Binds addresses (ok fd, left) = Bound fd addresses × (left ≡ fd ∷ [])
Binds addresses (error, left) = Unit {0}
Binds addresses (fault, left) = ⊥

Binds-pass :
    (a : Address) (addresses : List Address) (r : Result ℕ × List ℕ)
    → Passed a
    → Binds addresses r
    → Binds (a ∷ addresses) r
Binds-pass a addresses (ok fd, left) p (b, e) = (Bound-pass fd a addresses p b, e)
Binds-pass a addresses (error, left) p b = tt
Binds-pass a addresses (fault, left) p b = b

at_address-Binds :
    (a : Address) (addresses : List Address) (fd : Option ℕ)
    → a.fd ≡ fd
    → Binds addresses (bind_loop addresses)
    → Binds (a ∷ addresses) (at_address a fd (bind_loop addresses))
unfolding at_address
at_address-Binds a addresses none e rest = Binds-pass a addresses (bind_loop addresses) (inl e) rest
at_address-Binds a addresses (some fd) e rest = elim (Bool-cases (a.reusable)) [
  | inl y ↦ elim (Bool-cases (a.binds)) [
    | inl z ↦
        let run : at_address a (some fd) (bind_loop addresses) ≡ (ok fd, fd ∷ []) =
          rw (y, z) refl in
        let bound : Bound fd (a ∷ addresses) = record {
          front = [];
          address = a;
          back = addresses;
          split = refl;
          passed = tt;
          socket = e;
          reusable = y;
          binds = z;
        } in
        subst (Binds (a ∷ addresses)) (sym run) (bound, refl)
    | inr z ↦
        let run : at_address a (some fd) (bind_loop addresses) ≡ bind_loop addresses =
          rw (y, z) refl in
        subst (Binds (a ∷ addresses)) (sym run)
          (Binds-pass a addresses (bind_loop addresses) (inr (fd, e, y, z)) rest)
  ]
  | inr n ↦
      let run : at_address a (some fd) (bind_loop addresses) ≡ (error, fd ∷ []) = rw n refl in
      subst (Binds (a ∷ addresses)) (sym run) tt
]

bind_loop-Binds : (addresses : List Address) → Binds addresses (bind_loop addresses)
unfolding bind_loop
bind_loop-Binds [] = tt
bind_loop-Binds (a ∷ addresses) = at_address-Binds a addresses a.fd refl (bind_loop-Binds addresses)

-- Conversely, the loop comes to the first address that is not passed.
at_address-pass :
    (a : Address) (rest : Result ℕ × List ℕ) → Passed a → at_address a a.fd rest ≡ rest
unfolding at_address
at_address-pass a rest (inl e) = rw e refl
at_address-pass a rest (inr (fd, e, y, z)) = rw (e, y, z) refl

bind_loop-Bound :
    (fd : ℕ) (front : List Address) (a : Address) (back : List Address)
    → All Passed front
    → a.fd ≡ some fd
    → a.reusable ≡ true
    → a.binds ≡ true
    → bind_loop (front ++ (a ∷ back)) ≡ (ok fd, fd ∷ [])
unfolding bind_loop at_address
bind_loop-Bound fd [] a back passed e y z = rw (e, y, z) refl
bind_loop-Bound fd (b ∷ front) a back (p, passed) e y z =
    at_address-pass b (bind_loop (front ++ (a ∷ back))) p
    ∙ bind_loop-Bound fd front a back passed e y z

-- The server can listen with the descriptor.
pub record ListensWith (fd : ℕ) (net : Network) : Type 0 where
  pub addresses : List Address
  pub known : net.addresses ≡ some addresses
  pub bound : Bound fd addresses
  pub listens : net.listens ≡ true
  pub named : net.unnamed ≡ false

after_binding-ListensWith :
    (fd : ℕ) (net : Network) (addresses : List Address) (r : Result ℕ × List ℕ) (left : List ℕ)
    → net.addresses ≡ some addresses
    → Binds addresses r
    → after_binding net r ≡ (ok fd, left)
    → ListensWith fd net
unfolding after_binding
after_binding-ListensWith fd net addresses (ok bound, open_fds) left known (b, one) e =
    elim (Bool-cases (net.listens)) [
      | inl y ↦ elim (Bool-cases (net.unnamed)) [
        | inl z ↦ (let no : (error, open_fds) ≡ (ok fd, left) = rw (y, z) at e in absurd (cc no))
        | inr z ↦
            let both : (ok bound, open_fds) ≡ (ok fd, left) = rw (y, z) at e in
            let q : bound ≡ fd = cc both in
            record {
              addresses = addresses;
              known = known;
              bound = subst (λ k. Bound k addresses) q b;
              listens = y;
              named = z;
            }
      ]
      | inr n ↦ (let no : (error, open_fds) ≡ (ok fd, left) = rw n at e in absurd (cc no))
    ]
after_binding-ListensWith fd net addresses (error, open_fds) left known b e = absurd (cc e)
after_binding-ListensWith fd net addresses (fault, open_fds) left known b e = absurd b

-- get_listener_socket returns a descriptor exactly if getaddrinfo finds addresses, of which the
-- first one that has a socket, on which setsockopt succeeds, and that can be bound has this
-- descriptor, with no failure of setsockopt before it, listen succeeds on it and getnameinfo does
-- not return -1; and then it is the only descriptor that is left open.
pub get_listener_socket-ListensWith :
    (net : Network) (fd : ℕ)
    → (ListensWith fd net → get_listener_socket net ≡ (ok fd, fd ∷ []))
      × ((left : List ℕ) → get_listener_socket net ≡ (ok fd, left) → ListensWith fd net)
unfolding get_listener_socket after_binding
get_listener_socket-ListensWith net fd = (
  λ l.
      (let run =
          bind_loop-Bound fd l.bound.front l.bound.address l.bound.back l.bound.passed
            l.bound.socket l.bound.reusable l.bound.binds in
        rw (l.known, l.bound.split, run, l.listens, l.named) refl),
  λ left e. elim (Option-cases (net.addresses)) [
    | inl n ↦ (let no : (error, []) ≡ (ok fd, left) = rw n at e in absurd (cc no))
    | inr (addresses, known) ↦
        after_binding-ListensWith fd net addresses (bind_loop addresses) left known
          (bind_loop-Binds addresses) (rw known at e)
  ],
)
