-- ===== src/Socket/Receives.antt =====
-- receive_all collects the bytes asked for, however they arrive.
use employee_database.Prelude.{
  ℕ, zero, suc, ◌+◌, ◌-◌, ◌<◌, ◌≤◌, ◌≡◌, refl, sym, ap, ◌∙◌, false, List, [], ◌∷◌, ◌++◌, length,
  take, drop, arith, take-append-drop, append_assoc, length-take, length-drop, length-append,
  lt→ltb, le→ltb,
}
use employee_database.Memory.{Result, ok, Block, store}
use employee_database.Memory.Access.{store-append}
use employee_database.Socket.{Socket, recv, receive_loop, receive_all, is_empty}
use employee_database.Socket.Arrivals.{bytes, breaks, recv-Got}

-- Where two splits of a list are compared, the shorter first part is a prefix of the other.
pub prefix_split {ℓ} :
    {A : Type ℓ} (xs more ys r : List A)
    → xs ++ more ≡ ys ++ r
    → length ys ≤ length xs
    → (zs : List A) × (xs ≡ ys ++ zs) × (r ≡ zs ++ more)
prefix_split xs more [] r e short = (xs, refl, sym e)
prefix_split [] more (y ∷ ys) r e short = absurd (omega (arith, short))
prefix_split (x ∷ xs) more (y ∷ ys) r e short =
    let tails : xs ++ more ≡ ys ++ r = cc in
    let heads : x ≡ y = cc in
    let (zs, front, back) = prefix_split xs more ys r tails (omega (arith, short)) in
    (zs, rw (heads, front), back)

-- The socket after `more` is left to arrive.
pub record Left (c : Socket) (more : List ℕ) (d : Socket) : Type 0 where
  pub left : bytes d.incoming ≡ more
  pub clean : breaks d.incoming ≡ false
  pub rest : d ≡ record c { incoming = d.incoming }

pub store_piece :
    (at : ℕ) (front ys back : Block)
    → at ≡ length front
    → length ys ≤ length back
    → store at ys (front ++ back) ≡ ok ((front ++ ys) ++ drop (length ys) back)
store_piece at front ys back h short =
    ap (λ l. store at ys (front ++ l)) (sym (take-append-drop (length ys) back))
    ∙ store-append at front ys (take (length ys) back) (drop (length ys) back) h
        (omega (arith, length-take (length ys) back, short))
    ∙ ap ok (sym (append_assoc front ys (drop (length ys) back)))

pub nonempty : (ys : List ℕ) → 0 < length ys → is_empty ys ≡ false
nonempty [] h = absurd (omega (arith, h))
nonempty (y ∷ ys) h = refl

-- What the loop answers once `xs` has arrived.
Loops : Socket → Block → ℕ → List ℕ → Result (Block × ℕ × Socket) → Type 0
Loops c whole buf_size more r = (d : Socket) × (r ≡ ok (whole, buf_size, d)) × Left c more d

-- A round that received `ys` goes on with what the loop does after it.
receive_round :
    (fuel : ℕ) (front ys zs back more : List ℕ) (total buf_size : ℕ) (c d : Socket)
    → total ≡ length front
    → total < buf_size
    → length ys ≤ length back
    → 0 < length ys
    → recv (buf_size - total) c ≡ ok (ys, d)
    → d ≡ record c { incoming = d.incoming }
    → Loops d
        ((front ++ ys) ++ zs)
        buf_size
        more
        (receive_loop fuel ((front ++ ys) ++ drop (length ys) back) (total + length ys) buf_size d)
    → Loops c
        (front ++ (ys ++ zs))
        buf_size
        more
        (receive_loop (suc fuel) (front ++ back) total buf_size c)
unfolding receive_loop Loops
receive_round fuel front ys zs back more total buf_size c d at inside short some run same
      (d', run', l) =
    (
      d',
      rw (
        lt→ltb total buf_size inside,
        run,
        store_piece total front ys back at short,
        nonempty ys some,
        run',
        append_assoc front ys zs,
      ),
      record {
        left = l.left;
        clean = l.clean;
        rest = l.rest ∙ ap {A = Socket} (λ s. record s { incoming = d'.incoming }) same;
      },
    )

receive_loop-Left :
    (fuel : ℕ) (front xs back more : List ℕ) (total buf_size : ℕ) (c : Socket)
    → total ≡ length front
    → buf_size ≡ total + length xs
    → length back ≡ length xs
    → length xs ≤ fuel
    → bytes c.incoming ≡ xs ++ more
    → breaks c.incoming ≡ false
    → Loops c (front ++ xs) buf_size more (receive_loop fuel (front ++ back) total buf_size c)
unfolding receive_loop Loops
receive_loop-Left zero front [] [] more total buf_size c at size same enough e clean =
    let n : total ≡ buf_size = omega (arith, size) in
    (c, ap (λ n. ok (front ++ [], n, c)) n, record { left = e; clean = clean; rest = refl })
receive_loop-Left zero front (x ∷ xs) back more total buf_size c at size same enough e clean =
    absurd (omega (arith, enough))
receive_loop-Left fuel front [] (b ∷ back) more total buf_size c at size same enough e clean =
    absurd (omega (arith, same))
receive_loop-Left (suc fuel) front [] [] more total buf_size c at size same enough e clean =
    let n : total ≡ buf_size = omega (arith, size) in
    (
      c,
      rw (le→ltb total buf_size (omega (arith, n))) (ap (λ n. ok (front ++ [], n, c)) n),
      record { left = e; clean = clean; rest = refl },
    )
receive_loop-Left (suc fuel) front (x ∷ xs) back more total buf_size c at size same enough e clean =
    let (ys, d, run, g) = recv-Got (buf_size - total) c (omega (arith, size)) clean in
    let short : length ys ≤ length (x ∷ xs) = omega (arith, g.at_most, size) in
    let some : 0 < length ys = g.some_left (omega (arith, ap length e)) in
    let (zs, whole, behind) =
      prefix_split (x ∷ xs) more ys (bytes d.incoming) (sym e ∙ g.split) short in
    let count : length (x ∷ xs) ≡ length ys + length zs = ap length whole ∙ length-append ys zs in
    rw whole (
      receive_round fuel front ys zs back more total buf_size c d at (omega (arith, size))
        (omega (arith, same, short)) some run g.rest
        (receive_loop-Left fuel (front ++ ys) zs (drop (length ys) back) more (total + length ys)
          buf_size d (omega (arith, at, length-append front ys)) (omega (arith, size, count))
          (omega (arith, length-drop (length ys) back, same, count))
          (omega (arith, enough, count, some)) behind g.clean))

-- If the bytes yet to arrive start with `xs`, `recv` meets no error, and the buffer is as long as
-- `xs`, then however the bytes are split into arrivals receive_all asked for that many returns with
-- exactly `xs` in the buffer, and leaves exactly the bytes behind them to arrive.
pub receive_all-Left :
    (buf xs more : List ℕ) (c : Socket)
    → length buf ≡ length xs
    → bytes c.incoming ≡ xs ++ more
    → breaks c.incoming ≡ false
    → (d : Socket) × (receive_all buf (length xs) c ≡ ok (xs, length xs, d)) × Left c more d
unfolding receive_all Loops
receive_all-Left buf xs more c same e clean =
    receive_loop-Left (length xs) [] xs buf more 0 (length xs) c refl (omega arith) same
      (omega arith) e clean
