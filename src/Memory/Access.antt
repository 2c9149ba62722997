-- ===== src/Memory/Access.antt =====
-- Lemmas on loads and stores at the seam of an append.
use employee_database.Prelude.{
  ℕ, zero, suc, ◌+◌, ◌-◌, ◌≤◌, ◌≡◌, refl, ap, true, ◌++◌, arith, length, drop, length-append,
  take-append, drop-append, take-all, le→leb, false, append_assoc,
}
use employee_database.Memory.{error, ok, Block, load, store, Allocator, fresh, realloc}

pub load-append :
    (at n : ℕ) (front xs back : Block)
    → at ≡ length front
    → n ≡ length xs
    → load at n (front ++ (xs ++ back)) ≡ ok xs
unfolding load
load-append at n front xs back h k = rw (
  drop-append at front (xs ++ back) h,
  take-append n xs back k,
  le→leb (at + n) (length (front ++ (xs ++ back)))
      (omega (arith, length-append front (xs ++ back), length-append xs back)),
)

pub store-append :
    (at : ℕ) (front xs ys back : Block)
    → at ≡ length front
    → length xs ≡ length ys
    → store at xs (front ++ (ys ++ back)) ≡ ok (front ++ (xs ++ back))
unfolding store
store-append at front xs ys back h k =
    let seam : drop (at + length xs) ((front ++ ys) ++ back) ≡ back =
      drop-append _ (front ++ ys) back (omega (arith, length-append front ys)) in
    let whole : (front ++ ys) ++ back ≡ front ++ (ys ++ back) = append_assoc front ys back in
    rw (
      take-append at front (ys ++ back) h,
      le→leb (at + length xs) (length (front ++ (ys ++ back)))
          (omega (arith, length-append front (ys ++ back), length-append ys back)),
      ← whole,
      seam,
    )

pub length-fresh : (junk : ℕ → ℕ) (at n : ℕ) → length (fresh junk at n) ≡ n
unfolding fresh
length-fresh junk at zero = refl
length-fresh junk at (suc n) = ap suc (length-fresh junk (at + 1) n)

-- A block that grows keeps its bytes.
pub realloc-grow :
    (m : Allocator) (n : ℕ) (b : Block)
    → m.can_grow n ≡ true
    → length b ≤ n
    → realloc m n b ≡ ok (b ++ fresh m.junk (length b) (n - length b))
unfolding realloc
realloc-grow m n b g h = rw (
  g,
  take-all n (b ++ fresh m.junk (length b) (n - length b)) (
      omega (
        arith,
        length-append b (fresh m.junk (length b) (n - length b)),
        length-fresh m.junk (length b) (n - length b),
      )),
)

pub realloc-refused :
    (m : Allocator) (n : ℕ) (b : Block) → m.can_grow n ≡ false → realloc m n b ≡ error
unfolding realloc
realloc-refused m n b r = rw r
