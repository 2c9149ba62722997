-- ===== src/Memory.antt =====
-- Memory as the C code uses it: a block of bytes, loads and stores at an offset, and the ways in
-- which a function ends. Integers that include/common.h and src/proto.c keep in network order.
pub mod Bytes
pub mod Access
pub mod Cursor
pub mod Text
use employee_database.Prelude.{
  ℕ, zero, suc, ◌+◌, ◌-◌, ◌≡◌, refl, Bool, true, false, List, [], ◌∷◌, ◌++◌, leb, if◌then◌else◌,
  length, take, drop,
}

-- How a call ends: with a value, with STATUS_ERROR, or in undefined behaviour (an access outside
-- a block, a null pointer).
pub data Result {ℓ} (A : Type ℓ) : Type ℓ where
  ok : A → Result A
  error : Result A
  fault : Result A

infixl 5 ◌>>=◌ ◌>>◌
abbrev pub ◌>>=◌ {ℓ κ} : {A : Type ℓ} {B : Type κ} → Result A → (A → Result B) → Result B
ok a >>= f = f a
error >>= f = error
fault >>= f = fault

abbrev pub ◌>>◌ {ℓ} : {B : Type ℓ} → Result (Unit {0}) → Result B → Result B
m >> k = m >>= λ _. k

-- Two chains agree if they agree behind every value of the first step.
pub >>=-congr {ℓ κ} :
    {A : Type ℓ} {B : Type κ} (m : Result A) (f g : A → Result B)
    → ((a : A) → m ≡ ok a → f a ≡ g a)
    → (m >>= f) ≡ (m >>= g)
>>=-congr (ok a) f g h = h a refl
>>=-congr error f g h = refl
>>=-congr fault f g h = refl

-- `if (!b) return STATUS_ERROR;`
abbrev pub check : Bool → Result (Unit {0})
check true = ok tt
check false = error

-- The bytes from a pointer to the end of its allocation.
abbrev pub Block : Type 0
Block = List ℕ

unfoldable pub load : ℕ → ℕ → Block → Result (List ℕ)
load at n b = if leb (at + n) (length b) then ok (take n (drop at b)) else fault

unfoldable pub store : ℕ → List ℕ → Block → Result Block
store at xs b =
    if leb (at + length xs) (length b)
    then ok (take at b ++ (xs ++ drop (at + length xs) b))
    else fault

-- What the allocator decides: whether `realloc` to a size succeeds, and what fresh memory holds.
pub record Allocator : Type 0 where
  pub can_grow : ℕ → Bool
  pub junk : ℕ → ℕ

-- `n` fresh bytes from offset `at` on.
unfoldable pub fresh : (ℕ → ℕ) → ℕ → ℕ → Block
fresh junk at zero = []
fresh junk at (suc n) = junk at ∷ fresh junk (at + 1) n

unfoldable pub realloc : Allocator → ℕ → Block → Result Block
unfolding fresh
realloc m n b =
    if m.can_grow n then ok (take n (b ++ fresh m.junk (length b) (n - length b))) else error
