-- ===== src/Parse/Standard.antt =====
-- The C library's `strtok` and `strtol` (base 10, 64-bit `long`), on the text of a string.
pub mod Tokens
pub mod Decimal
use employee_database.Prelude.{
  ℕ, zero, suc, ◌+◌, ◌-◌, ◌*◌, ◌%◌, ◌^◌, Bool, true, false, ◌&&◌, ◌||◌, Option, none, some, List,
  [], ◌∷◌, min, ◌==◌, leb, if◌then◌else◌,
}
use employee_database.Memory.{Result, ok, error, fault, ◌>>=◌, Block}

-- The text of a string, up to its terminator.
unfoldable pub chars : Block → Result (List ℕ)
chars [] = fault
chars (zero ∷ s) = ok []
chars (suc c ∷ s) = do r ← chars s; ok (suc c ∷ r)

skip_delims : ℕ → List ℕ → List ℕ
skip_delims d [] = []
skip_delims d (c ∷ s) = let rest = skip_delims d s in if c == d then rest else c ∷ s

-- The text before the next delimiter, and what follows that.
until : ℕ → List ℕ → List ℕ × List ℕ
until d [] = ([], [])
until d (c ∷ s) = let rest = until d s in if c == d then ([], s) else (c ∷ rest.0, rest.1)

take_token : ℕ → List ℕ → Option (List ℕ) × List ℕ
unfolding until
take_token d [] = (none, [])
take_token d (c ∷ s) = let t = until d (c ∷ s) in (some t.0, t.1)

-- The next token, if there is one, and the text that the next call goes on with.
unfoldable pub strtok : ℕ → List ℕ → Option (List ℕ) × List ℕ
unfolding skip_delims take_token
strtok d s = take_token d (skip_delims d s)

-- `converted` says that the end pointer differs from the start, `rest` is what it points to then.
pub record Number : Type 0 where
  pub negative : Bool
  pub magnitude : ℕ
  pub rest : List ℕ
  pub converted : Bool

unfoldable pub is_digit : ℕ → Bool
is_digit c = leb b'0' c && leb c b'9'

is_space : ℕ → Bool
is_space c = c == 32 || (leb 9 c && leb c 13)

skip_spaces : List ℕ → List ℕ
unfolding is_space
skip_spaces [] = []
skip_spaces (c ∷ s) = let rest = skip_spaces s in if is_space c then rest else c ∷ s

digits : ℕ → List ℕ → ℕ × List ℕ
unfolding is_digit
digits acc [] = (acc, [])
digits acc (c ∷ s) =
    let more = digits (acc * 10 + (c - b'0')) s in if is_digit c then more else (acc, c ∷ s)

starts_digit : List ℕ → Bool
unfolding is_digit
starts_digit [] = false
starts_digit (c ∷ s) = is_digit c

number_at : Bool → List ℕ → Number
unfolding digits starts_digit
number_at minus s =
    let d = digits 0 s in
    record { negative = minus; magnitude = d.0; rest = d.1; converted = starts_digit s }

signed : List ℕ → Number
unfolding number_at
signed [] = number_at false []
signed (c ∷ s) =
    if c == b'-'
    then number_at true s
    else if c == b'+'
    then number_at false s
    else number_at false (c ∷ s)

unfoldable pub strtol : List ℕ → Number
unfolding skip_spaces signed
strtol s = signed (skip_spaces s)

-- The `long` that `strtol` returns, held to its range, converted to `uint32_t`.
unfoldable pub to_u32 : Number → ℕ
to_u32 n =
    if n.negative
    then (2 ^ 32 - min n.magnitude (2 ^ 63) % 2 ^ 32) % 2 ^ 32
    else min n.magnitude (2 ^ 63 - 1) % 2 ^ 32
