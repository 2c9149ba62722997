-- ===== src/Memory/Bytes.antt =====
-- Integers in memory: network order for `htons` and `htonl`, and the little-endian order of the
-- host for the `proto_msg` that starts each message.
use employee_database.Prelude.{ℕ, ◌+◌, ◌*◌, ◌/◌, ◌%◌, ◌^◌, ◌<◌, ◌≡◌, List, [], ◌∷◌, arith}

-- A `uint16_t` stored after `htons`.
abbrev pub be16 : ℕ → List ℕ
be16 n = n / 256 % 256 ∷ n % 256 ∷ []

-- A `uint32_t` stored after `htonl`.
abbrev pub be32 : ℕ → List ℕ
be32 n = n / 0x1000000 % 256 ∷ n / 0x10000 % 256 ∷ n / 256 % 256 ∷ n % 256 ∷ []

-- A `uint32_t` stored as the host keeps it.
abbrev pub le32 : ℕ → List ℕ
le32 n = n % 256 ∷ n / 256 % 256 ∷ n / 0x10000 % 256 ∷ n / 0x1000000 % 256 ∷ []

-- `ntohs` and `ntohl` of stored bytes.
abbrev pub of_be : List ℕ → ℕ → ℕ
of_be [] acc = acc
of_be (b ∷ bs) acc = of_be bs (acc * 256 + b)

abbrev pub of_le : List ℕ → ℕ
of_le [] = 0
of_le (b ∷ bs) = b + 256 * of_le bs

pub of_be-be16 : (n : ℕ) → n < 2 ^ 16 → of_be (be16 n) 0 ≡ n
of_be-be16 n h = omega arith

pub of_be-be32 : (n : ℕ) → n < 2 ^ 32 → of_be (be32 n) 0 ≡ n
of_be-be32 n h = omega arith

pub of_le-le32 : (n : ℕ) → n < 2 ^ 32 → of_le (le32 n) ≡ n
of_le-le32 n h = omega arith
