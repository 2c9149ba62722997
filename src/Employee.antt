-- ===== src/Employee.antt =====
-- The employee and header structs of include/common.h, and the abstract entries that they store.
pub mod Directory
pub mod Prefix
use employee_database.Prelude.{
  ℕ, zero, suc, ◌+◌, ◌<◌, ◌^◌, ◌≡◌, List, [], ◌∷◌, ◌++◌, leb, if◌then◌else◌, length, take, All, map,
}
use employee_database.Memory.{Result, ok, fault, Block}
use employee_database.Memory.Text.{c_string, IsText}

-- `name` and `address` are pointers: each is the block from there to the end of its allocation.
pub record Employee : Type 0 where
  pub name : Block
  pub address : Block
  pub hours : ℕ

pub record DbHeader : Type 0 where
  pub fsize : ℕ
  pub employee_count : ℕ

-- What an employee means: two texts and a number.
pub record Entry : Type 0 where
  pub name : List ℕ
  pub address : List ℕ
  pub hours : ℕ

-- The texts have no zero byte, and with their terminators their lengths fit a `uint16_t`.
pub record IsEntry (e : Entry) : Type 0 where
  pub name_text : IsText e.name
  pub name_short : length e.name + 1 < 2 ^ 16
  pub address_text : IsText e.address
  pub address_short : length e.address + 1 < 2 ^ 16
  pub hours_word : e.hours < 2 ^ 32

-- The struct that stores an entry.
abbrev pub stored : Entry → Employee
stored e = record { name = c_string e.name; address = c_string e.address; hours = e.hours }

-- The first `n` elements of an array; reading past its end is undefined.
unfoldable pub live {ℓ} : {A : Type ℓ} → ℕ → List A → Result (List A)
live n xs = if leb n (length xs) then ok (take n xs) else fault

-- Every name is a text, so that `strcmp` may read it.
abbrev pub AreNamed : List Entry → Type 0
AreNamed es = All (λ e. IsText e.name) es
