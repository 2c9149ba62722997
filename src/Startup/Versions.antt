-- ===== src/Startup/Versions.antt =====
-- The protocol version of a command line.
use employee_database.Prelude.{
  ℕ, ◌^◌, ◌≡◌, refl, true, false, List, [], ◌∷◌, Bool-cases, inl, inr, ltb, leb, if◌then◌else◌,
  arith,
}
use employee_database.Memory.Text.{c_string}
use employee_database.Parse.Standard.Decimal.{decimal, strtol-decimal}
use employee_database.Parse.Standard.Tokens.{chars-c_string}
use employee_database.Parse.Fields.{IsNumeral, IsNumeral-IsField}
use employee_database.Startup.{started, exited, parse_version, version_of}

version_of-small :
    (k : ℕ)
    → (if leb (2 ^ 16) k then exited 1 else started k)
      ≡ (if ltb k (2 ^ 16) then started k else exited 1)
version_of-small k = elim (Bool-cases (ltb k (2 ^ 16))) [
  | inl y ↦ (let n : leb (2 ^ 16) k ≡ false = ground (arith, y) in rw (y, n) refl)
  | inr n ↦ (let y : leb (2 ^ 16) k ≡ true = ground (arith, n) in rw (y, n) refl)
]

-- From a nonempty run of decimal digits main takes the number that it denotes as the version if it
-- is below 2 ^ 16, and exits with the status 1 otherwise.
pub parse_version-decimal :
    (t : List ℕ)
    → IsNumeral t
    → parse_version false (c_string t)
      ≡ (if ltb (decimal 0 t) (2 ^ 16) then started (decimal 0 t) else exited 1)
unfolding parse_version version_of
parse_version-decimal [] h = absurd (h.filled refl)
parse_version-decimal (c ∷ t) h =
    rw (chars-c_string (c ∷ t) (IsNumeral-IsField (c ∷ t) h).text, strtol-decimal c t h.digits)
      (version_of-small (decimal 0 (c ∷ t)))
