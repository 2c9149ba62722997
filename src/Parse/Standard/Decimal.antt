-- ===== src/Parse/Standard/Decimal.antt =====
-- What `strtol` makes of a run of decimal digits.
use employee_database.Prelude.{
  ℕ, ◌+◌, ◌-◌, ◌*◌, ◌^◌, ◌≤◌, ◌<◌, ◌≡◌, refl, true, false, List, [], ◌∷◌, All, arith,
}
use employee_database.Parse.Standard.{Number, digits, strtol, to_u32}

abbrev pub IsDigit : ℕ → Type 0
IsDigit c = (48 ≤ c) × (c ≤ 57)

-- The number that a run of digits denotes, with what stands before it.
unfoldable pub decimal : ℕ → List ℕ → ℕ
decimal acc [] = acc
decimal acc (c ∷ s) = decimal (acc * 10 + (c - 48)) s

digits-decimal : (acc : ℕ) (s : List ℕ) → All IsDigit s → digits acc s ≡ (decimal acc s, [])
unfolding digits decimal
digits-decimal acc [] h = refl
digits-decimal acc (c ∷ s) h = ground (arith, h.0, digits-decimal (acc * 10 + (c - 48)) s h.1)

pub strtol-decimal :
    (c : ℕ) (s : List ℕ)
    → All IsDigit (c ∷ s)
    → strtol (c ∷ s)
      ≡ record { negative = false; magnitude = decimal 0 (c ∷ s); rest = []; converted = true }
unfolding strtol
strtol-decimal c s h = ground (arith, h.0, digits-decimal 0 (c ∷ s) h)

pub to_u32-lt : (n : Number) → to_u32 n < 2 ^ 32
unfolding to_u32
to_u32-lt n = ground arith
