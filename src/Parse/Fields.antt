-- ===== src/Parse/Fields.antt =====
-- What parse_employee_vals and parse_employee_hours accept.
use employee_database.Prelude.{
  ℕ, ◌%◌, ◌^◌, ◌<◌, ◌≡◌, ◌≢◌, refl, some, List, [], ◌∷◌, ◌++◌, All, arith, All-append,
}
use employee_database.Memory.{Result, ok, error, fault, ◌>>=◌}
use employee_database.Memory.Text.{c_string, IsText}
use employee_database.Parse.{
  Vals, hours_of, require_tokens, parse_employee_vals, parse_employee_hours,
}
use employee_database.Parse.Standard.{strtok, to_u32}
use employee_database.Parse.Standard.Tokens.{
  IsFree, chars-c_string, strtok_field, strtok_last, strtok_nil,
}
use employee_database.Parse.Standard.Decimal.{IsDigit, decimal, strtol-decimal}

-- A nonempty text with no comma.
pub record IsField (t : List ℕ) : Type 0 where
  pub text : IsText t
  pub free : IsFree 44 t
  pub filled : t ≢ []

-- A nonempty run of decimal digits.
pub record IsNumeral (t : List ℕ) : Type 0 where
  pub digits : All IsDigit t
  pub filled : t ≢ []

pub IsNumeral-IsField : (t : List ℕ) → IsNumeral t → IsField t
IsNumeral-IsField t h = record {
  text = texts t h.digits;
  free = frees t h.digits;
  filled = h.filled;
}
  where
    texts : (s : List ℕ) → All IsDigit s → IsText s
    texts [] d = tt
    texts (c ∷ s) d = (omega (arith, d.0), texts s d.1)

    frees : (s : List ℕ) → All IsDigit s → IsFree 44 s
    frees [] d = tt
    frees (c ∷ s) d = (omega (arith, d.0), frees s d.1)

field_first : (t rest : List ℕ) → IsField t → strtok 44 (t ++ (44 ∷ rest)) ≡ (some t, rest)
field_first [] rest h = absurd (h.filled refl)
field_first (c ∷ t) rest h = strtok_field 44 c t rest h.free

field_last : (t : List ℕ) → IsField t → strtok 44 t ≡ (some t, [])
field_last [] h = absurd (h.filled refl)
field_last (c ∷ t) h = strtok_last 44 c t h.free

hours_of-decimal :
    (t : List ℕ) → IsNumeral t → decimal 0 t < 2 ^ 63 → hours_of t ≡ ok (decimal 0 t % 2 ^ 32)
unfolding hours_of to_u32
hours_of-decimal [] h small = absurd (h.filled refl)
hours_of-decimal (c ∷ t) h small = rw (strtol-decimal c t h.digits) (ground arith)

-- parse_employee_hours accepts a nonempty run of decimal digits that denotes a number below 2 ^ 63,
-- and gives that number modulo 2 ^ 32.
pub parse_employee_hours-decimal :
    (t : List ℕ)
    → IsNumeral t
    → decimal 0 t < 2 ^ 63
    → parse_employee_hours (c_string t) ≡ ok (decimal 0 t % 2 ^ 32)
unfolding parse_employee_hours
parse_employee_hours-decimal t h small =
    rw (chars-c_string t (IsNumeral-IsField t h).text) (hours_of-decimal t h small)

module _ (name address hours : List ℕ) (n : IsField name) (a : IsField address) where
  line-IsText : IsText hours → IsText (name ++ (44 ∷ (address ++ (44 ∷ hours))))
  line-IsText h =
      All-append _ name _ n.text
        (omega arith, All-append _ address (44 ∷ hours) a.text (omega arith, h))

  vals : ℕ → Result Vals
  vals k = ok (record { name = c_string name; address = c_string address; hours = k })

  -- parse_employee_vals splits the line `name,address,hours` into its three fields, if name and
  -- address are nonempty texts without a comma and the hours are a nonempty run of decimal digits
  -- that denotes a number below 2 ^ 63; the hours are reduced modulo 2 ^ 32.
  pub parse_employee_vals-fields :
      IsNumeral hours
      → decimal 0 hours < 2 ^ 63
      → parse_employee_vals (c_string (name ++ (44 ∷ (address ++ (44 ∷ hours)))))
        ≡ ok (record {
          name = c_string name;
          address = c_string address;
          hours = decimal 0 hours % 2 ^ 32;
        })
  unfolding parse_employee_vals vals
  parse_employee_vals-fields h small =
      let f = IsNumeral-IsField hours h in
      rw
        (
          chars-c_string _ (line-IsText f.text),
          field_first name (address ++ (44 ∷ hours)) n,
          field_first address hours a,
          field_last hours f,
        )
        (bound _ _ (required hours h (hours_of-decimal hours h small)))
    where
      bound :
          (m : Result (List ℕ)) (k : ℕ)
          → (m >>= hours_of) ≡ ok k
          → (m >>= λ s. hours_of s >>= λ j. vals j) ≡ vals k
      bound (ok s) k e = rw e
      bound error k e = cc
      bound fault k e = cc

      required :
          (t : List ℕ)
          → IsNumeral t
          → {k : ℕ} → hours_of t ≡ ok k
          → (require_tokens (some name) (some address) (some t) >>= hours_of) ≡ ok k
      required [] g e = absurd (g.filled refl)
      required (c ∷ t) g e = rw e

  -- On the line `name,address`, whose fields are nonempty texts without a comma,
  -- parse_employee_vals reads through a null pointer.
  pub parse_employee_vals-no_hours : parse_employee_vals (c_string (name ++ (44 ∷ address))) ≡ fault
  unfolding parse_employee_vals
  parse_employee_vals-no_hours = rw (
    chars-c_string _ (All-append _ name (44 ∷ address) n.text (omega arith, a.text)),
    field_first name address n,
    field_last address a,
    strtok_nil 44,
  )
