-- ===== src/Parse/Standard/Tokens.antt =====
-- What `strtok` finds at a field that a delimiter or the end of the text closes.
use employee_database.Prelude.{
  ℕ, zero, suc, ◌≡◌, ◌≢◌, refl, none, some, List, [], ◌∷◌, ◌++◌, All, arith, ne→==, eq→==,
}
use employee_database.Memory.{ok}
use employee_database.Memory.Text.{c_string, IsText}
use employee_database.Parse.Standard.{chars, skip_delims, until, strtok}

abbrev pub IsFree : ℕ → List ℕ → Type 0
IsFree d t = All (λ c. c ≢ d) t

pub chars-c_string : (s : List ℕ) → IsText s → chars (c_string s) ≡ ok s
unfolding chars
chars-c_string [] h = refl
chars-c_string (zero ∷ s) h = absurd (omega (arith, h.0))
chars-c_string (suc c ∷ s) h = rw (chars-c_string s h.1)

until-append : (d : ℕ) (t rest : List ℕ) → IsFree d t → until d (t ++ (d ∷ rest)) ≡ (t, rest)
unfolding until
until-append d [] rest h = rw (eq→== d d refl)
until-append d (c ∷ t) rest h = rw (ne→== c d h.0, until-append d t rest h.1)

until-all : (d : ℕ) (t : List ℕ) → IsFree d t → until d t ≡ (t, [])
unfolding until
until-all d [] h = refl
until-all d (c ∷ t) h = rw (ne→== c d h.0, until-all d t h.1)

skip_delims-none : (d c : ℕ) (s : List ℕ) → c ≢ d → skip_delims d (c ∷ s) ≡ c ∷ s
unfolding skip_delims
skip_delims-none d c s h = rw (ne→== c d h)

pub strtok_field :
    (d c : ℕ) (t rest : List ℕ)
    → IsFree d (c ∷ t)
    → strtok d (c ∷ (t ++ (d ∷ rest))) ≡ (some (c ∷ t), rest)
unfolding strtok
strtok_field d c t rest h =
    rw (skip_delims-none d c (t ++ (d ∷ rest)) h.0, until-append d (c ∷ t) rest h)

pub strtok_last : (d c : ℕ) (t : List ℕ) → IsFree d (c ∷ t) → strtok d (c ∷ t) ≡ (some (c ∷ t), [])
unfolding strtok
strtok_last d c t h = rw (skip_delims-none d c t h.0, until-all d (c ∷ t) h)

pub strtok_nil : (d : ℕ) → strtok d [] ≡ (none, [])
unfolding strtok
strtok_nil d = refl

-- A token has no delimiter, and is a text if the whole is.
until-IsFree :
    (d : ℕ) (s : List ℕ)
    → IsText s
    → IsFree d (until d s).0 × IsText (until d s).0 × IsText (until d s).1
unfolding until
until-IsFree d [] h = (tt, tt, tt)
until-IsFree d (c ∷ s) h =
    let (free, text, rest) = until-IsFree d s h.1 in ground (arith, free, text, rest, h.0, h.1)

skip_delims-IsText : (d : ℕ) (s : List ℕ) → IsText s → IsText (skip_delims d s)
unfolding skip_delims
skip_delims-IsText d [] h = tt
skip_delims-IsText d (c ∷ s) h = ground (arith, skip_delims-IsText d s h.1, h)
