-- ===== src/Memory/Text.antt =====
-- C strings: `strlen`, `strncpy` and `strcmp` read a block up to its zero byte, and fault where it
-- has none.
use employee_database.Prelude.{
  ℕ, zero, suc, ◌+◌, ◌<◌, ◌≡◌, refl, ap, sym, ◌∙◌, append-nil, Bool, true, false, List, [], ◌∷◌,
  ◌++◌, arith, length, replicate, All, ◌==◌, if◌then◌else◌,
}
use employee_database.Memory.{Result, ok, fault, ◌>>=◌, Block}

-- The text of a string and its terminator.
abbrev pub c_string : List ℕ → Block
c_string s = s ++ (0 ∷ [])

abbrev pub IsText : List ℕ → Type 0
IsText s = All (λ b. 0 < b) s

unfoldable pub strlen : Block → Result ℕ
strlen [] = fault
strlen (zero ∷ s) = ok 0
strlen (suc c ∷ s) = do n ← strlen s; ok (n + 1)

-- The `n` bytes that `strncpy(to, src, n)` writes.
unfoldable pub strncpy : Block → ℕ → Result (List ℕ)
strncpy s zero = ok []
strncpy [] (suc n) = fault
strncpy (zero ∷ s) (suc n) = ok (replicate (suc n) 0)
strncpy (suc c ∷ s) (suc n) = do r ← strncpy s n; ok (suc c ∷ r)

-- `strcmp(a, b) == 0`
unfoldable pub str_eq : Block → Block → Result Bool
str_eq [] b = fault
str_eq (x ∷ a) [] = fault
str_eq (zero ∷ a) (y ∷ b) = ok (0 == y)
str_eq (suc x ∷ a) (zero ∷ b) = ok false
str_eq (suc x ∷ a) (suc y ∷ b) = let rest = str_eq a b in if x == y then rest else ok false

-- Whether two texts are equal.
unfoldable pub text_eq : List ℕ → List ℕ → Bool
text_eq [] [] = true
text_eq [] (y ∷ b) = false
text_eq (x ∷ a) [] = false
text_eq (x ∷ a) (y ∷ b) = let rest = text_eq a b in if x == y then rest else false

pub strlen-c_string : (s : List ℕ) → IsText s → strlen (c_string s) ≡ ok (length s)
unfolding strlen
strlen-c_string [] h = refl
strlen-c_string (zero ∷ s) h = absurd (omega (arith, h.0))
strlen-c_string (suc c ∷ s) h = rw (strlen-c_string s h.1) (ap ok (omega arith))

pub strncpy-append :
    (s rest : List ℕ) (n : ℕ) → IsText s → n ≡ length s → strncpy (s ++ rest) n ≡ ok s
unfolding strncpy
strncpy-append [] rest zero h e = refl
strncpy-append [] rest (suc n) h e = absurd (omega arith)
strncpy-append (x ∷ s) rest zero h e = absurd (omega arith)
strncpy-append (zero ∷ s) rest (suc n) h e = absurd (omega (arith, h.0))
strncpy-append (suc c ∷ s) rest (suc n) h e = rw (strncpy-append s rest n h.1 (omega arith))

pub strncpy-c_string :
    (s rest : List ℕ) (n : ℕ)
    → IsText s
    → n ≡ length s + 1
    → strncpy (c_string s ++ rest) n ≡ ok (c_string s)
unfolding strncpy
strncpy-c_string s rest zero h e = absurd (omega arith)
strncpy-c_string [] rest (suc zero) h e = refl
strncpy-c_string [] rest (suc (suc n)) h e = absurd (omega arith)
strncpy-c_string (zero ∷ s) rest (suc n) h e = absurd (omega (arith, h.0))
strncpy-c_string (suc c ∷ s) rest (suc n) h e = rw (strncpy-c_string s rest n h.1 (omega arith))

pub strncpy_whole :
    (s : List ℕ) (n : ℕ) → IsText s → n ≡ length s + 1 → strncpy (c_string s) n ≡ ok (c_string s)
strncpy_whole s n text e =
    ap (λ x. strncpy x n) (sym (append-nil (c_string s))) ∙ strncpy-c_string s [] n text e

pub str_eq-c_string :
    (a b : List ℕ) → IsText a → IsText b → str_eq (c_string a) (c_string b) ≡ ok (text_eq a b)
unfolding str_eq text_eq
str_eq-c_string [] [] ha hb = refl
str_eq-c_string [] (zero ∷ b) ha hb = absurd (omega (arith, hb.0))
str_eq-c_string [] (suc y ∷ b) ha hb = ground arith
str_eq-c_string (zero ∷ a) b ha hb = absurd (omega (arith, ha.0))
str_eq-c_string (suc x ∷ a) [] ha hb = refl
str_eq-c_string (suc x ∷ a) (zero ∷ b) ha hb = absurd (omega (arith, hb.0))
str_eq-c_string (suc x ∷ a) (suc y ∷ b) ha hb = ground (arith, str_eq-c_string a b ha.1 hb.1)

pub text_eq→eq : (a b : List ℕ) → text_eq a b ≡ true → a ≡ b
unfolding text_eq
text_eq→eq [] [] h = refl
text_eq→eq [] (y ∷ b) h = cc
text_eq→eq (x ∷ a) [] h = cc
text_eq→eq (x ∷ a) (y ∷ b) h = ground (arith, text_eq→eq a b)

pub text_eq_refl : (a : List ℕ) → text_eq a a ≡ true
unfolding text_eq
text_eq_refl [] = refl
text_eq_refl (x ∷ a) = ground (arith, text_eq_refl a)

pub text_eq_comm : (a b : List ℕ) → text_eq a b ≡ text_eq b a
unfolding text_eq
text_eq_comm [] [] = refl
text_eq_comm [] (y ∷ b) = refl
text_eq_comm (x ∷ a) [] = refl
text_eq_comm (x ∷ a) (y ∷ b) = ground (arith, text_eq_comm a b)
