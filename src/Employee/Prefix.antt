-- ===== src/Employee/Prefix.antt =====
-- The live part of an array: its first elements.
use employee_database.Prelude.{
  ℕ, suc, ◌≡◌, refl, List, [], ◌∷◌, ◌++◌, arith, length, map, le→leb, leb, Bool-cases, inl, inr,
  length-append, take-append,
}
use employee_database.Memory.{Result, ok, error, fault, ◌>>=◌}
use employee_database.Employee.{live}

module _ {ℓ} {A : Type ℓ} where
  -- An array behind one more element.
  abbrev pub push : A → Result (List A) → Result (List A)
  push e m = m >>= λ r. ok (e ∷ r)

  live-cons : (n : ℕ) (e : A) (r : List A) → live (suc n) (e ∷ r) ≡ push e (live n r)
  unfolding live
  live-cons n e r = elim (Bool-cases (leb n (length r))) [
    | inl y ↦ rw y (ground (arith, y))
    | inr d ↦ rw d (ground (arith, d))
  ]

  pub live-push :
      (n : ℕ) (e : A) (m : Result (List A)) → (push e m >>= live (suc n)) ≡ push e (m >>= live n)
  live-push n e (ok r) = live-cons n e r
  live-push n e error = refl
  live-push n e fault = refl

  pub live-append : (n : ℕ) (xs ys : List A) → n ≡ length xs → live n (xs ++ ys) ≡ ok xs
  unfolding live
  live-append n xs ys e =
      rw (take-append n xs ys e, le→leb n (length (xs ++ ys)) (omega (arith, length-append xs ys)))

pub length-map {ℓ κ} :
    {A : Type ℓ} {B : Type κ} (f : A → B) (xs : List A) → length (map f xs) ≡ length xs
length-map f [] = refl
length-map f (x ∷ xs) = omega (arith, length-map f xs)
