-- ===== src/Disk/Content.antt =====
-- Laws of writing at an offset.
use employee_database.Prelude.{
  ℕ, zero, suc, ◌+◌, ◌≡◌, refl, sym, ap, ◌∙◌, List, [], ◌∷◌, ◌++◌, arith, length, drop, drop-all,
}
use employee_database.Disk.{overwrite}

overwrite-cons :
    (b : ℕ) (c : List ℕ) (p : ℕ) (ys : List ℕ) → overwrite (b ∷ c) (suc p) ys ≡ b ∷ overwrite c p ys
unfolding overwrite
overwrite-cons b c p [] = refl
overwrite-cons b c p (y ∷ ys) = refl

behind :
    (b : ℕ) (c rest ys : List ℕ) (p q : ℕ)
    → c ≡ overwrite rest p ys
    → suc p ≡ q
    → b ∷ c ≡ overwrite (b ∷ rest) q ys
behind b c rest ys p q e f =
    ap (λ r. b ∷ r) e ∙ sym (overwrite-cons b rest p ys) ∙ ap (λ n. overwrite (b ∷ rest) n ys) f

-- Two writes, one behind the other, are one.
pub overwrite-append :
    (c : List ℕ) (p : ℕ) (xs ys : List ℕ)
    → overwrite c p (xs ++ ys) ≡ overwrite (overwrite c p xs) (p + length xs) ys
unfolding overwrite
overwrite-append c p [] ys = ap (λ q. overwrite c q ys) (omega arith)
overwrite-append [] zero (x ∷ xs) ys =
    behind x _ _ ys _ _ (overwrite-append [] zero xs ys) (omega arith)
overwrite-append (b ∷ c) zero (x ∷ xs) ys =
    behind x _ _ ys _ _ (overwrite-append c zero xs ys) (omega arith)
overwrite-append [] (suc p) (x ∷ xs) ys =
    behind 0 _ _ ys _ _ (overwrite-append [] p (x ∷ xs) ys) (omega arith)
overwrite-append (b ∷ c) (suc p) (x ∷ xs) ys =
    behind b _ _ ys _ _ (overwrite-append c p (x ∷ xs) ys) (omega arith)

-- A write at a seam.
pub overwrite-seam :
    (front tail : List ℕ) (p : ℕ) (xs : List ℕ)
    → p ≡ length front
    → overwrite (front ++ tail) p xs ≡ front ++ (xs ++ drop (length xs) tail)
unfolding overwrite
overwrite-seam front tail p [] e = refl
overwrite-seam [] [] zero (x ∷ xs) e =
    ap (λ r. x ∷ r)
      (overwrite-seam [] [] zero xs refl
        ∙ ap (λ r. xs ++ r) (drop-all (length xs) [] (omega arith)))
overwrite-seam [] (t ∷ tail) zero (x ∷ xs) e = ap (λ r. x ∷ r) (overwrite-seam [] tail zero xs refl)
overwrite-seam (b ∷ front) tail (suc p) (x ∷ xs) e =
    ap (λ r. b ∷ r) (overwrite-seam front tail p (x ∷ xs) (omega arith))
overwrite-seam [] tail (suc p) (x ∷ xs) e = absurd (omega arith)
overwrite-seam (b ∷ front) tail zero (x ∷ xs) e = absurd (omega arith)
