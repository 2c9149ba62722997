-- ===== src/Serialize/Loop.antt =====
-- The loop of write_all under every behaviour of `write`.
use employee_database.Prelude.{
  ℕ, zero, suc, ◌+◌, ◌≡◌, refl, sym, ap, subst, ◌∙◌, Bool, true, false, List, [], ◌∷◌, ◌++◌, arith,
  length, take, drop, length-append, take-append-drop, append_assoc, ◌⊎◌, inl, inr,
}
use employee_database.Disk.{Outcome, partial, refused, File, put, overwrite, IoResult, done, failed}
use employee_database.Disk.Content.{overwrite-append}
use employee_database.Serialize.{write_loop, write_all}

-- Whether some call of the script returns -1.
abbrev pub refuses : List Outcome → Bool
refuses [] = false
refuses (partial k ∷ s) = refuses s
refuses (refused ∷ s) = true

put_at : List ℕ → ℕ → List Outcome → File
put_at c p s = record { content = c; pos = p; script = s }

pub put-nil : (s : List Outcome) (f : File) → put [] s f ≡ record f { script = s }
unfolding overwrite put_at
put-nil s f = ap (λ p. put_at f.content p s) (omega arith)

-- Two writes in a row are one.
pub put-put :
    (xs ys : List ℕ) (s t : List Outcome) (f : File) → put ys t (put xs s f) ≡ put (xs ++ ys) t f
unfolding put_at
put-put xs ys s t f =
    ap (λ c. put_at c (f.pos + length xs + length ys) t)
      (sym (overwrite-append f.content f.pos xs ys))
    ∙ ap (λ p. put_at (overwrite f.content f.pos (xs ++ ys)) p t)
        (omega (arith, length-append xs ys))

-- What a loop of `write`s that started at `s` with `xs` to write, after `total` bytes, may answer.
abbrev pub Writes : List Outcome → List ℕ → ℕ → File → IoResult ℕ → Type 0
Writes s xs total f r =
    ((t : List Outcome) × (n : ℕ) × (t ≡ drop n s) × (r ≡ done (total + length xs) (put xs t f)))
    ⊎ ((t : List Outcome) × (w : List ℕ) × (u : List ℕ) × (refuses s ≡ true)
        × (xs ≡ w ++ u)
        × (r ≡ failed (put w t f)))

Writes-behind :
    (s t : List Outcome) (front rest : List ℕ) (total : ℕ) (f : File) (r : IoResult ℕ)
    → Writes s rest (total + length front) (put front t f) r
    → Writes s (front ++ rest) total f r
Writes-behind s t front rest total f r (inl (u, n, behind, e)) = inl (
  u,
  n,
  behind,
  e
      ∙ ap (λ g. done (total + length front + length rest) g) (put-put front rest t u f)
      ∙ ap (λ n. done n (put (front ++ rest) u f)) (omega (arith, length-append front rest)),
)
Writes-behind s t front rest total f r (inr (u, w, v, bad, split, e)) = inr (
  u,
  front ++ w,
  v,
  bad,
  ap (λ l. front ++ l) split ∙ sym (append_assoc front w v),
  e ∙ ap failed (put-put front w t u f),
)

Writes-later :
    (o : Outcome) (s : List Outcome) (xs : List ℕ) (total : ℕ) (f : File) (r : IoResult ℕ)
    → refuses (o ∷ s) ≡ refuses s
    → Writes s xs total f r
    → Writes (o ∷ s) xs total f r
Writes-later o s xs total f r same (inl (t, n, behind, e)) = inl (t, suc n, behind, e)
Writes-later o s xs total f r same (inr (t, w, u, bad, split, e)) =
    inr (t, w, u, same ∙ bad, split, e)

write_loop-Writes :
    (s : List Outcome) (xs : List ℕ) (total : ℕ) (f : File)
    → Writes s xs total f (write_loop s xs total f)
unfolding write_loop
write_loop-Writes s [] total f = inl (
  s,
  0,
  refl,
  ap (λ g. done total g) (sym (put-nil s f)) ∙ ap (λ n. done n (put [] s f)) (omega arith),
)
write_loop-Writes [] (x ∷ xs) total f = inl ([], 0, refl, refl)
write_loop-Writes (partial k ∷ s) (x ∷ xs) total f =
    let front = take (suc k) (x ∷ xs) in
    let next = write_loop s (drop k xs) (total + length front) (put front s f) in
    Writes-later (partial k) s (x ∷ xs) total f next refl (
      subst (λ l. Writes s l total f next) (take-append-drop (suc k) (x ∷ xs))
        (Writes-behind s s front (drop k xs) total f next
          (write_loop-Writes s (drop k xs) (total + length front) (put front s f))))
write_loop-Writes (refused ∷ s) (x ∷ xs) total f =
    inr (s, [], x ∷ xs, refl, refl, ap failed (sym (put-nil s f)))

-- However `write` splits the transfer, write_all writes all bytes at the file's offset, returns
-- their number and leaves a rest of the script, or some call returned -1, and then it answers
-- STATUS_ERROR with a prefix of the bytes written.
pub write_all-Writes : (xs : List ℕ) (f : File) → Writes f.script xs 0 f (write_all xs f)
unfolding write_all
write_all-Writes xs f = write_loop-Writes f.script xs 0 f

-- A class of scripts in which no call returns -1, closed under dropping the calls made.
pub record IsClass (K : List Outcome → Type 0) : Type 0 where
  pub behind : (n : ℕ) (s : List Outcome) → K s → K (drop n s)
  pub clean : (s : List Outcome) → K s → refuses s ≡ false

refuses-drop : (n : ℕ) (s : List Outcome) → refuses s ≡ false → refuses (drop n s) ≡ false
refuses-drop zero s h = h
refuses-drop (suc n) [] h = refl
refuses-drop (suc n) (partial k ∷ s) h = refuses-drop n s h
refuses-drop (suc n) (refused ∷ s) h = cc

pub clean-IsClass : IsClass (λ s. refuses s ≡ false)
clean-IsClass = record { behind = refuses-drop; clean = λ s h. h }

drop-nil : (n : ℕ) (s : List Outcome) → s ≡ [] → drop n s ≡ []
drop-nil zero s h = h
drop-nil (suc n) [] h = refl
drop-nil (suc n) (o ∷ s) h = cc

pub quiet-IsClass : IsClass (λ s. s ≡ [])
quiet-IsClass = record { behind = drop-nil; clean = λ s h. rw h }

-- If no call returns -1, all bytes are written.
pub write_all-done :
    (K : List Outcome → Type 0) (xs : List ℕ) (f : File)
    → IsClass K
    → K f.script
    → (t : List Outcome) × K t × (write_all xs f ≡ done (length xs) (put xs t f))
write_all-done K xs f class k = elim (write_all-Writes xs f) [
  | inl (t, n, behind, e) ↦
      (t, rw behind (class.behind n f.script k), e ∙ ap (λ n. done n (put xs t f)) (omega arith))
  | inr (t, w, u, bad, split, e) ↦ absurd (cc (bad, class.clean f.script k))
]
