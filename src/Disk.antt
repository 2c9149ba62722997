-- ===== src/Disk.antt =====
-- The database file behind its descriptor, and the system calls that src/serialize.c makes on it.
-- The operating system's part is a script: one entry for each call, and every call behind the end of
-- the script succeeds in full.
pub mod Content
use employee_database.Prelude.{
  ℕ, zero, suc, ◌+◌, Bool, true, false, List, [], ◌∷◌, length, take, drop, ◌==◌, if◌then◌else◌,
}
use employee_database.Memory.{Result, ok, error, fault}

-- What the system does with a call: it transfers at most `k + 1` bytes, or it returns -1. A call
-- that transfers nothing else, as `lseek`, succeeds under `partial`.
pub data Outcome : Type 0 where
  partial : ℕ → Outcome
  refused : Outcome

-- `write` of the bytes at an offset; a gap behind the old end is filled with zeros.
unfoldable pub overwrite : List ℕ → ℕ → List ℕ → List ℕ
overwrite c p [] = c
overwrite [] zero (x ∷ xs) = x ∷ overwrite [] zero xs
overwrite (b ∷ c) zero (x ∷ xs) = x ∷ overwrite c zero xs
overwrite [] (suc p) (x ∷ xs) = 0 ∷ overwrite [] p (x ∷ xs)
overwrite (b ∷ c) (suc p) (x ∷ xs) = b ∷ overwrite c p (x ∷ xs)

pub record File : Type 0 where
  pub content : List ℕ
  pub pos : ℕ
  pub script : List Outcome

-- The file after `xs` was written at its offset, and the script that is left.
abbrev pub put : List ℕ → List Outcome → File → File
put xs s f = record { content = overwrite f.content f.pos xs; pos = f.pos + length xs; script = s }

-- How a function on the file ends: with a value, with STATUS_ERROR, or in undefined behaviour.
pub data IoResult {ℓ} (A : Type ℓ) : Type ℓ where
  done : A → File → IoResult A
  failed : File → IoResult A
  crash : IoResult A

abbrev pub Io {ℓ} : Type ℓ → Type ℓ
Io A = File → IoResult A

-- What follows a step goes on with its value and file, unless the step failed.
abbrev pub after {ℓ κ} : {A : Type ℓ} {B : Type κ} → IoResult A → (A → Io B) → IoResult B
after (done a f) g = g a f
after (failed f) g = failed f
after crash g = crash

infixl 5 ◌>>=◌ ◌>>◌
abbrev pub ◌>>=◌ {ℓ κ} : {A : Type ℓ} {B : Type κ} → Io A → (A → Io B) → Io B
◌>>=◌ m g f = after (m f) g

abbrev pub ◌>>◌ {ℓ} : {B : Type ℓ} → Io (Unit {0}) → Io B → Io B
m >> k = m >>= λ _. k

abbrev pub pure {ℓ} : {A : Type ℓ} → A → Io A
pure a f = done a f

-- A step that only reads memory.
abbrev pub lift {ℓ} : {A : Type ℓ} → Result A → Io A
lift (ok a) f = done a f
lift error f = failed f
lift fault f = crash

abbrev pub check : Bool → Io (Unit {0})
check true f = done tt f
check false f = failed f

-- `write(fd, xs, length xs)`: the number of bytes written.
write_by : List Outcome → List ℕ → Io ℕ
write_by [] xs f = done (length xs) (put xs [] f)
write_by (partial k ∷ s) xs f = done (length (take (suc k) xs)) (put (take (suc k) xs) s f)
write_by (refused ∷ s) xs f = failed (record f { script = s })

unfoldable pub write : List ℕ → Io ℕ
unfolding write_by
write xs f = write_by f.script xs f

-- `read(fd, buf, n)`: the bytes read.
read_by : List Outcome → ℕ → Io (List ℕ)
read_by [] n f =
    let got = take n (drop f.pos f.content) in
    done got (record { content = f.content; pos = f.pos + length got; script = [] })
read_by (partial k ∷ s) n f =
    let got = take (suc k) (take n (drop f.pos f.content)) in
    done got (record { content = f.content; pos = f.pos + length got; script = s })
read_by (refused ∷ s) n f = failed (record f { script = s })

unfoldable pub read : ℕ → Io (List ℕ)
unfolding read_by
read n f = read_by f.script n f

-- `lseek(fd, p, SEEK_SET)`
seek_by : List Outcome → ℕ → Io (Unit {0})
seek_by [] p f = done tt (record { content = f.content; pos = p; script = [] })
seek_by (partial k ∷ s) p f = done tt (record { content = f.content; pos = p; script = s })
seek_by (refused ∷ s) p f = failed (record f { script = s })

unfoldable pub lseek : ℕ → Io (Unit {0})
unfolding seek_by
lseek p f = seek_by f.script p f

-- `fstat`: the file's size.
size_by : List Outcome → Io ℕ
size_by [] f = done (length f.content) f
size_by (partial k ∷ s) f = done (length f.content) (record f { script = s })
size_by (refused ∷ s) f = failed (record f { script = s })

unfoldable pub fstat : Io ℕ
unfolding size_by
fstat f = size_by f.script f
