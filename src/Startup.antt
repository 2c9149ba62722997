-- ===== src/Startup.antt =====
-- What the programs under executable_src do before their work starts: the options, the protocol
-- version and the database file.
pub mod Versions
pub mod Files
use employee_database.Prelude.{
  ℕ, zero, suc, ◌^◌, Bool, true, false, ◌||◌, ◌&&◌, not, Option, none, some, List, [], ◌∷◌, ◌==◌,
  leb, ltb, if◌then◌else◌,
}
use employee_database.Memory.{Result, ok, error, fault, Block}
use employee_database.Disk.{File, IoResult, done, failed, crash, Outcome, Io, ◌>>◌, pure, lseek}
use employee_database.Parse.Standard.{Number, chars, strtol}
use employee_database.Socket.{is_empty}
use employee_database.Serialize.{write_new_file_hdr}

-- How a part of main ends: it goes on, exits with a status, aborts, or is in undefined behaviour.
pub data Started {ℓ} (A : Type ℓ) : Type ℓ where
  started : A → Started A
  exited : ℕ → Started A
  aborted : Started A
  faulted : Started A

infixl 5 ◌>>=◌
abbrev pub ◌>>=◌ {ℓ κ} : {A : Type ℓ} {B : Type κ} → Started A → (A → Started B) → Started B
◌>>=◌ (started a) k = k a
◌>>=◌ (exited n) k = exited n
◌>>=◌ aborted k = aborted
◌>>=◌ faulted k = faulted

-- STATUS_ERROR is followed by `exit(1)`.
abbrev pub or_exit {ℓ} : {A : Type ℓ} → Result A → Started A
or_exit (ok a) = started a
or_exit error = exited 1
or_exit fault = faulted

abbrev pub or_exit_io {ℓ} : {A : Type ℓ} → IoResult A → Started (A × File)
or_exit_io (done a f) = started (a, f)
or_exit_io (failed f) = exited 1
or_exit_io crash = faulted

-- An answer of `getopt` that is not -1: the option's character and `optarg`.
pub record Answer : Type 0 where
  pub c : ℕ
  pub optarg : Option Block

-- `strtol` and the tests of its result. `end` is where the number ends, or the start of the text if
-- nothing was converted. `erange` is a further reason to refuse it.
version_of : Bool → List ℕ → Started ℕ
version_of erange text =
    let n = strtol text in
    let end = if n.converted then n.rest else text in
    if not (is_empty end)
      || (erange || (n.negative && ltb 0 n.magnitude || leb (2 ^ 16) n.magnitude))
    then exited 1
    else started n.magnitude

unfoldable pub parse_version : Bool → Block → Started ℕ
unfolding version_of
parse_version erange s = or_exit (chars s) >>= λ text. version_of erange text

-- The database file's name in the file system: the bytes of a file, or no file. `granted` says
-- whether the system lets the program open it, and `script` what the later calls on it do.
pub record Storage : Type 0 where
  pub existing : Option (List ℕ)
  pub granted : Bool
  pub script : List Outcome

-- `O_CREAT | O_EXCL` wants a new file.
open_new : Storage → Option (List ℕ) → Started File
open_new d none =
    if d.granted then started (record { content = []; pos = 0; script = d.script }) else exited 1
open_new d (some bytes) = exited 1

open_old : Storage → Option (List ℕ) → Started File
open_old d none = exited 1
open_old d (some bytes) =
    if d.granted then started (record { content = bytes; pos = 0; script = d.script }) else exited 1

-- A new file gets a header, and is read from the start.
new_header : Io (Unit {0})
new_header = write_new_file_hdr >> lseek 0

unfoldable pub open_db : Bool → Storage → Started File
unfolding open_new open_old new_header
open_db true d = do f ← open_new d d.existing; r ← or_exit_io (new_header f); started r.1
open_db false d = open_old d d.existing
