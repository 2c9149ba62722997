-- ===== src/Request/Erase.antt =====
-- The deletion of a request against the abstract erasure, which keeps the order.
use employee_database.Prelude.{◌≡◌, sym, subst, Option, List, [], ◌∷◌, map, ℕ}
use employee_database.Memory.{ok}
use employee_database.Memory.Text.{c_string, IsText}
use employee_database.Employee.{AreNamed, stored}
use employee_database.Employee.Directory.{
  Directory, erase_first, SameEntries, swap_out-erase_first, delete_entry, last_entry, all_but_last,
  all_but_last-append,
}
use employee_database.Request.Search.{delete_search}
use employee_database.Request.Edits.{with_last_of, delete_search-delete_entry}

delete_entry-erase_first :
    (name : List ℕ) (es : Directory) → SameEntries (delete_entry name es) (erase_first name es)
unfolding erase_first
delete_entry-erase_first name [] = tt
delete_entry-erase_first name (e ∷ es) =
    subst (λ l. SameEntries (delete_entry name (e ∷ es)) (erase_first name l))
      (sym (all_but_last-append e es))
      (swap_out-erase_first name (last_entry e es) (all_but_last e es))

-- If the name is a text and every entry's name is one, delete_search gives the array of a directory
-- that holds the same entries, as often, as the one without the first entry of that name, with the
-- old last element behind it, and finds nothing exactly if no entry has the name.
pub delete_search-erase_first :
    (name : List ℕ) (es : Directory)
    → IsText name
    → AreNamed es
    → (r : Option Directory) × SameEntries r (erase_first name es)
      × (delete_search (c_string name) (map stored es) ≡ ok (with_last_of es r))
delete_search-erase_first name es n h =
    (delete_entry name es, delete_entry-erase_first name es, delete_search-delete_entry name es n h)
