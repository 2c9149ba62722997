-- ===== src/Tests/Files.antt =====
-- src/serialize.c on concrete files.
use employee_database.Prelude.{
  ℕ, ◌≡◌, refl, List, [], ◌∷◌, ◌++◌, map, drop, arith, length, replicate, false,
}
use employee_database.Employee.{DbHeader, stored}
use employee_database.Disk.{Outcome, partial, refused, File, put, overwrite, done, failed, ◌>>=◌}
use employee_database.Proto.Listing.Rows.{rows}
use employee_database.Serialize.{write_all, write_db, write_employees}
use employee_database.Serialize.Loop.{Writes, write_all-Writes, refuses, clean-IsClass}
use employee_database.Serialize.Image.{quiet, write_employees-rows}
use employee_database.Serialize.Reopen.{
  image_size, image, restart, write_db-load_db, write_db_stale,
}
use employee_database.Employee.{Employee}
use employee_database.Memory.{ok, fault}
use employee_database.Memory.Text.{c_string}
use employee_database.Serialize.InMemory.{serialize_employee, deserialize_employee}
use employee_database.Serialize.InMemory.Overrun.{
  serialize_employee-fault, intended, deserialize_employee-intended,
}
use employee_database.Tests.Data.{ample, ada, bob, ada-IsEntry, bob-IsEntry}

-- The system takes two bytes, then one, then refuses.
abbrev slow_file : File
slow_file = record {
  content = 9 ∷ 9 ∷ 9 ∷ 9 ∷ 9 ∷ [];
  pos = 1;
  script = partial 1 ∷ partial 0 ∷ refused ∷ [];
}

write_all-Writes_example :
    Writes slow_file.script
      (1 ∷ 2 ∷ 3 ∷ 4 ∷ [])
      0
      slow_file
      (write_all (1 ∷ 2 ∷ 3 ∷ 4 ∷ []) slow_file)
write_all-Writes_example = write_all-Writes (1 ∷ 2 ∷ 3 ∷ 4 ∷ []) slow_file

-- The third byte was written when the call failed.
write_all_refused :
    write_all (1 ∷ 2 ∷ 3 ∷ 4 ∷ []) slow_file
    ≡ failed (record { content = 9 ∷ 1 ∷ 2 ∷ 3 ∷ 9 ∷ []; pos = 4; script = [] })
unfolding write_all overwrite
write_all_refused = refl

abbrev split_file : File
split_file = record { content = []; pos = 0; script = partial 0 ∷ partial 5 ∷ partial 2 ∷ [] }

write_employees-rows_example :
    (t : List Outcome) × (refuses t ≡ false)
    × (write_employees (map stored (ada ∷ bob ∷ [])) split_file
        ≡ done (length (rows (ada ∷ bob ∷ []))) (put (rows (ada ∷ bob ∷ [])) t split_file))
write_employees-rows_example =
    write_employees-rows (λ s. refuses s ≡ false) (ada ∷ bob ∷ []) split_file clean-IsClass
      (ada-IsEntry, (bob-IsEntry, tt)) refl

abbrev two_counted : DbHeader
two_counted = record { fsize = 8; employee_count = 2 }

abbrev one_counted : DbHeader
one_counted = record { fsize = 8; employee_count = 1 }

abbrev old_head : List ℕ
old_head = 0 ∷ 0 ∷ 0 ∷ 8 ∷ 0 ∷ 0 ∷ 0 ∷ 0 ∷ []

abbrev old_tail : List ℕ
old_tail = replicate 30 0

write_db-load_db_example :
    (write_db two_counted (map stored (ada ∷ bob ∷ []) ++ []) >>= restart [])
      (quiet (old_head ++ []) 8)
    ≡ done
        (
          record { fsize = image_size (ada ∷ bob ∷ []); employee_count = 2 },
          map stored (ada ∷ bob ∷ []),
        )
        (quiet (image (ada ∷ bob ∷ [])) (image_size (ada ∷ bob ∷ [])))
unfolding rows
write_db-load_db_example =
    write_db-load_db [] two_counted (ada ∷ bob ∷ []) [] old_head [] 8
      (ada-IsEntry, (bob-IsEntry, tt)) refl (omega arith) refl (omega arith)

-- One entry of the two that were in the file is left.
write_db_stale_example :
    (write_db one_counted (map stored (ada ∷ []) ++ []) >>= restart [])
      (quiet (old_head ++ old_tail) 8)
    ≡ failed (quiet (image (ada ∷ []) ++ drop (length (rows (ada ∷ []))) old_tail) 8)
unfolding rows
write_db_stale_example =
    write_db_stale [] one_counted (ada ∷ []) [] old_head old_tail 8 (ada-IsEntry, tt) refl
      (omega arith) refl (omega arith)

serialize_employee-fault_example : serialize_employee ample (stored ada) ≡ fault
serialize_employee-fault_example = serialize_employee-fault ample ada ada-IsEntry (λ n. refl)

deserialize_employee-intended_example :
    (d : Employee) × (s : List ℕ) × (t : List ℕ) × (deserialize_employee (intended bob ++ (1 ∷ []))
      ≡ ok d)
    × (d.name ≡ c_string bob.name ++ s)
    × (d.address ≡ c_string bob.address ++ t)
    × (d.hours ≡ bob.hours)
deserialize_employee-intended_example = deserialize_employee-intended bob (1 ∷ []) bob-IsEntry
