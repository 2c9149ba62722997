-- ===== src/Proto/Listing/Read/Fuel.antt =====
-- The rounds that deserialize_list_employee_response is given are enough on every response.
use employee_database.Prelude.{ℕ, zero, suc, ◌+◌, ◌≤◌, ◌<◌, ◌≡◌, Bool-cases, inl, inr, ltb, arith}
use employee_database.Memory.{ok, >>=-congr, Block, Allocator}
use employee_database.Employee.{Employee}
use employee_database.Proto.Listing.{Slots, read_row, read_rows, grow_slots, put_slot}

read_row_advances :
    (buf : Block) (at : ℕ) {e : Employee} {next : ℕ}
    → read_row buf at ≡ ok (e, next)
    → at + 8 ≤ next
unfolding read_row
read_row_advances buf at h = ground arith

-- Whatever the response holds, one more round of the loop of deserialize_list_employee_response
-- changes nothing once there are more rounds than bytes left: the loop has ended by its own test,
-- in a fault or in an error.
pub read_rows-enough :
    (fuel : ℕ) (m : Allocator) (buf : Block) (buf_size at : ℕ) (employees : Slots) (n : ℕ)
    → buf_size < at + fuel
    → read_rows (suc fuel) m buf buf_size at employees n
      ≡ read_rows fuel m buf buf_size at employees n
unfolding read_rows
read_rows-enough zero m buf buf_size at employees n h = ground arith
read_rows-enough (suc fuel) m buf buf_size at employees n h = elim (Bool-cases (ltb at buf_size)) [
  | inr done ↦ rw done
  | inl more ↦ rw more (
      >>=-congr (read_row buf at) _ _ (λ row e. >>=-congr (grow_slots m n employees) _ _ (λ grown _.
        >>=-congr (put_slot n row.0 grown) _ _ (λ filled _.
          read_rows-enough fuel m buf buf_size row.1 filled (n + 1)
            (omega (arith, read_row_advances buf at e))))))
]
