-- ===== src/Gc/Field.antt =====
-- The iterators over an object's fields.
pub mod Laws
use lama_rv_workshop.Base.{ℕ, zero, suc, ◌+◌, Bool, leb, ◌||◌, if◌then◌else◌}
use lama_rv_workshop.Base.Outcome.{Outcome, ok, out_of_fuel, ◌>>=◌}
use lama_rv_workshop.Gc.State.{Mem}
use lama_rv_workshop.Gc.Object.{
  LamaType, array, closure, string, sexp, member_size, get_type_header_ptr, get_object_content_ptr,
  get_end_of_obj, is_valid_pointer,
}

-- `obj_field_iterator` without `type`, which is read only where it is set.
pub record FieldIterator : Type 0 where
  pub obj_ptr : ℕ
  pub cur_field : ℕ

-- The `switch` of `field_begin_iterator`.
first_field : Mem → ℕ → LamaType → ℕ → Outcome ℕ
unfolding get_end_of_obj
first_field m obj string content = get_end_of_obj m obj
first_field m obj closure content = ok (content + member_size)
first_field m obj sexp content = ok (content + member_size)
first_field m obj array content = ok content

unfoldable pub field_begin_iterator : Mem → ℕ → Outcome FieldIterator
unfolding get_type_header_ptr get_object_content_ptr first_field
field_begin_iterator m obj = do
  type ← get_type_header_ptr m obj
  content ← get_object_content_ptr m obj
  first ← first_field m obj type content
  ok (record { obj_ptr = obj; cur_field = first })

unfoldable pub field_is_done_iterator : Mem → FieldIterator → Outcome Bool
unfolding get_end_of_obj
field_is_done_iterator m it = do end ← get_end_of_obj m it.obj_ptr; ok (leb end it.cur_field)

unfoldable pub obj_next_field_iterator : FieldIterator → FieldIterator
obj_next_field_iterator it = record it { cur_field = it.cur_field + member_size }

-- The `do … while`, on fuel.
unfoldable pub obj_next_ptr_field_iterator : ℕ → Mem → FieldIterator → Outcome FieldIterator
unfolding field_is_done_iterator obj_next_field_iterator is_valid_pointer
obj_next_ptr_field_iterator zero m it = out_of_fuel
obj_next_ptr_field_iterator (suc fuel) m it = do
  let next = obj_next_field_iterator it
  over ← field_is_done_iterator m next
  if over || is_valid_pointer (m next.cur_field)
      then ok next
      else obj_next_ptr_field_iterator fuel m next

unfoldable pub ptr_field_begin_iterator : ℕ → Mem → ℕ → Outcome FieldIterator
unfolding field_begin_iterator field_is_done_iterator is_valid_pointer obj_next_ptr_field_iterator
ptr_field_begin_iterator fuel m obj = do
  it ← field_begin_iterator m obj
  over ← field_is_done_iterator m it
  if over || is_valid_pointer (m it.cur_field) then ok it else obj_next_ptr_field_iterator fuel m it
