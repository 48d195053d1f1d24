-- ===== src/Gc/Object.antt =====
-- Objects on the heap: types, sizes, mark bits, and the iterator over the heap.
-- An object at address `h` has its header at `h`, its forward address at `h + 8` and its contents
-- from `h + 16` on. A pointer to its contents is `h + 16`.
pub mod Laws
use Prim.Native.Nat.{max}
use lama_rv_workshop.Base.{
  ℕ, ◌+◌, ◌-◌, ◌*◌, ◌/◌, ◌%◌, Bool, not, ◌&&◌, ◌==◌, ltb, leb, if◌then◌else◌,
}
use lama_rv_workshop.Base.Word.{word_mod, sub_word}
use lama_rv_workshop.Base.Outcome.{Outcome, ok, exited, ◌>>=◌}
use lama_rv_workshop.Runtime.Value.{
  is_unboxed, tag_of, len_of, string_tag, array_tag, sexp_tag, closure_tag,
}
use lama_rv_workshop.Gc.State.{Mem, write, Chunk, State}

pub data LamaType : Type 0 where
  array closure string sexp : LamaType

-- `DATA_HEADER_SZ` and `MEMBER_SIZE`
abbrev pub data_header_sz : ℕ
data_header_sz = 16

abbrev pub member_size : ℕ
member_size = 8

-- `BYTES_TO_WORDS`
abbrev pub bytes_to_words : ℕ → ℕ
bytes_to_words bytes = sub_word bytes 1 / 8 + 1

-- The last case kills the process.
unfoldable pub get_type_header_ptr : Mem → ℕ → Outcome LamaType
get_type_header_ptr m ptr =
    let t = tag_of (m ptr) in
    if t == array_tag
    then ok array
    else if t == string_tag
    then ok string
    else if t == closure_tag
    then ok closure
    else if t == sexp_tag
    then ok sexp
    else exited

abbrev pub get_header_size : LamaType → ℕ
get_header_size t = data_header_sz

-- `TO_DATA(ptr)` and the type found there.
unfoldable pub get_type_row_ptr : Mem → ℕ → Outcome LamaType
unfolding get_type_header_ptr
get_type_row_ptr m ptr = get_type_header_ptr m (ptr - data_header_sz)

abbrev pub array_size : ℕ → ℕ
array_size sz = (get_header_size array + member_size * sz) % word_mod

abbrev pub string_size : ℕ → ℕ
string_size len = (get_header_size string + len + 1) % word_mod

abbrev pub closure_size : ℕ → ℕ
closure_size sz = (get_header_size closure + member_size * sz) % word_mod

abbrev pub sexp_size : ℕ → ℕ
sexp_size members = (get_header_size sexp + member_size * (members + 1)) % word_mod

-- The `switch` of `obj_size_header_ptr`.
abbrev pub size_of : LamaType → ℕ → ℕ
size_of array len = array_size len
size_of string len = string_size len
size_of closure len = closure_size len
size_of sexp len = sexp_size len

unfoldable pub obj_size_header_ptr : Mem → ℕ → Outcome ℕ
unfolding get_type_header_ptr
obj_size_header_ptr m ptr = do t ← get_type_header_ptr m ptr; ok (size_of t (len_of (m ptr)))

unfoldable pub obj_size_row_ptr : Mem → ℕ → Outcome ℕ
unfolding obj_size_header_ptr
obj_size_row_ptr m ptr = obj_size_header_ptr m (ptr - data_header_sz)

unfoldable pub get_obj_header_ptr : Mem → ℕ → Outcome ℕ
unfolding get_type_row_ptr
get_obj_header_ptr m ptr = do t ← get_type_row_ptr m ptr; ok (ptr - get_header_size t)

unfoldable pub get_object_content_ptr : Mem → ℕ → Outcome ℕ
unfolding get_type_header_ptr
get_object_content_ptr m header_ptr = do
  t ← get_type_header_ptr m header_ptr
  ok (header_ptr + get_header_size t)

unfoldable pub get_end_of_obj : Mem → ℕ → Outcome ℕ
unfolding obj_size_header_ptr
get_end_of_obj m header_ptr = do size ← obj_size_header_ptr m header_ptr; ok (header_ptr + size)

-- The word `forward_address`: bit 0 is the mark, bit 1 says that the object is queued, and the
-- rest is an address. The macros of gc.h on such a word:
abbrev pub get_mark_bit : ℕ → Bool
get_mark_bit x = x % 2 == 1

abbrev pub set_mark_bit : ℕ → ℕ
set_mark_bit x = x / 2 * 2 + 1

abbrev pub reset_mark_bit : ℕ → ℕ
reset_mark_bit x = x / 2 * 2

abbrev pub enqueued_bit : ℕ → Bool
enqueued_bit x = x / 2 % 2 == 1

abbrev pub enqueue_bit : ℕ → ℕ
enqueue_bit x = x / 4 * 4 + 2 + x % 2

abbrev pub dequeue_bit : ℕ → ℕ
dequeue_bit x = x / 4 * 4 + x % 2

-- `x & ~3`, and `(x & 3) | addr`.
abbrev pub forward_part : ℕ → ℕ
forward_part x = x / 4 * 4

abbrev pub set_forward_part : ℕ → ℕ → ℕ
set_forward_part x addr = addr / 4 * 4 + max (x / 2 % 2) (addr / 2 % 2) * 2 + max (x % 2) (addr % 2)

-- The functions on a pointer `obj` to contents; the word stands at `obj - 8`.
abbrev pub forward_slot : ℕ → ℕ
forward_slot obj = obj - data_header_sz + 8

unfoldable pub get_forward_address : Mem → ℕ → ℕ
get_forward_address m obj = forward_part (m (forward_slot obj))

unfoldable pub set_forward_address : Mem → ℕ → ℕ → Mem
set_forward_address m obj addr =
    write m (forward_slot obj) (set_forward_part (m (forward_slot obj)) addr)

unfoldable pub is_marked : Mem → ℕ → Bool
is_marked m obj = get_mark_bit (m (forward_slot obj))

unfoldable pub mark_object : Mem → ℕ → Mem
mark_object m obj = write m (forward_slot obj) (set_mark_bit (m (forward_slot obj)))

unfoldable pub unmark_object : Mem → ℕ → Mem
unmark_object m obj = write m (forward_slot obj) (reset_mark_bit (m (forward_slot obj)))

unfoldable pub is_enqueued : Mem → ℕ → Bool
is_enqueued m obj = enqueued_bit (m (forward_slot obj))

unfoldable pub make_enqueued : Mem → ℕ → Mem
make_enqueued m obj = write m (forward_slot obj) (enqueue_bit (m (forward_slot obj)))

unfoldable pub make_dequeued : Mem → ℕ → Mem
make_dequeued m obj = write m (forward_slot obj) (dequeue_bit (m (forward_slot obj)))

unfoldable pub is_valid_pointer : ℕ → Bool
is_valid_pointer p = not (is_unboxed p)

unfoldable pub is_valid_heap_pointer : Chunk → ℕ → Bool
is_valid_heap_pointer heap p = not (is_unboxed p) && (leb heap.begin p && leb p heap.current)

-- The iterator over the heap is the address of an object's header.
unfoldable pub heap_begin_iterator : Chunk → ℕ
heap_begin_iterator heap = heap.begin

unfoldable pub heap_next_obj_iterator : Mem → ℕ → Outcome ℕ
unfolding obj_size_header_ptr
heap_next_obj_iterator m it = do
  obj_size ← obj_size_header_ptr m it
  ok (it + bytes_to_words obj_size * 8)

unfoldable pub heap_is_done_iterator : Chunk → ℕ → Bool
heap_is_done_iterator heap it = leb heap.current it
