-- ===== src/Gc/Alloc.antt =====
-- Allocation of objects, with a collection where the heap has no room.
pub mod Laws
use lama_rv_workshop.Base.{ℕ, ◌+◌, ◌*◌, ◌%◌, Option, none, some}
use lama_rv_workshop.Base.Word.{word_mod}
use lama_rv_workshop.Base.Outcome.{Outcome, ok, fault, ◌>>=◌}
use lama_rv_workshop.Runtime.Value.{string_tag, array_tag, sexp_tag, closure_tag}
use lama_rv_workshop.Gc.State.{write, State}
use lama_rv_workshop.Gc.Object.{bytes_to_words, array_size, string_size, closure_size, sexp_size}
use lama_rv_workshop.Gc.Bump.{gc_alloc_on_existing_heap}
use lama_rv_workshop.Gc.Mark.{mark_phase}
use lama_rv_workshop.Gc.Compact.{compact_phase}

unfoldable pub gc_alloc : Option ℕ → ℕ → State → Outcome (State × Option ℕ)
gc_alloc mapping size s = do
  s1 ← mark_phase s
  s2 ← compact_phase mapping size s1
  ok (gc_alloc_on_existing_heap s2 size)

-- What `alloc` does with the answer of the first try.
unfoldable pub alloc_or_collect : Option ℕ → ℕ → State × Option ℕ → Outcome (State × Option ℕ)
alloc_or_collect mapping size (s, none) = gc_alloc mapping size s
alloc_or_collect mapping size (s, some p) = ok (s, some p)

-- `alloc`, of a number of bytes.
unfoldable pub alloc : Option ℕ → ℕ → State → Outcome (State × Option ℕ)
alloc mapping size s =
    let words = bytes_to_words size in
    alloc_or_collect mapping words (gc_alloc_on_existing_heap s words)

-- The stores through the pointer that `alloc` returned: the header and the forward address.
unfoldable pub set_header : ℕ → State × Option ℕ → Outcome (State × ℕ)
set_header header (s, none) = fault
set_header header (s, some obj) =
    ok (record s { mem = write (write s.mem obj header) (obj + 8) 0 }, obj)

-- `TAG | (len << 3)` on 64 bits; the shift clears the bits that the tag sets.
abbrev pub header_of : ℕ → ℕ → ℕ
header_of tag len = (len * 8) % word_mod + tag

unfoldable pub alloc_string : Option ℕ → ℕ → State → Outcome (State × ℕ)
alloc_string mapping len s = do
  r ← alloc mapping (string_size len) s
  set_header (header_of string_tag len) r

unfoldable pub alloc_array : Option ℕ → ℕ → State → Outcome (State × ℕ)
alloc_array mapping len s = do
  r ← alloc mapping (array_size len) s
  set_header (header_of array_tag len) r

unfoldable pub alloc_sexp : Option ℕ → ℕ → State → Outcome (State × ℕ)
alloc_sexp mapping members s = do
  r ← alloc mapping (sexp_size members) s
  (s', obj) ← set_header (header_of sexp_tag members) r
  ok (record s' { mem = write s'.mem (obj + 16) 0 }, obj)

unfoldable pub alloc_closure : Option ℕ → ℕ → State → Outcome (State × ℕ)
alloc_closure mapping captured s = do
  r ← alloc mapping (closure_size captured) s
  set_header (header_of closure_tag captured) r
