-- ===== src/Runtime/Value.antt =====
-- Values of the Lama machine: the macros of runtime/runtime_common.h, and the checks of
-- runtime/runtime.c. A value is a 64-bit word: an odd word is an integer of 63 bits, an even word
-- is a pointer to the contents of an object.
use lama_rv_workshop.Base.{ℕ, ◌+◌, ◌*◌, ◌/◌, ◌%◌, ◌==◌, Bool, not}
use lama_rv_workshop.Base.Word.{word_mod, sar1}
use lama_rv_workshop.Base.Outcome.{Outcome, guard, boxed_expected, unboxed_expected}
use Prim.Native.String.{String}

-- `UNBOXED(x)`
abbrev pub is_unboxed : ℕ → Bool
is_unboxed x = x % 2 == 1

-- `UNBOX(x)`
abbrev pub unbox : ℕ → ℕ
unbox x = sar1 x

-- `BOX(x)`: the shift clears the bit that `| 1` sets.
abbrev pub box : ℕ → ℕ
box x = (x * 2 + 1) % word_mod

-- `TAG(x)` and `LEN(x)` of a header.
abbrev pub tag_of : ℕ → ℕ
tag_of x = x % 8

abbrev pub len_of : ℕ → ℕ
len_of x = x / 8

-- The tags `STRING_TAG` to `UNBOXED_TAG`.
abbrev pub string_tag : ℕ
string_tag = 1

abbrev pub array_tag : ℕ
array_tag = 3

abbrev pub sexp_tag : ℕ
sexp_tag = 5

abbrev pub closure_tag : ℕ
closure_tag = 7

abbrev pub unboxed_tag : ℕ
unboxed_tag = 9

-- `ASSERT_BOXED` and `ASSERT_UNBOXED`.
abbrev pub assert_boxed : String → ℕ → Outcome (Unit {0})
assert_boxed memo x = guard (not (is_unboxed x)) (boxed_expected memo)

abbrev pub assert_unboxed : String → ℕ → Outcome (Unit {0})
assert_unboxed memo x = guard (is_unboxed x) (unboxed_expected memo)
