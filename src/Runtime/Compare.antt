-- ===== src/Runtime/Compare.antt =====
-- `LflatCompare` and `Lcompare` of runtime/runtime.c.
pub mod Laws
use lama_rv_workshop.Base.{ℕ, zero, suc, ◌+◌, ◌-◌, ◌*◌, Bool, not, ◌==◌, if◌then◌else◌, List}
use lama_rv_workshop.Base.Int.{ℤ, ◌-ℤ◌}
use lama_rv_workshop.Base.Word.{word_mod, sub_word}
use lama_rv_workshop.Base.Outcome.{Outcome, ok, failure, out_of_fuel, message, ◌>>=◌}
use lama_rv_workshop.Runtime.Value.{
  is_unboxed, unbox, box, string_tag, array_tag, sexp_tag, closure_tag,
}
use lama_rv_workshop.Runtime.Infix.{int_of, box_int}
use lama_rv_workshop.Runtime.Access.{tag_at, len_at}
use lama_rv_workshop.Runtime.Pattern.{c_string}
use lama_rv_workshop.Gc.State.{Mem, Chunk}
use lama_rv_workshop.Gc.Object.{is_valid_heap_pointer}

-- `~x` on a word.
abbrev pub bit_not : ℕ → ℕ
bit_not x = word_mod - 1 - x

-- `UNBOXED(x)` as the number that the source negates.
abbrev pub unboxed_bit : ℕ → ℕ
unboxed_bit x = if is_unboxed x then 1 else 0

-- The first early return gives -1 without `BOX`; as a word it is also the box of -1.
unfoldable pub flat_compare : ℕ → ℕ → ℕ
flat_compare p q =
    if is_unboxed p
    then (if is_unboxed q then box_int (int_of p -ℤ int_of q) else word_mod - 1)
    else if not (bit_not (unboxed_bit q) == 0)
    then box (sub_word p q)
    else box 1

-- `strcmp`, of which C fixes only the sign, is a parameter.
module _ (strcmp : List ℕ → List ℕ → ℤ) (heap : Chunk) (m : Mem) where
  -- The loop over the fields, given the recursive call.
  unfoldable pub compare_fields : (ℕ → ℕ → Outcome ℕ) → ℕ → ℕ → ℕ → Outcome ℕ
  compare_fields cmp zero a b = ok (box 0)
  compare_fields cmp (suc left) a b = do
    c ← cmp (m a) (m b)
    if c == box 0 then compare_fields cmp left (a + 8) (b + 8) else ok c

  -- `COMPARE_AND_RETURN(x, y)` before the rest.
  abbrev pub unless_differ : ℕ → ℕ → Outcome ℕ → Outcome ℕ
  unless_differ x y rest = if x == y then rest else ok (box (sub_word x y))

  -- The `switch` on the objects' tag, which is the same.
  unfoldable pub compare_objects : ℕ → (ℕ → ℕ → Outcome ℕ) → ℕ → ℕ → ℕ → Outcome ℕ
  compare_objects fuel cmp tag p q =
      if tag == string_tag
      then (do a ← c_string fuel m p; b ← c_string fuel m q; ok (box_int (strcmp a b)))
      else if tag == closure_tag
      then unless_differ (m p) (m q)
          (unless_differ la lb (compare_fields cmp (la - 1) (p + 8) (q + 8)))
      else if tag == array_tag
      then unless_differ la lb (compare_fields cmp la p q)
      else if tag == sexp_tag
      then unless_differ (m p) (m q) (unless_differ la lb (compare_fields cmp la (p + 8) (q + 8)))
      else failure (message "invalid data_header in compare")
    where
      la : ℕ
      la = len_at m p

      lb : ℕ
      lb = len_at m q

  -- On fuel for the depth and for the texts: on a cyclic value the source recurses for ever.
  unfoldable pub compare : ℕ → ℕ → ℕ → Outcome ℕ
  compare zero p q = out_of_fuel
  compare (suc fuel) p q =
      if p == q
      then ok (box 0)
      else if is_unboxed p
      then (if is_unboxed q then ok (box_int (int_of p -ℤ int_of q)) else ok (word_mod - 1))
      else if is_unboxed q
      then ok (box 1)
      else if is_valid_heap_pointer heap p
      then (if is_valid_heap_pointer heap q
          then unless_differ (tag_at m p) (tag_at m q)
              (compare_objects fuel (compare fuel) (tag_at m p) p q)
          else ok (word_mod - 1))
      else if is_valid_heap_pointer heap q
      then ok (box 1)
      else ok (box (sub_word p q))
