-- ===== src/Runtime/Pattern.antt =====
-- The tests of pattern matching, `B*_patt` and `Btag` of runtime/runtime.c.
use lama_rv_workshop.Base.{
  ℕ, zero, suc, ◌+◌, Bool, true, false, not, ◌&&◌, ◌||◌, ◌==◌, if◌then◌else◌, List, [], ◌∷◌,
}
use lama_rv_workshop.Base.Outcome.{Outcome, ok, out_of_fuel, guard, string_expected, ◌>>=◌, ◌>>◌}
use lama_rv_workshop.Runtime.Value.{
  is_unboxed, unbox, box, string_tag, array_tag, sexp_tag, closure_tag,
}
use lama_rv_workshop.Runtime.Infix.{box_bool}
use lama_rv_workshop.Runtime.Access.{tag_at, len_at}
use lama_rv_workshop.Gc.State.{Mem, byte_at}
use Prim.Native.String.{String}

-- `ASSERT_STRING`, which lets an unboxed value pass.
abbrev pub assert_string : Mem → String → ℕ → Outcome (Unit {0})
assert_string m memo x = guard (is_unboxed x || tag_at m x == string_tag) (string_expected memo)

-- The bytes from `a` up to the zero byte, on fuel.
unfoldable pub c_string : ℕ → Mem → ℕ → Outcome (List ℕ)
c_string zero m a = out_of_fuel
c_string (suc fuel) m a =
    if byte_at m a == 0 then ok [] else do rest ← c_string fuel m (a + 1); ok (byte_at m a ∷ rest)

unfoldable pub bytes_eq : List ℕ → List ℕ → Bool
bytes_eq [] [] = true
bytes_eq [] (y ∷ b) = false
bytes_eq (x ∷ a) [] = false
bytes_eq (x ∷ a) (y ∷ b) = x == y && bytes_eq a b

-- `Btag`
unfoldable pub tag_patt : Mem → ℕ → ℕ → ℕ → ℕ
tag_patt m d t n =
    if is_unboxed d
    then box 0
    else box_bool (tag_at m d == sexp_tag && (m d == unbox t && len_at m d == unbox n))

-- `Barray_patt`
unfoldable pub array_patt : Mem → ℕ → ℕ → ℕ
array_patt m d n =
    if is_unboxed d then box 0 else box_bool (tag_at m d == array_tag && len_at m d == unbox n)

-- `Bstring_patt`, on fuel for the two texts.
unfoldable pub string_patt : ℕ → Mem → ℕ → ℕ → Outcome ℕ
string_patt fuel m x y = do
  assert_string m ".string_patt:2" y
  if is_unboxed x || not (tag_at m x == string_tag)
      then ok (box 0)
      else do a ← c_string fuel m x; b ← c_string fuel m y; ok (box_bool (bytes_eq a b))

unfoldable pub closure_tag_patt : Mem → ℕ → ℕ
closure_tag_patt m x = if is_unboxed x then box 0 else box_bool (tag_at m x == closure_tag)

unfoldable pub boxed_patt : ℕ → ℕ
boxed_patt x = if is_unboxed x then box 0 else box 1

unfoldable pub unboxed_patt : ℕ → ℕ
unboxed_patt x = if is_unboxed x then box 1 else box 0

unfoldable pub array_tag_patt : Mem → ℕ → ℕ
array_tag_patt m x = if is_unboxed x then box 0 else box_bool (tag_at m x == array_tag)

unfoldable pub string_tag_patt : Mem → ℕ → ℕ
string_tag_patt m x = if is_unboxed x then box 0 else box_bool (tag_at m x == string_tag)

unfoldable pub sexp_tag_patt : Mem → ℕ → ℕ
sexp_tag_patt m x = if is_unboxed x then box 0 else box_bool (tag_at m x == sexp_tag)
