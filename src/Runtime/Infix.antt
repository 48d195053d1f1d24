-- ===== src/Runtime/Infix.antt =====
-- The operators of runtime/runtime.c, `Ls__Infix_*`. Arithmetic on `aint` is that of the integers,
-- reduced modulo 2 ^ 64.
pub mod Laws
use lama_rv_workshop.Base.{ℕ, ◌==◌, ◌&&◌, ◌||◌, not, Bool, if◌then◌else◌}
use lama_rv_workshop.Base.Int.{ℤ, pos, ◌+ℤ◌, ◌-ℤ◌, ◌*ℤ◌, quot, rem, ltb_ℤ, eqb_ℤ}
use lama_rv_workshop.Base.Word.{signed, to_word, sub_word}
use lama_rv_workshop.Base.Outcome.{Outcome, ok, fault, ◌>>=◌, ◌>>◌}
use lama_rv_workshop.Runtime.Value.{is_unboxed, unbox, box, assert_boxed, assert_unboxed}
use Prim.Native.String.{String}

-- The integer of an unboxed value, and the value of an `aint` or of a C truth value.
abbrev pub int_of : ℕ → ℤ
int_of p = signed (unbox p)

abbrev pub box_int : ℤ → ℕ
box_int z = box (to_word z)

abbrev pub box_bool : Bool → ℕ
box_bool b = if b then 3 else 1

abbrev pub is_true : ℕ → Bool
is_true p = not (unbox p == 0)

-- `||`
unfoldable pub infix_or : ℕ → ℕ → Outcome ℕ
infix_or p q = do
  assert_unboxed "captured !!:1" p
  assert_unboxed "captured !!:2" q
  ok (box_bool (is_true p || is_true q))

-- `&&`
unfoldable pub infix_and : ℕ → ℕ → Outcome ℕ
infix_and p q = do
  assert_unboxed "captured &&:1" p
  assert_unboxed "captured &&:2" q
  ok (box_bool (is_true p && is_true q))

-- `==`, which alone checks nothing.
unfoldable pub infix_eq : ℕ → ℕ → Outcome ℕ
infix_eq p q = ok (box_bool (p == q))

-- `!=`
unfoldable pub infix_ne : ℕ → ℕ → Outcome ℕ
infix_ne p q = do
  assert_unboxed "captured !=:1" p
  assert_unboxed "captured !=:2" q
  ok (box_bool (not (unbox p == unbox q)))

-- `<=`
unfoldable pub infix_le : ℕ → ℕ → Outcome ℕ
infix_le p q = do
  assert_unboxed "captured <=:1" p
  assert_unboxed "captured <=:2" q
  ok (box_bool (not (ltb_ℤ (int_of q) (int_of p))))

-- `<`
unfoldable pub infix_lt : ℕ → ℕ → Outcome ℕ
infix_lt p q = do
  assert_unboxed "captured <:1" p
  assert_unboxed "captured <:2" q
  ok (box_bool (ltb_ℤ (int_of p) (int_of q)))

-- `>=`
unfoldable pub infix_ge : ℕ → ℕ → Outcome ℕ
infix_ge p q = do
  assert_unboxed "captured >=:1" p
  assert_unboxed "captured >=:2" q
  ok (box_bool (not (ltb_ℤ (int_of p) (int_of q))))

-- `>`
unfoldable pub infix_gt : ℕ → ℕ → Outcome ℕ
infix_gt p q = do
  assert_unboxed "captured >:1" p
  assert_unboxed "captured >:2" q
  ok (box_bool (ltb_ℤ (int_of q) (int_of p)))

-- `+`
unfoldable pub infix_plus : ℕ → ℕ → Outcome ℕ
infix_plus p q = do
  assert_unboxed "captured +:1" p
  assert_unboxed "captured +:2" q
  ok (box_int (int_of p +ℤ int_of q))

-- `-`, which also takes the distance of two pointers.
unfoldable pub infix_minus : ℕ → ℕ → Outcome ℕ
infix_minus p q =
    if is_unboxed p
    then (do assert_unboxed "captured -:2" q; ok (box_int (int_of p -ℤ int_of q)))
    else (do assert_boxed "captured -:1" q; ok (box (sub_word p q)))

-- `*`
unfoldable pub infix_times : ℕ → ℕ → Outcome ℕ
infix_times p q = do
  assert_unboxed "captured *:1" p
  assert_unboxed "captured *:2" q
  ok (box_int (int_of p *ℤ int_of q))

-- `/` and `%`: division by zero is undefined.
unfoldable pub infix_div : ℕ → ℕ → Outcome ℕ
infix_div p q = do
  assert_unboxed "captured /:1" p
  assert_unboxed "captured /:2" q
  if unbox q == 0 then fault else ok (box_int (quot (int_of p) (int_of q)))

unfoldable pub infix_rem : ℕ → ℕ → Outcome ℕ
infix_rem p q = do
  assert_unboxed "captured %:1" p
  assert_unboxed "captured %:2" q
  if unbox q == 0 then fault else ok (box_int (rem (int_of p) (int_of q)))
