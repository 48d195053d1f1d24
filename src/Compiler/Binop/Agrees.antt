-- ===== src/Compiler/Binop/Agrees.antt =====
-- The code that the compiler emits for an operator, comp/src/emit.cpp, against the function that
-- runtime/runtime.c has for the same operator.
use lama_rv_workshop.Base.{
  ℕ, ◌<◌, ◌≡◌, refl, Bool, true, false, not, zero, suc, arith, ◌==◌, ◌||◌, ◌&&◌, Option, none, some,
  ◌∙◌, ap, sym,
}
use Prim.Native.Nat.{bit_and, bit_or}
use lama_rv_workshop.Base.Int.{◌+ℤ◌, ◌-ℤ◌}
use lama_rv_workshop.Base.Word.{word_mod, signed, to_word, add_word, sub_word, sar1}
use lama_rv_workshop.Base.Outcome.{Outcome, ok, fault}
use lama_rv_workshop.Runtime.Value.{is_unboxed, unbox, box}
use lama_rv_workshop.Runtime.Infix.{
  infix_or, infix_and, infix_eq, infix_ne, infix_le, infix_lt, infix_ge, infix_gt, infix_plus,
  infix_minus, infix_times, infix_div, infix_rem, box_bool,
}
use lama_rv_workshop.Compiler.Asm.{Register}
use lama_rv_workshop.Compiler.Stack.{reg}
use lama_rv_workshop.Compiler.Machine.{Cpu, run, bit}
use lama_rv_workshop.Compiler.Binop.{BinopKind, binop_code}
use lama_rv_workshop.Compiler.Binop.Laws.{observe, computes, binop_runs, sar1-lt}

-- The function of the runtime that stands for the operator.
abbrev pub runtime_operator : BinopKind → ℕ → ℕ → Outcome ℕ
runtime_operator BinopKind.add = infix_plus
runtime_operator BinopKind.sub = infix_minus
runtime_operator BinopKind.mul = infix_times
runtime_operator BinopKind.div = infix_div
runtime_operator BinopKind.rem = infix_rem
runtime_operator BinopKind.less_than = infix_lt
runtime_operator BinopKind.less_equal = infix_le
runtime_operator BinopKind.greater_than = infix_gt
runtime_operator BinopKind.greater_equal = infix_ge
runtime_operator BinopKind.equal = infix_eq
runtime_operator BinopKind.not_equal = infix_ne
runtime_operator BinopKind.and = infix_and
runtime_operator BinopKind.or = infix_or

-- Where the two are compared: a divisor is not 0, and the operands of `&&` and `!!` are 0 or 1.
abbrev pub Comparable : BinopKind → ℕ → ℕ → Type 0
Comparable BinopKind.div p q = (unbox q == 0) ≡ false
Comparable BinopKind.rem p q = (unbox q == 0) ≡ false
Comparable BinopKind.and p q = (unbox p < 2) × (unbox q < 2)
Comparable BinopKind.or p q = (unbox p < 2) × (unbox q < 2)
Comparable _ p q = Unit {0}

box-bit : (t : Bool) → box (bit t) ≡ box_bool t
box-bit true = refl
box-bit false = refl

eq_of_unboxed :
    (p q : ℕ)
    → p < word_mod
    → q < word_mod
    → is_unboxed p ≡ true
    → is_unboxed q ≡ true
    → (sar1 p == sar1 q) ≡ (p == q)
eq_of_unboxed p q hp hq p_odd q_odd = ground arith

to_word-add :
    (x y : ℕ) → x < word_mod → y < word_mod → to_word (signed x +ℤ signed y) ≡ add_word x y
unfolding ◌+ℤ◌
to_word-add x y hx hy = ground arith

to_word-sub :
    (x y : ℕ) → x < word_mod → y < word_mod → to_word (signed x -ℤ signed y) ≡ sub_word x y
unfolding ◌-ℤ◌
to_word-sub x y hx hy = ground arith

box-and : (x y : ℕ) → x < 2 → y < 2 → box_bool (not (x == 0) && not (y == 0)) ≡ box (bit_and x y)
box-and zero zero hx hy = refl
box-and zero (suc zero) hx hy = refl
box-and (suc zero) zero hx hy = refl
box-and (suc zero) (suc zero) hx hy = refl
box-and x (suc (suc y)) hx hy = omega arith
box-and (suc (suc x)) y hx hy = omega arith

box-or : (x y : ℕ) → x < 2 → y < 2 → box_bool (not (x == 0) || not (y == 0)) ≡ box (bit_or x y)
box-or zero zero hx hy = refl
box-or zero (suc zero) hx hy = refl
box-or (suc zero) zero hx hy = refl
box-or (suc zero) (suc zero) hx hy = refl
box-or x (suc (suc y)) hx hy = omega arith
box-or (suc (suc x)) y hx hy = omega arith

module _ (p q : ℕ) (hp : p < word_mod) (hq : q < word_mod) (p_odd : is_unboxed p ≡ true)
    (q_odd : is_unboxed q ≡ true) where
  runtime_computes :
      (op : BinopKind)
      → Comparable op p q
      → runtime_operator op p q ≡ ok (box (computes op (sar1 p) (sar1 q)))
  unfolding infix_or infix_and infix_eq infix_ne infix_le infix_lt infix_ge infix_gt infix_plus
      infix_minus infix_times infix_div infix_rem
  runtime_computes BinopKind.add h =
      rw (p_odd, q_odd) (ap (λ w. ok (box w)) (to_word-add _ _ (sar1-lt p hp) (sar1-lt q hq)))
  runtime_computes BinopKind.sub h =
      rw (p_odd, q_odd) (ap (λ w. ok (box w)) (to_word-sub _ _ (sar1-lt p hp) (sar1-lt q hq)))
  runtime_computes BinopKind.mul h = rw (p_odd, q_odd) refl
  runtime_computes BinopKind.div h = rw (p_odd, q_odd, h) refl
  runtime_computes BinopKind.rem h = rw (p_odd, q_odd, h) refl
  runtime_computes BinopKind.less_than h = rw (p_odd, q_odd) (ap ok (sym (box-bit _)))
  runtime_computes BinopKind.less_equal h = rw (p_odd, q_odd) (ap ok (sym (box-bit _)))
  runtime_computes BinopKind.greater_than h = rw (p_odd, q_odd) (ap ok (sym (box-bit _)))
  runtime_computes BinopKind.greater_equal h = rw (p_odd, q_odd) (ap ok (sym (box-bit _)))
  runtime_computes BinopKind.equal h =
      ap ok (sym (ap (λ t. box (bit t)) (eq_of_unboxed p q hp hq p_odd q_odd) ∙ box-bit _))
  runtime_computes BinopKind.not_equal h = rw (p_odd, q_odd) (ap ok (sym (box-bit _)))
  runtime_computes BinopKind.and (h1, h2) = rw (p_odd, q_odd) (ap ok (box-and _ _ h1 h2))
  runtime_computes BinopKind.or (h1, h2) = rw (p_odd, q_odd) (ap ok (box-or _ _ h1 h2))

-- A run's value, where a run that stops has none.
abbrev pub as_outcome : Option ℕ → Outcome ℕ
as_outcome none = fault
as_outcome (some v) = ok v

-- Let two different registers other than x0 hold unboxed words on which the two versions of the
-- operator are compared: no divisor 0, operands 0 or 1 for the logical ones. Then the code emitted
-- for the operator, with its result in the first register, leaves there the value that the
-- function of the runtime for the operator returns.
pub compiled_operator :
    (op : BinopKind) (a b : Register) (c : Cpu)
    → (a == 0) ≡ false
    → (b == 0) ≡ false
    → (a == b) ≡ false
    → (b == a) ≡ false
    → c.regs a < word_mod
    → c.regs b < word_mod
    → is_unboxed (c.regs a) ≡ true
    → is_unboxed (c.regs b) ≡ true
    → Comparable op (c.regs a) (c.regs b)
    → as_outcome (observe (λ c'. c'.regs a) (run (binop_code op (reg a) (reg b) (reg a)) c))
      ≡ runtime_operator op (c.regs a) (c.regs b)
compiled_operator op a b c a_pos b_pos a_b b_a a_word b_word a_odd b_odd h =
    ap as_outcome (binop_runs a b c a_pos b_pos a_b b_a a_word b_word op)
    ∙ sym (runtime_computes _ _ a_word b_word a_odd b_odd op h)
