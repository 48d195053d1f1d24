-- ===== src/Runtime/Infix/Laws.antt =====
-- The operators on the integers that the values stand for.
use lama_rv_workshop.Base.{
  ℕ, ◌-◌, ◌^◌, ◌≡◌, refl, ◌==◌, ◌&&◌, not, true, false, if◌then◌else◌, arith, inl, inr, Bool-cases,
  ◌≢◌, ap,
}
use lama_rv_workshop.Base.Int.{
  ℤ, pos, negsuc, ◌+ℤ◌, ◌-ℤ◌, ◌*ℤ◌, quot, rem, ltb_ℤ, eqb_ℤ, ◌≤ℤ◌, ◌<ℤ◌,
}
use Prim.Native.String.{String}
use lama_rv_workshop.Base.Word.{sub_word}
use lama_rv_workshop.Base.Outcome.{Outcome, ok, failure, boxed_expected, unboxed_expected}
use lama_rv_workshop.Runtime.Value.{is_unboxed, unbox, box}
use lama_rv_workshop.Runtime.Infix.{
  int_of, box_int, box_bool, infix_plus, infix_minus, infix_times, infix_lt, infix_le, infix_gt,
  infix_ge, infix_eq, infix_ne, infix_div, infix_rem, infix_and, infix_or,
}

-- The integers that fit 63 bits.
abbrev pub Fits : ℤ → Type 0
Fits z = (negsuc (2 ^ 62 - 1) ≤ℤ z) × (z <ℤ pos (2 ^ 62))

pub is_unboxed-box_int : (z : ℤ) → is_unboxed (box_int z) ≡ true
is_unboxed-box_int (pos n) = ground arith
is_unboxed-box_int (negsuc n) = ground arith

pub int_of-box_int : (z : ℤ) → Fits z → int_of (box_int z) ≡ z
int_of-box_int (pos n) h = ground arith
int_of-box_int (negsuc n) h = ground arith

unbox-box_int-ne_zero : (z : ℤ) → Fits z → z ≢ pos 0 → (unbox (box_int z) == 0) ≡ false
unbox-box_int-ne_zero (pos n) h e = ground (arith, λ (p : n ≡ 0). e (ap pos p))
unbox-box_int-ne_zero (negsuc n) h e = ground arith

module _ (a b : ℤ) (ha : Fits a) (hb : Fits b) where
  -- Addition, subtraction and multiplication of two boxed integers of 63 bits are the box of the
  -- sum, the difference and the product, reduced modulo 2 ^ 63 where it does not fit.
  pub infix_ring :
      (infix_plus (box_int a) (box_int b) ≡ ok (box_int (a +ℤ b)))
      × (infix_minus (box_int a) (box_int b) ≡ ok (box_int (a -ℤ b)))
      × (infix_times (box_int a) (box_int b) ≡ ok (box_int (a *ℤ b)))
  unfolding infix_plus infix_minus infix_times
  infix_ring = (
    rw (is_unboxed-box_int a, is_unboxed-box_int b, int_of-box_int a ha, int_of-box_int b hb) refl,
    rw (is_unboxed-box_int a, is_unboxed-box_int b, int_of-box_int a ha, int_of-box_int b hb) refl,
    rw (is_unboxed-box_int a, is_unboxed-box_int b, int_of-box_int a ha, int_of-box_int b hb) refl,
  )

  pub box_int-eqb : (box_int a == box_int b) ≡ eqb_ℤ a b
  box_int-eqb = go a b ha hb
    where
      go : (x y : ℤ) → Fits x → Fits y → (box_int x == box_int y) ≡ eqb_ℤ x y
      go (pos m) (pos n) hx hy = ground arith
      go (pos m) (negsuc n) hx hy = ground arith
      go (negsuc m) (pos n) hx hy = ground arith
      go (negsuc m) (negsuc n) hx hy = ground arith

  unbox-eqb : (unbox (box_int a) == unbox (box_int b)) ≡ eqb_ℤ a b
  unbox-eqb = go a b ha hb
    where
      go : (x y : ℤ) → Fits x → Fits y → (unbox (box_int x) == unbox (box_int y)) ≡ eqb_ℤ x y
      go (pos m) (pos n) hx hy = ground arith
      go (pos m) (negsuc n) hx hy = ground arith
      go (negsuc m) (pos n) hx hy = ground arith
      go (negsuc m) (negsuc n) hx hy = ground arith

  -- The six comparisons of two boxed integers of 63 bits answer as the order of the integers does.
  pub infix_order :
      (infix_lt (box_int a) (box_int b) ≡ ok (box_bool (ltb_ℤ a b)))
      × (infix_le (box_int a) (box_int b) ≡ ok (box_bool (not (ltb_ℤ b a))))
      × (infix_gt (box_int a) (box_int b) ≡ ok (box_bool (ltb_ℤ b a)))
      × (infix_ge (box_int a) (box_int b) ≡ ok (box_bool (not (ltb_ℤ a b))))
      × (infix_eq (box_int a) (box_int b) ≡ ok (box_bool (eqb_ℤ a b)))
      × (infix_ne (box_int a) (box_int b) ≡ ok (box_bool (not (eqb_ℤ a b))))
  unfolding infix_lt infix_le infix_gt infix_ge infix_eq infix_ne
  infix_order = (
    rw (is_unboxed-box_int a, is_unboxed-box_int b, int_of-box_int a ha, int_of-box_int b hb) refl,
    rw (is_unboxed-box_int a, is_unboxed-box_int b, int_of-box_int a ha, int_of-box_int b hb) refl,
    rw (is_unboxed-box_int a, is_unboxed-box_int b, int_of-box_int a ha, int_of-box_int b hb) refl,
    rw (is_unboxed-box_int a, is_unboxed-box_int b, int_of-box_int a ha, int_of-box_int b hb) refl,
    rw box_int-eqb refl,
    rw (is_unboxed-box_int a, is_unboxed-box_int b, unbox-eqb) refl,
  )

  -- Quotient and remainder of two boxed integers of 63 bits, the second not zero, are the box of
  -- the quotient rounded to zero and of the remainder with the sign of the dividend.
  pub infix_division :
      b ≢ pos 0
      → (infix_div (box_int a) (box_int b) ≡ ok (box_int (quot a b)))
        × (infix_rem (box_int a) (box_int b) ≡ ok (box_int (rem a b)))
  unfolding infix_div infix_rem
  infix_division ne =
      let z = unbox-box_int-ne_zero b hb ne in
      (
        rw (is_unboxed-box_int a, is_unboxed-box_int b, z, int_of-box_int a ha, int_of-box_int b hb)
            refl,
        rw (is_unboxed-box_int a, is_unboxed-box_int b, z, int_of-box_int a ha, int_of-box_int b hb)
            refl,
      )

-- The failure of the first operand, `p`, or else of the second one.
abbrev pub refused : (first second : String) → ℕ → Outcome ℕ
refused first second p = failure (unboxed_expected (if is_unboxed p then second else first))

-- What `-` does where its operands are not both integers.
abbrev pub distance : ℕ → ℕ → Outcome ℕ
distance p q =
    if is_unboxed p
    then failure (unboxed_expected "captured -:2")
    else if is_unboxed q
    then failure (boxed_expected "captured -:1")
    else ok (box (sub_word p q))

-- Where one of two operands is a pointer, each of the operators +, *, /, %, <, <=, >, >=, !=, &&
-- and !! fails with the message that names the first operand that is a pointer; minus fails where
-- the first operand is an integer, with the message on the second one, and where the second is an
-- integer, with the message on the first one, and gives the box of the difference of two pointers.
pub infix_checks :
    (p q : ℕ)
    → (is_unboxed p && is_unboxed q) ≡ false
    → (infix_plus p q ≡ refused "captured +:1" "captured +:2" p)
      × (infix_times p q ≡ refused "captured *:1" "captured *:2" p)
      × (infix_div p q ≡ refused "captured /:1" "captured /:2" p)
      × (infix_rem p q ≡ refused "captured %:1" "captured %:2" p)
      × (infix_lt p q ≡ refused "captured <:1" "captured <:2" p)
      × (infix_le p q ≡ refused "captured <=:1" "captured <=:2" p)
      × (infix_gt p q ≡ refused "captured >:1" "captured >:2" p)
      × (infix_ge p q ≡ refused "captured >=:1" "captured >=:2" p)
      × (infix_ne p q ≡ refused "captured !=:1" "captured !=:2" p)
      × (infix_and p q ≡ refused "captured &&:1" "captured &&:2" p)
      × (infix_or p q ≡ refused "captured !!:1" "captured !!:2" p)
      × (infix_minus p q ≡ distance p q)
unfolding infix_plus infix_times infix_div infix_rem infix_lt infix_le infix_gt infix_ge infix_ne
    infix_and infix_or infix_minus
infix_checks p q h = elim (Bool-cases (is_unboxed p)) [
  | inl x ↦
      let y : is_unboxed q ≡ false = rw x at h in
      (
        rw (x, y) refl,
        rw (x, y) refl,
        rw (x, y) refl,
        rw (x, y) refl,
        rw (x, y) refl,
        rw (x, y) refl,
        rw (x, y) refl,
        rw (x, y) refl,
        rw (x, y) refl,
        rw (x, y) refl,
        rw (x, y) refl,
        rw (x, y) refl,
      )
  | inr x ↦ (
    rw x refl,
    rw x refl,
    rw x refl,
    rw x refl,
    rw x refl,
    rw x refl,
    rw x refl,
    rw x refl,
    rw x refl,
    rw x refl,
    rw x refl,
    elim (Bool-cases (is_unboxed q)) [ inl y ↦ rw (x, y) refl | inr y ↦ rw (x, y) refl ],
  )
]
