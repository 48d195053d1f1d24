-- ===== src/Runtime/Compare/Laws.antt =====
-- The order that `Lcompare` defines.
use lama_rv_workshop.Base.{ℕ, suc, ◌^◌, ◌≡◌, refl, true, false, arith, List, inl, inr, Bool-cases}
use lama_rv_workshop.Base.Int.{ℤ, pos, negsuc, ◌-ℤ◌, ◌≤ℤ◌, ◌<ℤ◌, eqb_ℤ}
use lama_rv_workshop.Base.Word.{sub_word}
use lama_rv_workshop.Base.Outcome.{ok}
use lama_rv_workshop.Runtime.Value.{is_unboxed, box}
use lama_rv_workshop.Runtime.Infix.{int_of, box_int}
use lama_rv_workshop.Runtime.Infix.Laws.{Fits, is_unboxed-box_int, int_of-box_int, box_int-eqb}
use lama_rv_workshop.Runtime.Compare.{compare, flat_compare}
use lama_rv_workshop.Gc.State.{Mem, Chunk}

diff_zero : (a b : ℤ) → eqb_ℤ a b ≡ true → box_int (a -ℤ b) ≡ box 0
unfolding ◌-ℤ◌
diff_zero a b h = ground arith

module _ (strcmp : List ℕ → List ℕ → ℤ) (heap : Chunk) (m : Mem) (fuel : ℕ) where
  -- Two boxed integers of 63 bits compare as the box of their difference.
  pub compare_ints :
      (a b : ℤ)
      → Fits a
      → Fits b
      → compare strcmp heap m (suc fuel) (box_int a) (box_int b) ≡ ok (box_int (a -ℤ b))
  unfolding compare
  compare_ints a b ha hb = elim (Bool-cases (eqb_ℤ a b)) [
    | inl e ↦ rw (box_int-eqb a b ha hb, e, diff_zero a b e) refl
    | inr e ↦
        rw
          (
            box_int-eqb a b ha hb,
            e,
            is_unboxed-box_int a,
            is_unboxed-box_int b,
            int_of-box_int a ha,
            int_of-box_int b hb,
          )
          refl
  ]

negative_of_big : (z : ℤ) → pos (2 ^ 62) ≤ℤ z → z <ℤ pos (2 ^ 63) → int_of (box_int z) <ℤ pos 0
negative_of_big (pos n) lo hi = ground arith
negative_of_big (negsuc n) lo hi = ground arith

diff_bound : (a b : ℤ) → Fits a → Fits b → (a -ℤ b) <ℤ pos (2 ^ 63)
unfolding ◌-ℤ◌
diff_bound a b ha hb = ground arith

-- The greater of two integers whose difference does not fit 63 bits compares as the smaller one.
pub compare_wraps :
    (strcmp : List ℕ → List ℕ → ℤ) (heap : Chunk) (m : Mem) (fuel : ℕ) (a b : ℤ)
    → Fits a
    → Fits b
    → pos (2 ^ 62) ≤ℤ a -ℤ b
    → (c : ℕ) × (compare strcmp heap m (suc fuel) (box_int a) (box_int b) ≡ ok c)
      × (int_of c <ℤ pos 0)
compare_wraps strcmp heap m fuel a b ha hb far = (
  box_int (a -ℤ b),
  compare_ints strcmp heap m fuel a b ha hb,
  negative_of_big (a -ℤ b) far (diff_bound a b ha hb),
)

-- LflatCompare of a pointer and any value is the box of the difference of the words: the last
-- branch, which answers 1, is never taken.
pub flat_compare-boxed : (p q : ℕ) → is_unboxed p ≡ false → flat_compare p q ≡ box (sub_word p q)
unfolding flat_compare
flat_compare-boxed p q h = elim (Bool-cases (is_unboxed q)) [
  | inl e ↦ rw (h, e) refl
  | inr e ↦ rw (h, e) refl
]
