-- ===== src/Runtime/Build/Observed.antt =====
-- An array that `Barray` built, as the accessors and the tests of pattern matching see it.
use lama_rv_workshop.Base.{ℕ, ◌+◌, ◌*◌, ◌%◌, ◌^◌, ◌<◌, ◌≡◌, refl, false, arith, ◌==◌, List, ap, ◌∙◌}
use lama_rv_workshop.Base.Word.{word_mod, sub_word}
use lama_rv_workshop.Base.Outcome.{ok}
use lama_rv_workshop.Runtime.Value.{is_unboxed, unbox, box, tag_of, len_of, array_tag}
use lama_rv_workshop.Runtime.Infix.{box_bool}
use lama_rv_workshop.Runtime.Access.{tag_at, len_at, header, elem, llength}
use lama_rv_workshop.Runtime.Access.Laws.{elem-eq-word}
use lama_rv_workshop.Runtime.Pattern.{
  array_patt, array_tag_patt, string_tag_patt, sexp_tag_patt, closure_tag_patt, tag_patt,
}
use lama_rv_workshop.Gc.State.{State}
use lama_rv_workshop.Gc.Object.{array_size}
use lama_rv_workshop.Runtime.Build.Laws.{Built}

module _ (s s' : State) (ns : List ℕ) (args n : ℕ)
    (built : Built s ns (array_size n) array_tag n 16 args n s') (small : n < 2 ^ 60)
    (aligned : s.heap.current % 8 ≡ 0) (mapped : s.heap.current + 24 + 8 * n < 2 ^ 63) where
  abbrev contents : ℕ
  contents = s.heap.current + 16

  header_back : header s'.mem contents ≡ s'.mem s.heap.current
  header_back = let e : sub_word contents 16 ≡ s.heap.current = omega arith in ap s'.mem e

  tag_back : tag_at s'.mem contents ≡ array_tag
  tag_back = ap tag_of header_back ∙ built.tagged

  len_back : len_at s'.mem contents ≡ n
  len_back = ap len_of header_back ∙ built.sized

  boxed : is_unboxed contents ≡ false
  boxed = ground arith

  field_back : (i : ℕ) → i < n → elem s'.mem contents (box i) ≡ ok (s.mem (args + 8 * i))
  field_back i h =
      let no_string : (tag_at s'.mem contents == 1) ≡ false = rw tag_back refl in
      let place : (contents + 8 * i) % word_mod ≡ contents + 8 * i = omega arith in
      let scaled : i * 8 % word_mod ≡ 8 * i = omega arith in
      elem-eq-word s'.mem contents i (omega arith) no_string
      ∙ rw (tag_back, scaled, place) (ap ok (built.fields i h))

  -- An array that Barray built below 2 ^ 63 at an aligned address has its length, its elements are
  -- the arguments in order, and it matches the pattern of an array of this length, the pattern of
  -- arrays, and no other pattern of a type.
  pub array_observed :
      (llength s'.mem contents ≡ ok (box n))
      × ((i : ℕ) → i < n → elem s'.mem contents (box i) ≡ ok (s.mem (args + 8 * i)))
      × ((k : ℕ) → k < 2 ^ 60 → array_patt s'.mem contents (box k) ≡ box_bool (n == k))
      × (array_tag_patt s'.mem contents ≡ box 1)
      × (string_tag_patt s'.mem contents ≡ box 0)
      × (sexp_tag_patt s'.mem contents ≡ box 0)
      × (closure_tag_patt s'.mem contents ≡ box 0)
      × ((t k : ℕ) → tag_patt s'.mem contents t k ≡ box 0)
  unfolding llength array_patt array_tag_patt string_tag_patt sexp_tag_patt closure_tag_patt
      tag_patt
  array_observed = (
    rw (boxed, len_back) refl,
    field_back,
    λ k h. (let e : unbox (box k) ≡ k = ground arith in rw (boxed, tag_back, len_back, e) refl),
    rw (boxed, tag_back) refl,
    rw (boxed, tag_back) refl,
    rw (boxed, tag_back) refl,
    rw (boxed, tag_back) refl,
    λ t k. rw (boxed, tag_back) refl,
  )
