-- ===== src/Tests/Objects.antt =====
-- Objects that runtime/runtime.c builds and reads, on the small heap.
use lama_rv_workshop.Base.{
  ℕ, ◌+◌, ◌*◌, ◌^◌, ◌<◌, ◌≡◌, ◌≢◌, refl, arith, ◌==◌, ◌&&◌, [], ◌∷◌, none, inr,
}
use lama_rv_workshop.Base.Outcome.{ok, exited}
use lama_rv_workshop.Runtime.Value.{box, array_tag, sexp_tag, closure_tag}
use lama_rv_workshop.Runtime.Infix.{box_bool}
use lama_rv_workshop.Runtime.Access.{elem, sta, llength, slot, tag_at}
use lama_rv_workshop.Runtime.Access.Laws.{InMapping, elem-sta}
use lama_rv_workshop.Runtime.Pattern.{
  array_patt, array_tag_patt, string_tag_patt, sexp_tag_patt, closure_tag_patt, tag_patt,
}
use lama_rv_workshop.Runtime.Build.{barray, bsexp, bclosure}
use lama_rv_workshop.Runtime.Build.Roots.{Ready}
use lama_rv_workshop.Runtime.Build.Laws.{Built, barray-Built, barray-exited}
use lama_rv_workshop.Runtime.Build.Observed.{array_observed}
use lama_rv_workshop.Runtime.Build.Sexp.{bsexp-Built}
use lama_rv_workshop.Runtime.Build.Closure.{bclosure-Built}
use lama_rv_workshop.Runtime.Build.{make_array}
use lama_rv_workshop.Runtime.Build.Zeros.{Zeroed, make_array-Zeroed}
use lama_rv_workshop.Runtime.Build.Matched.{sexp_observed}
use lama_rv_workshop.Gc.State.{Mem, State}
use lama_rv_workshop.Gc.Object.{array_size, sexp_size, closure_size}
use lama_rv_workshop.Tests.Collector.{small_mem, small_state, small-Layout}

-- A call whose frame is at the stack's top, with its arguments at 8192.
small-Ready : Ready 16384 small_state
small-Ready = record {
  set = omega arith;
  aligned = refl;
  above = omega arith;
  bottom = omega arith;
}

barray-Built_example :
    (s' : State) × (barray 16384 none 8192 (box 2) small_state ≡ ok (s', 4160))
    × Built small_state (24 ∷ 20 ∷ []) (array_size 2) array_tag 2 16 8192 2 s'
barray-Built_example =
    barray-Built 16384 none 8192 2 small_state (24 ∷ 20 ∷ []) small-Ready small-Layout (omega arith)
      (omega arith) (omega arith) (inr (omega arith)) (inr (omega arith))

barray-exited_example : barray 16384 none 8192 (box 33) small_state ≡ exited
barray-exited_example =
    barray-exited 16384 none 8192 33 small_state small-Ready (omega arith) (omega arith)
      (omega arith)

-- The state after `Barray` on two arguments.
made :
    (s' : State) × (barray 16384 none 8192 (box 2) small_state ≡ ok (s', 4160))
    × Built small_state (24 ∷ 20 ∷ []) (array_size 2) array_tag 2 16 8192 2 s'
made =
    barray-Built 16384 none 8192 2 small_state (24 ∷ 20 ∷ []) small-Ready small-Layout (omega arith)
      (omega arith) (omega arith) (inr (omega arith)) (inr (omega arith))

array_observed_example :
    (llength (made.0).mem 4160 ≡ ok (box 2))
    × ((i : ℕ) → i < 2 → elem (made.0).mem 4160 (box i) ≡ ok (small_mem (8192 + 8 * i)))
    × ((k : ℕ) → k < 2 ^ 60 → array_patt (made.0).mem 4160 (box k) ≡ box_bool (2 == k))
    × (array_tag_patt (made.0).mem 4160 ≡ box 1)
    × (string_tag_patt (made.0).mem 4160 ≡ box 0)
    × (sexp_tag_patt (made.0).mem 4160 ≡ box 0)
    × (closure_tag_patt (made.0).mem 4160 ≡ box 0)
    × ((t k : ℕ) → tag_patt (made.0).mem 4160 t k ≡ box 0)
array_observed_example =
    array_observed small_state (made.0) (24 ∷ 20 ∷ []) 8192 2 (made.2) (omega arith) refl
      (omega arith)

elem-sta_example :
    (m' : Mem) × (sta small_mem 4112 (box 0) 9 ≡ ok (m', 9))
    × (elem m' 4112 (box 0) ≡ ok 9)
    × ((j : ℕ) → InMapping 4112 j → j ≢ 0 → elem m' 4112 (box j) ≡ elem small_mem 4112 (box j))
    × ((b : ℕ) → b ≢ slot (tag_at small_mem 4112) 4112 0 → m' b ≡ small_mem b)
elem-sta_example = elem-sta small_mem 4112 0 9 (omega arith, refl, omega arith) refl

bsexp-Built_example :
    (s' : State) × (bsexp 16384 none 8192 (box 2) small_state ≡ ok (s', 4160))
    × Built small_state (24 ∷ 20 ∷ []) (sexp_size 1) sexp_tag 1 24 8192 1 s'
    × (s'.mem 4160 ≡ 21)
bsexp-Built_example =
    bsexp-Built 16384 none 8192 1 small_state (24 ∷ 20 ∷ []) small-Ready small-Layout (omega arith)
      (omega arith) (omega arith) (inr (omega arith))

-- The state after `Bsexp` on one field and a tag.
named :
    (s' : State) × (bsexp 16384 none 8192 (box 2) small_state ≡ ok (s', 4160))
    × Built small_state (24 ∷ 20 ∷ []) (sexp_size 1) sexp_tag 1 24 8192 1 s'
    × (s'.mem 4160 ≡ 21)
named =
    bsexp-Built 16384 none 8192 1 small_state (24 ∷ 20 ∷ []) small-Ready small-Layout (omega arith)
      (omega arith) (omega arith) (inr (omega arith))

sexp_observed_example :
    (llength (named.0).mem 4160 ≡ ok (box 1))
    × ((i : ℕ) → i < 1 → elem (named.0).mem 4160 (box i) ≡ ok (small_mem (8192 + 8 * i)))
    × ((t k : ℕ)
        → t < 2 ^ 60
        → k < 2 ^ 60
        → tag_patt (named.0).mem 4160 (box t) (box k) ≡ box_bool (21 == t && 1 == k))
    × (sexp_tag_patt (named.0).mem 4160 ≡ box 1)
    × (array_tag_patt (named.0).mem 4160 ≡ box 0)
    × (string_tag_patt (named.0).mem 4160 ≡ box 0)
    × (closure_tag_patt (named.0).mem 4160 ≡ box 0)
    × ((k : ℕ) → array_patt (named.0).mem 4160 k ≡ box 0)
sexp_observed_example =
    sexp_observed small_state (named.0) (24 ∷ 20 ∷ []) 8192 1 (named.2) (omega arith) refl
      (omega arith) 21 (named.3)

bclosure-Built_example :
    (s' : State) × (bclosure 16384 none 8192 (box 1) small_state ≡ ok (s', 4160))
    × Built small_state (24 ∷ 20 ∷ []) (closure_size 2) closure_tag 2 16 8192 2 s'
bclosure-Built_example =
    bclosure-Built 16384 none 8192 1 small_state (24 ∷ 20 ∷ []) small-Ready small-Layout
      (omega arith) (omega arith) (omega arith) (inr (omega arith))

make_array-Zeroed_example :
    (s' : State) × (make_array 16384 none (box 3) small_state ≡ ok (s', 4160))
    × Zeroed small_state (24 ∷ 20 ∷ []) 3 s'
make_array-Zeroed_example =
    make_array-Zeroed 16384 none 3 small_state (24 ∷ 20 ∷ []) small-Ready small-Layout (omega arith)
      (omega arith)
