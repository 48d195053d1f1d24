-- ===== src/Compiler/Stack/Laws.antt =====
-- The symbolic stack is a stack of distinct places.
use native.Mathlib.Decide.{dec_lt}
use lama_rv_workshop.Base.{
  ℕ, zero, suc, ◌<◌, ◌≡◌, refl, Bool, true, not, arith, ◌==◌, leb, get_or, ◌||◌, ◌&&◌,
}
use lama_rv_workshop.Base.Outcome.{ok}
use lama_rv_workshop.Compiler.Stack.{regs, Stack, loc_at, alloc, pop, peek}

-- pop and peek find the place that alloc has given, and pop gives the symbolic stack back.
pop-alloc :
    (s : Stack) → (pop (alloc s).1 ≡ ok ((alloc s).0, s)) × (peek (alloc s).1 ≡ ok ((alloc s).0))
unfolding pop peek alloc
pop-alloc s = (ground arith, ground arith)

-- Every pair of positions below the bounds passes the test.
abbrev row_test : (ℕ → ℕ → Bool) → ℕ → ℕ → Bool
row_test p i zero = true
row_test p i (suc j) = p i j && row_test p i j

abbrev pair_test : (ℕ → ℕ → Bool) → ℕ → ℕ → Bool
pair_test p zero j = true
pair_test p (suc i) j = row_test p i j && pair_test p i j

row_test_sound : (p : ℕ → ℕ → Bool) (i n j : ℕ) → row_test p i n ≡ true → j < n → p i j ≡ true
row_test_sound p i zero j h k = absurd (omega arith)
row_test_sound p i (suc n) j h k = ground (arith, row_test_sound p i n j)

pair_test_sound :
    (p : ℕ → ℕ → Bool) (m n i j : ℕ) → pair_test p m n ≡ true → i < m → j < n → p i j ≡ true
pair_test_sound p zero n i j h k l = absurd (omega arith)
pair_test_sound p (suc m) n i j h k l =
    ground (arith, row_test_sound p m n j, pair_test_sound p m n i j)

-- The registers are pairwise different, and none of them has a use of its own in the code that is
-- emitted: not zero, ra, sp, gp, fp, the arguments, temp1 or temp2.
distinct_test : ℕ → ℕ → Bool
distinct_test i j = not (get_or regs i 0 == get_or regs j 0) || i == j

free_test : ℕ → ℕ → Bool
free_test i r =
    not (get_or regs i 0 == r)
    || not (leb r 2 || r == 5 || r == 8 || (leb 10 r && leb r 17) || leb 30 r)

all_distinct : pair_test distinct_test 15 15 ≡ true
unfolding distinct_test
all_distinct = refl

all_free : pair_test free_test 15 32 ≡ true
unfolding free_test
all_free = refl

pub get_or-regs-injective : (i j : ℕ) → i < 15 → j < 15 → get_or regs i 0 ≡ get_or regs j 0 → i ≡ j
unfolding distinct_test
get_or-regs-injective i j hi hj e =
    ground (arith, pair_test_sound distinct_test 15 15 i j all_distinct hi hj)

-- Different positions of the symbolic stack are in different places.
pub loc_at-injective : (i j : Stack) → loc_at i ≡ loc_at j → i ≡ j
loc_at-injective i j h = elim (dec_lt i 15) [
  | yes p ↦ elim (dec_lt j 15) [
    | yes q ↦ get_or-regs-injective i j p q (ground arith)
    | no q ↦ ground arith
  ]
  | no p ↦ elim (dec_lt j 15) [ yes q ↦ ground arith | no q ↦ ground arith ]
]
