-- ===== src/Compiler/Stack.antt =====
-- The symbolic stack, comp/include/symb_stack.h: where the values of the Lama stack are while the
-- code runs. The first fifteen are in registers, the others in memory.
pub mod Laws
use lama_rv_workshop.Base.{
  ℕ, zero, suc, ◌+◌, ◌-◌, Bool, ltb, leb, if◌then◌else◌, List, [], ◌∷◌, get_or, length,
}
use lama_rv_workshop.Base.Outcome.{Outcome, ok, exited}

pub data Loc : Type 0 where
  reg : ℕ → Loc
  memory : ℕ → Loc

abbrev pub regs : List ℕ
regs = 9 ∷ 18 ∷ 19 ∷ 20 ∷ 21 ∷ 22 ∷ 23 ∷ 24 ∷ 25 ∷ 26 ∷ 27 ∷ 6 ∷ 7 ∷ 28 ∷ 29 ∷ []

-- The state is `top`, which the DCHECKs keep from falling below 0.
abbrev pub Stack : Type 0
Stack = ℕ

-- What each of the operations computes from the position of the value.
abbrev pub loc_at : ℕ → Loc
loc_at k = if leb (length regs) k then memory (k - length regs) else reg (get_or regs k 0)

unfoldable pub alloc : Stack → Loc × Stack
alloc top = (loc_at top, top + 1)

unfoldable pub push : Loc → Stack → Stack
push loc top = top + 1

unfoldable pub spilled_count : Stack → ℕ
spilled_count top = if ltb (length regs) top then top - length regs else 0

unfoldable pub peek : Stack → Outcome Loc
peek zero = exited
peek (suc top) = ok (loc_at top)

unfoldable pub pop : Stack → Outcome (Loc × Stack)
pop zero = exited
pop (suc top) = ok (loc_at top, top)
