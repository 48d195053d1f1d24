-- ===== src/Gc/Roots.antt =====
-- The extra roots: a stack of at most 32 addresses of variables.
pub mod Laws
use lama_rv_workshop.Base.{ℕ, Bool, ◌||◌, ◌==◌, ltb, leb, if◌then◌else◌, List, [], ◌∷◌, length}
use lama_rv_workshop.Base.Outcome.{Outcome, ok, exited}
use lama_rv_workshop.Gc.State.{State}

abbrev pub max_extra_roots_number : ℕ
max_extra_roots_number = 32

unfoldable pub clear_extra_roots : State → State
clear_extra_roots s = record s { roots = [] }

-- Overflow and a failed assertion both end the process.
unfoldable pub push_extra_root : ℕ → State → Outcome State
push_extra_root p s =
    if leb max_extra_roots_number (length s.roots)
    then exited
    else if leb s.stack_top p || ltb p s.stack_bottom
    then ok (record s { roots = p ∷ s.roots })
    else exited

-- The argument must be the root that was pushed last.
pop_from : ℕ → State → List ℕ → Outcome State
pop_from p s [] = exited
pop_from p s (r ∷ rs) = if r == p then ok (record s { roots = rs }) else exited

unfoldable pub pop_extra_root : ℕ → State → Outcome State
unfolding pop_from
pop_extra_root p s = pop_from p s s.roots
