-- ===== src/Gc/Roots/Laws.antt =====
-- The extra roots behave as a stack.
use lama_rv_workshop.Base.{ℕ, ◌≤◌, ◌<◌, ◌≡◌, true, arith, ◌||◌, ltb, leb, ◌∷◌, length}
use lama_rv_workshop.Base.Outcome.{ok, exited}
use lama_rv_workshop.Gc.State.{State}
use lama_rv_workshop.Gc.Roots.{push_extra_root, pop_extra_root}

-- A root popped right after it was pushed leaves the stack of roots as it was.
pub pop-push :
    (p : ℕ) (s : State) {s' : State} → push_extra_root p s ≡ ok s' → pop_extra_root p s' ≡ ok s
unfolding push_extra_root pop_extra_root
pop-push p s h = ground arith

-- An address that `push_extra_root` accepts.
abbrev pub Accepted : State → ℕ → Type 0
Accepted s p = (leb s.stack_top p || ltb p s.stack_bottom) ≡ true

pub push_fails : (p : ℕ) (s : State) → 32 ≤ length s.roots → push_extra_root p s ≡ exited
unfolding push_extra_root
push_fails p s h = ground arith

pub push_succeeds :
    (p : ℕ) (s : State)
    → length s.roots < 32
    → Accepted s p
    → push_extra_root p s ≡ ok (record s { roots = p ∷ s.roots })
unfolding push_extra_root
push_succeeds p s h a = ground arith
