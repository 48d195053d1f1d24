-- ===== src/Runtime/Build/Roots.antt =====
-- Arguments as extra roots: the loops around an allocation.
use mathlib.Core.List.{reverse_aux}
use native.Mathlib.Decide.{dec_lt}
use lama_rv_workshop.Base.{
  ℕ, zero, suc, ◌+◌, ◌%◌, ◌≤◌, ◌<◌, ◌≡◌, refl, ◌≢◌, arith, ◌==◌, List, [], ◌∷◌, length,
  if◌then◌else◌, ==_refl, All, ap,
}
use lama_rv_workshop.Base.Outcome.{ok, exited, >>=-eq-ok}
use lama_rv_workshop.Gc.State.{State}
use lama_rv_workshop.Gc.Roots.{push_extra_root, pop_extra_root}
use lama_rv_workshop.Gc.Roots.Laws.{Accepted, pop-push, push_fails, push_succeeds}
use lama_rv_workshop.Runtime.Build.{pre_gc, post_gc, push_all, pop_all, addresses}

-- Dropping in the reverse order the arguments that were registered gives the stack of extra roots
-- back.
pop_all-push_all :
    (ps : List ℕ) (s : State) {s' : State} → push_all ps s ≡ ok s' → pop_all ps s' ≡ ok s
unfolding push_all pop_all
pop_all-push_all [] s h = ground arith
pop_all-push_all (p ∷ ps) s {s'} h =
    let r = >>=-eq-ok (push_extra_root p s) (push_all ps) h in
    rw (pop_all-push_all ps r.0 r.2) (pop-push p s r.1)

-- Registering accepted addresses succeeds while there are at most 32 roots, with the addresses on
-- top, the last one first.
pub push_all-ok :
    (ps : List ℕ) (s : State)
    → length s.roots + length ps ≤ 32
    → All (Accepted s) ps
    → push_all ps s ≡ ok (record s { roots = reverse_aux ps s.roots })
unfolding push_all
push_all-ok [] s h a = refl
push_all-ok (p ∷ ps) s h a =
    rw (push_succeeds p s (omega arith) a.0)
      (push_all-ok ps (record s { roots = p ∷ s.roots }) (omega arith) a.1)

-- With more than 32 roots the process exits.
pub push_all-exited :
    (ps : List ℕ) (s : State)
    → 32 < length s.roots + length ps
    → length s.roots ≤ 32
    → All (Accepted s) ps
    → push_all ps s ≡ exited
unfolding push_all
push_all-exited [] s h k a = absurd (omega arith)
push_all-exited (p ∷ ps) s h k a = elim (dec_lt (length s.roots) 32) [
  | yes room ↦
      rw (push_succeeds p s room a.0)
        (push_all-exited ps (record s { roots = p ∷ s.roots }) (omega arith) (omega arith) a.1)
  | no full ↦ rw (push_fails p s (omega arith)) refl
]

length-addresses : (args n : ℕ) → length (addresses args n) ≡ n
length-addresses args zero = refl
length-addresses args (suc n) = ap suc (length-addresses (args + 8) n)

-- Where the stack's top does not lie above its bottom, the assertion of `push_extra_root` holds of
-- every address.
addresses-Accepted :
    (s : State) (args n : ℕ) → s.stack_top ≤ s.stack_bottom → All (Accepted s) (addresses args n)
addresses-Accepted s args zero h = tt
addresses-Accepted s args (suc n) h = (ground arith, addresses-Accepted s (args + 8) n h)

pub pop_all-ok :
    (ps rs : List ℕ) (s : State)
    → s.roots ≡ reverse_aux ps rs
    → pop_all ps s ≡ ok (record s { roots = rs })
unfolding pop_all pop_extra_root
pop_all-ok [] rs s h = rw (← h) refl
pop_all-ok (p ∷ ps) rs s h = rw (pop_all-ok ps (p ∷ rs) s h, ==_refl p) refl

-- The stack's top during a call with this frame.
abbrev pub top_of : ℕ → State → ℕ
top_of frame s = if s.stack_top == 0 then frame else s.stack_top

-- The assertions of `PRE_GC` hold, and the stack's bottom lies above.
pub record Ready (frame : ℕ) (s : State) : Type 0 where
  pub set : top_of frame s ≢ 0
  pub aligned : top_of frame s % 16 ≡ 0
  pub above : frame ≤ top_of frame s
  pub bottom : top_of frame s ≤ s.stack_bottom

abbrev pub entered : ℕ → State → State
entered frame s = record s { stack_top = top_of frame s }

pub pre_gc-ok :
    (frame : ℕ) (s : State)
    → Ready frame s
    → pre_gc frame s ≡ ok (entered frame s, s.stack_top == 0)
unfolding pre_gc
pre_gc-ok frame s r = ground arith

-- `POST_GC` undoes what `PRE_GC` did to the stack's top.
pub post_gc-ok :
    (frame : ℕ) (s s' : State)
    → Ready frame s
    → s'.stack_top ≡ top_of frame s
    → post_gc frame (s.stack_top == 0) s' ≡ ok (record s' { stack_top = s.stack_top })
unfolding post_gc
post_gc-ok frame s s' r h = ground arith

-- Registering the arguments of a call.
pub push_addresses :
    (s : State) (args n : ℕ)
    → s.stack_top ≤ s.stack_bottom
    → length s.roots + n ≤ 32
    → push_all (addresses args n) s
      ≡ ok (record s { roots = reverse_aux (addresses args n) s.roots })
push_addresses s args n h k =
    push_all-ok (addresses args n) s (omega (arith, length-addresses args n))
      (addresses-Accepted s args n h)

-- More than 32 arguments end the process.
pub push_addresses-exited :
    (s : State) (args n : ℕ)
    → s.stack_top ≤ s.stack_bottom
    → length s.roots ≤ 32
    → 32 < length s.roots + n
    → push_all (addresses args n) s ≡ exited
push_addresses-exited s args n h k more =
    push_all-exited (addresses args n) s (omega (arith, length-addresses args n)) k
      (addresses-Accepted s args n h)
