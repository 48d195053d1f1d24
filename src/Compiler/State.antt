-- ===== src/Compiler/State.antt =====
-- The state of the compiler, `rv::Compiler` of comp/include/compiler.h, and its jump targets. A
-- DCHECK that fails ends the process.
use lama_rv_workshop.Base.{
  ℕ, ◌==◌, if◌then◌else◌, Bool, true, false, Option, none, some, List, [], ◌∷◌, ◌++◌,
}
use lama_rv_workshop.Base.Outcome.{Outcome, ok, exited}
use lama_rv_workshop.Compiler.Asm.{Asm, Label, label, comment, expecting, label_again}
use lama_rv_workshop.Compiler.Stack.{Stack}

-- `FrameInfo`, with the function's name as the label that it is.
pub record FrameInfo : Type 0 where
  pub function_name : Label
  pub locals_count : ℕ
  pub args_count : ℕ

-- An `unordered_map` from addresses of instructions to heights of the symbolic stack.
abbrev pub Heights : Type 0
Heights = List (ℕ × ℕ)

abbrev pub find : ℕ → Heights → Option ℕ
find k [] = none
find k ((a, h) ∷ m) = if a == k then some h else find k m

-- `out` is what was written, line by line; `top` is that of `st`.
pub record Compiler : Type 0 where
  pub current_frame : Option FrameInfo
  pub top : Stack
  pub out : List Asm
  pub globals_count : ℕ
  pub done : Heights
  pub todo : Heights

abbrev pub emit : List Asm → Compiler → Compiler
emit lines c = record c { out = c.out ++ lines }

-- `DCHECK_EQ`
abbrev pub check_eq : ℕ → ℕ → Compiler → Outcome Compiler
check_eq a b c = if a == b then ok c else exited

-- `todo.emplace`, which keeps an entry that is there, and the DCHECK behind it.
unfoldable pub emplace_todo : ℕ → ℕ → Compiler → Outcome Compiler
emplace_todo offset height c = elim (find offset c.todo) [
  | none ↦ ok (record c { todo = (offset, height) ∷ c.todo })
  | some h ↦ check_eq h height c
]

unfoldable pub add_jump_target : ℕ → ℕ → Compiler → Outcome Compiler
unfolding emplace_todo
add_jump_target offset height c = elim (find offset c.done) [
  | none ↦ emplace_todo offset height (emit (comment (expecting height offset) ∷ []) c)
  | some h ↦ check_eq h height c
]

unfoldable pub inst_begin : ℕ → Compiler → Outcome Compiler
inst_begin offset c = elim (find offset c.done) [
  | none ↦ ok (emit (label (Label.ip offset) ∷ []) (record c { done = (offset, c.top) ∷ c.done }))
  | some h ↦
      if h == c.top then ok (emit (comment (label_again (Label.ip offset)) ∷ []) c) else exited
]

unfoldable pub should_emit : ℕ → Compiler → Outcome Bool
should_emit offset c = elim (find offset c.done) [
  | none ↦ ok true
  | some h ↦ if h == c.top then ok false else exited
]
