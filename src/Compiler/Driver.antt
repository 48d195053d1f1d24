-- ===== src/Compiler/Driver.antt =====
-- The driver of the compiler, `emit` of comp/src/lama_rv.cpp: code is emitted from each address that
-- is still to do, up to a terminator, until nothing is to do.
pub mod Weight
pub mod Rounds
pub mod Loop
pub mod Total
use lama_rv_workshop.Base.{
  ℕ, zero, suc, ◌==◌, if◌then◌else◌, Bool, Option, none, some, List, [], ◌∷◌,
}
use lama_rv_workshop.Base.Outcome.{Outcome, ok, exited, out_of_fuel, ◌>>=◌}
use lama_rv_workshop.Compiler.Asm.{comment, printed, separator}
use lama_rv_workshop.Compiler.Instruction.{Inst, is_terminator, can_print}
use lama_rv_workshop.Compiler.State.{
  Heights, Compiler, emit, add_jump_target, inst_begin, should_emit,
}
use lama_rv_workshop.Compiler.Emit.{emit_code}

-- The `std::map` from addresses to instructions, in the order of the addresses.
abbrev pub Program : Type 0
Program = List (ℕ × Inst)

-- What an iterator from `instructions.find(start)` runs over.
abbrev pub from_offset : ℕ → Program → Program
from_offset start [] = []
from_offset start ((offset, inst) ∷ rest) =
    if offset == start then (offset, inst) ∷ rest else from_offset start rest

-- One of the entries and the others, as the order of the `unordered_map` has it; `n` picks it.
abbrev pub take_nth {ℓ} : {A : Type ℓ} → ℕ → A → List A → A × List A
take_nth n x [] = (x, [])
take_nth zero x (y ∷ ys) = (x, y ∷ ys)
take_nth (suc n) x (y ∷ ys) = let r = take_nth n y ys in (r.0, x ∷ r.1)

module _ (peek_first : Bool) where
  -- One round of the inner loop, without the test at its end. The comment in front of the code holds
  -- the printed instruction; where `print` ends the process, nothing follows.
  unfoldable pub emit_inst : ℕ → Inst → Compiler → Outcome Compiler
  emit_inst offset inst c = do
    c1 ← inst_begin offset c
    if can_print inst
        then emit_code peek_first inst (emit (comment (printed offset) ∷ []) c1)
        else exited

  unfoldable pub emit_block : Program → Compiler → Outcome Compiler
  emit_block [] c = ok c
  emit_block ((offset, inst) ∷ rest) c = do
    c1 ← emit_inst offset inst c
    if is_terminator inst then ok (emit (comment separator ∷ []) c1) else emit_block rest c1

  module _ (program : Program) (pick : Heights → ℕ) where
    -- One round of the outer loop, on the entry that was taken out of `todo`.
    unfoldable pub emit_from : ℕ × ℕ → Heights → Compiler → Outcome Compiler
    emit_from (start, height) others c = do
      let c1 = record c { todo = others; top = height }
      wanted ← should_emit start c1
      if wanted then emit_block (from_offset start program) c1 else ok c1

    unfoldable pub emit_loop : ℕ → Compiler → Outcome Compiler
    emit_loop zero c = out_of_fuel
    emit_loop (suc fuel) c = elim c.todo [
      | [] ↦ ok c
      | entry ∷ others ↦
          let taken = take_nth (pick (entry ∷ others)) entry others in
          (emit_from taken.0 taken.1 c >>= emit_loop fuel)
    ]

-- The loop that makes the public functions jump targets.
unfoldable pub add_publics : List ℕ → Compiler → Outcome Compiler
add_publics [] c = ok c
add_publics (offset ∷ offsets) c = do c1 ← add_jump_target offset 0 c; add_publics offsets c1

-- `emit`, behind the header that it writes. `publics` holds what `get_public_offset` gives.
abbrev pub initial : ℕ → Compiler
initial globals = record {
  current_frame = none;
  top = 0;
  out = [];
  globals_count = globals;
  done = [];
  todo = [];
}

unfoldable pub emit_program : Bool → (Heights → ℕ) → ℕ → Program → List ℕ → ℕ → Outcome Compiler
emit_program peek_first pick fuel [] publics globals = exited
emit_program peek_first pick fuel (entry ∷ program) publics globals = do
  c ← add_publics publics (initial globals)
  emit_loop peek_first (entry ∷ program) pick fuel c
