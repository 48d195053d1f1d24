-- ===== src/Compiler/Binop/Spilled.antt =====
-- The code that comp/ emits for operators on operands that are spilled to memory.
use lama_rv_workshop.Base.{ℕ, suc, ◌≡◌, refl, true, false, arith, some, ap}
use lama_rv_workshop.Base.Int.{ℤ}
use lama_rv_workshop.Base.Word.{add_word}
use lama_rv_workshop.Runtime.Value.{is_unboxed}
use lama_rv_workshop.Gc.State.Laws.{write_self}
use lama_rv_workshop.Compiler.Asm.{IOp, sp}
use lama_rv_workshop.Compiler.Stack.{Loc, reg, memory}
use lama_rv_workshop.Compiler.Buffer.{to_reg, symb_emit_r_type, symb_emit_i_type, slot_offset}
use lama_rv_workshop.Compiler.Machine.{Cpu, run, step, alu, alu_imm, address}
use lama_rv_workshop.Compiler.Binop.{BinopKind, binop_code, emit_op}
use lama_rv_workshop.Compiler.Binop.Laws.{observe}

-- An instruction with an immediate operand whose destination is spilled leaves the memory as it
-- was: its result is lost.
pub spilled_immediate :
    (op : IOp) (k : ℕ) (src : Loc) (imm : ℤ) (c : Cpu)
    → observe (λ c'. c'.mem) (run (symb_emit_i_type op (memory k) src imm) c) ≡ some c.mem
unfolding run step symb_emit_i_type to_reg
spilled_immediate op k (reg r) imm c = refl
spilled_immediate op k (memory j) imm c = refl

-- The address of a spilled place.
abbrev pub place : Cpu → ℕ → ℕ
place c k = address c sp (slot_offset k)

sum_of_odd :
    (a b : ℕ) → is_unboxed a ≡ true → is_unboxed b ≡ true → is_unboxed (add_word a b) ≡ false
sum_of_odd a b ha hb = ground arith

-- The code emitted for an addition of two unboxed words in neighbouring spilled places leaves an
-- even word in the first of them, which is no integer.
pub spilled_add :
    (k : ℕ) (c : Cpu)
    → is_unboxed (c.mem (place c k)) ≡ true
    → is_unboxed (c.mem (place c (suc k))) ≡ true
    → (w : ℕ) × (observe
          (λ c'. c'.mem (place c k))
          (run (binop_code BinopKind.add (memory k) (memory (suc k)) (memory k)) c)
        ≡ some w)
      × (is_unboxed w ≡ false)
unfolding run step alu alu_imm binop_code emit_op symb_emit_r_type symb_emit_i_type to_reg
spilled_add k c first second = (
  add_word (c.mem (place c k)) (c.mem (place c (suc k))),
  ap some (write_self c.mem (place c k) (add_word (c.mem (place c k)) (c.mem (place c (suc k))))),
  sum_of_odd _ _ first second,
)
