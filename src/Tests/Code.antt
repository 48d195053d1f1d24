-- ===== src/Tests/Code.antt =====
-- Code that comp/ emits, on registers 9 and 18.
use lama_rv_workshop.Base.{◌+◌, ◌≡◌, refl, arith, ◌==◌, false, if◌then◌else◌, some, ℕ}
use lama_rv_workshop.Compiler.Stack.{reg}
use lama_rv_workshop.Compiler.Stack.Laws.{loc_at-injective}
use lama_rv_workshop.Compiler.Machine.{Cpu, run}
use lama_rv_workshop.Compiler.Binop.{BinopKind, binop_code}
use lama_rv_workshop.Compiler.Binop.Laws.{observe}
use lama_rv_workshop.Base.Int.{◌+ℤ◌}
use lama_rv_workshop.Runtime.Value.{is_unboxed}
use lama_rv_workshop.Compiler.Stack.{memory}
use lama_rv_workshop.Compiler.Binop.Spilled.{spilled_add}
use lama_rv_workshop.Compiler.Binop.Agrees.{runtime_operator, as_outcome, compiled_operator}

-- 7 and 3, boxed.
abbrev cpu : Cpu
cpu = record { regs = λ r. if r == 9 then 15 else (if r == 18 then 7 else 0); mem = λ b. 0 }

compiled_operator_example :
    as_outcome
      (observe (λ c. c.regs 9) (run (binop_code BinopKind.div (reg 9) (reg 18) (reg 9)) cpu))
    ≡ runtime_operator BinopKind.div 15 7
compiled_operator_example =
    compiled_operator BinopKind.div 9 18 cpu refl refl refl refl (omega arith) (omega arith) refl
      refl refl

loc_at-injective_example : 16 ≡ 15 + 1
loc_at-injective_example = loc_at-injective 16 (15 + 1) refl

-- 7 and 3, boxed, in the first two places of the memory.
abbrev spilled_cpu : Cpu
spilled_cpu = record {
  regs = λ r. if r == 2 then 4096 else 0;
  mem = λ b. if b == 4096 then 15 else (if b == 4088 then 7 else 0);
}

spilled_add_example :
    (w : ℕ) × (observe
        (λ c. c.mem 4096)
        (run (binop_code BinopKind.add (memory 0) (memory 1) (memory 0)) spilled_cpu)
      ≡ some w)
    × (is_unboxed w ≡ false)
unfolding ◌+ℤ◌
spilled_add_example = spilled_add 0 spilled_cpu refl refl
