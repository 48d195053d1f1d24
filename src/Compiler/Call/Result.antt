-- ===== src/Compiler/Call/Result.antt =====
-- What becomes of a call's result: `compile_call` of comp/include/compiler.h.
use lama_rv_workshop.Base.{ℕ, Option, List, [], ◌∷◌, ◌++◌}
use lama_rv_workshop.Compiler.Asm.{Register}
use lama_rv_workshop.Compiler.Stack.{reg}
use lama_rv_workshop.Compiler.Buffer.{symb_emit_mv_from}
use lama_rv_workshop.Compiler.Machine.{Cpu, write_reg, run}
use lama_rv_workshop.Compiler.Binop.Laws.{observe}
use lama_rv_workshop.Compiler.Call.{call_epilogue}

-- The registers of the symbolic stack: the saved ones and the temporary ones.
abbrev pub saved_places : List Register
saved_places = 9 ∷ 18 ∷ 19 ∷ 20 ∷ 21 ∷ 22 ∷ 23 ∷ 24 ∷ 25 ∷ 26 ∷ 27 ∷ []

abbrev pub temporary_places : List Register
temporary_places = 6 ∷ 7 ∷ 28 ∷ 29 ∷ []

-- What the place `r` holds behind a call that returned `v`.
abbrev pub result_in : Register → ℕ → Cpu → ℕ → Option ℕ
result_in r spilled c v =
    observe (λ c'. c'.regs r)
      (run (symb_emit_mv_from (reg r) 10 ++ call_epilogue spilled) (write_reg c 10 v))
