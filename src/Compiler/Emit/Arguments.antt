-- ===== src/Compiler/Emit/Arguments.antt =====
-- Loads and stores of arguments: `Load::emit_code` and `Store::emit_code` of comp/src/emit.cpp.
use lama_rv_workshop.Base.{ℕ, ◌+◌, ◌%◌, ◌<◌, ◌≡◌, refl, true, some, arith, lt→ltb, ltb, List}
use lama_rv_workshop.Base.Int.{pos}
use lama_rv_workshop.Base.Word.{word_mod}
use lama_rv_workshop.Base.Outcome.{ok}
use lama_rv_workshop.Compiler.Asm.{Asm}
use lama_rv_workshop.Compiler.Stack.{Loc, reg}
use lama_rv_workshop.Compiler.Buffer.{to_reg, symb_emit_mv_from}
use lama_rv_workshop.Compiler.Machine.{Cpu, read, write_reg, step, run}
use lama_rv_workshop.Compiler.Emit.{load_arg, store_arg, below_eight}

small_index : (i : ℕ) → i < 8 → i % word_mod ≡ i
small_index i small = omega (arith, small)

-- The code that stores a value to one of the first eight arguments is the code that loads the
-- argument: where the value is in a register it overwrites the value with the argument and changes
-- nothing else.
pub store_arg_lost :
    (i : ℕ) (value : Loc) (r : ℕ) (c : Cpu)
    → i < 8
    → (store_arg (pos i) value ≡ load_arg (pos i) value)
      × (lines : List Asm) × (store_arg (pos i) (reg r) ≡ ok lines)
      × (run lines c ≡ some (write_reg c r (read c (10 + i))))
unfolding load_arg store_arg run step symb_emit_mv_from to_reg
store_arg_lost i value r c small = (
  rw below refl,
  symb_emit_mv_from (reg r) (10 + i),
  rw (below, small_index i small, register) refl,
  refl,
)
  where
    below : below_eight (pos i) ≡ true
    below = lt→ltb (i + 0) 8 (omega (arith, small))

    register : ltb i 8 ≡ true
    register = lt→ltb i 8 small
