-- ===== src/Compiler/Call.antt =====
-- `compile_call` of comp/include/compiler.h. Offsets are written without wrap-around.
pub mod Moves
pub mod Balance
pub mod Result
use lama_rv_workshop.Base.{
  ℕ, zero, suc, ◌+◌, ◌-◌, ◌*◌, ◌%◌, ◌==◌, ltb, leb, if◌then◌else◌, Bool, Option, none, some, List,
  [], ◌∷◌, ◌++◌,
}
use Prim.Native.Nat.{min}
use lama_rv_workshop.Base.Int.{ℤ, pos, sub_ℕ}
use lama_rv_workshop.Base.Word.{word_mod}
use lama_rv_workshop.Base.Outcome.{Outcome, ok, fault, ◌>>=◌}
use lama_rv_workshop.Compiler.Asm.{
  Register, sp, ra, temp1, word_size, temp_regs, arg_regs, addi, Asm, i_type, ld, sd, li, call,
  Label,
}
use lama_rv_workshop.Compiler.Stack.{Loc, Stack, alloc, pop, spilled_count}
use lama_rv_workshop.Compiler.Buffer.{slot_offset, to_reg, symb_emit_mv_to, symb_emit_mv_from}
use lama_rv_workshop.Compiler.State.{FrameInfo, Compiler, emit, add_jump_target}

-- `emit_addi(sp, sp, n)` for a number of words, up or down.
abbrev pub raise_sp : ℕ → Asm
raise_sp words = i_type addi sp sp (pos (words * word_size))

abbrev pub lower_sp : ℕ → Asm
lower_sp words = i_type addi sp sp (slot_offset words)

-- The pair that pushes a register.
abbrev pub push_reg : Register → List Asm
push_reg r = sd r sp (slot_offset 1) ∷ lower_sp 1 ∷ []

abbrev pub push_regs : List Register → List Asm
push_regs [] = []
push_regs (r ∷ rs) = push_reg r ++ push_regs rs

-- The loop over the arguments that go to registers: `i` runs down to `lowest`.
unfoldable pub load_args : ℕ → ℕ → Compiler → Outcome Compiler
load_args lowest zero c = ok c
load_args lowest (suc n) c = do
  (loc, top) ← pop c.top
  load_args lowest n (emit (symb_emit_mv_to (10 + (lowest + n)) loc) (record c { top = top }))

-- The code for one argument that goes to the stack.
abbrev pub push_loc : Loc → List Asm
push_loc loc = let (load, r) = to_reg loc temp1 in load ++ push_reg r

unfoldable pub push_args : ℕ → Compiler → Outcome Compiler
push_args zero c = ok c
push_args (suc n) c = do
  (loc, top) ← pop c.top
  push_args n (emit (push_loc loc) (record c { top = top }))

-- `emit_call`: an address is made a jump target first.
unfoldable pub emit_call : Label → Compiler → Outcome Compiler
emit_call (Label.ip offset) c = do
  c1 ← add_jump_target offset 0 c
  ok (emit (call (Label.ip offset) ∷ []) c1)
emit_call callee c = ok (emit (call callee ∷ []) c)

-- a7 down to a0.
abbrev pub pop_args : List Asm
pop_args =
    ld 17 sp (pos 0)
    ∷ raise_sp 1
    ∷ ld 16 sp (pos 0)
    ∷ raise_sp 1
    ∷ ld 15 sp (pos 0)
    ∷ raise_sp 1
    ∷ ld 14 sp (pos 0)
    ∷ raise_sp 1
    ∷ ld 13 sp (pos 0)
    ∷ raise_sp 1
    ∷ ld 12 sp (pos 0)
    ∷ raise_sp 1
    ∷ ld 11 sp (pos 0)
    ∷ raise_sp 1
    ∷ ld 10 sp (pos 0)
    ∷ raise_sp 1
    ∷ []

abbrev pub load_temps : ℕ → List Register → List Asm
load_temps i [] = []
load_temps i (r ∷ rs) = ld r sp (slot_offset (i + 1)) ∷ load_temps (i + 1) rs

abbrev pub optional : Bool → Asm → List Asm
optional b a = if b then a ∷ [] else []

-- What stands before the arguments are placed.
abbrev pub call_prologue : ℕ → List Asm
call_prologue spilled =
    lower_sp spilled
    ∷ sd ra sp (slot_offset 1)
    ∷ lower_sp 1
    ∷ (push_regs temp_regs ++ push_regs arg_regs)

-- What stands behind the place of the result, with the number of spilled places then.
abbrev pub call_epilogue : ℕ → List Asm
call_epilogue spilled =
    pop_args
    ++ (raise_sp 8 ∷ (load_temps 1 temp_regs ++ (ld ra sp (slot_offset 1) ∷ raise_sp spilled ∷ [])))

-- The arguments in `opt_arg` and on the stack: what `argc` counts.
abbrev pub add_arg : Option ℤ → ℕ
add_arg none = 0
add_arg (some v) = 1

abbrev pub load_opt_arg : Option ℤ → List Asm
load_opt_arg none = []
load_opt_arg (some v) = li 10 v ∷ []

-- `compile_call`, given the frame; `argc` counts the additional argument.
unfoldable pub compile_call_in : FrameInfo → Label → ℕ → Option ℤ → Compiler → Outcome Compiler
compile_call_in frame callee argc opt_arg c = do
  let alignment = (frame.locals_count + spilled_count c.top + (argc - 8)) % 2 == 1
  let lowest = add_arg opt_arg
  let c1 = emit (call_prologue (spilled_count c.top) ++ load_opt_arg opt_arg) c
  c2 ← load_args lowest (min argc 8 - lowest) c1
  c3 ← push_args (argc - 8) (emit (optional alignment (lower_sp 1)) c2)
  c4 ← emit_call callee c3
  let (result, top) = alloc c4.top
  let lines =
      optional (ltb 8 argc) (raise_sp (argc - 8))
      ++ (optional alignment (raise_sp 1)
          ++ (symb_emit_mv_from result 10 ++ call_epilogue (spilled_count top)))
  ok (emit lines (record c4 { top = top }))

-- `argc += add_arg`. Where that wraps round to 0, the range of the arguments from 1 to 0 is
-- undefined.
unfoldable pub count_args : FrameInfo → Label → ℕ → Option ℤ → Compiler → Outcome Compiler
count_args frame callee argc opt_arg c =
    let total = (argc + add_arg opt_arg) % word_mod in
    if ltb total (add_arg opt_arg) then fault else compile_call_in frame callee total opt_arg c

-- Without a frame `current_frame->locals_count` is undefined.
unfoldable pub compile_call : Label → ℕ → Option ℤ → Compiler → Outcome Compiler
compile_call callee argc opt_arg c = elim c.current_frame [
  | none ↦ fault
  | some frame ↦ count_args frame callee argc opt_arg c
]
