-- ===== src/Compiler/Emit.antt =====
-- `emit_code` of each instruction, comp/src/emit.cpp and comp/include/instructions.h. `LOG(FATAL)`
-- and a DCHECK that fails end the process.
pub mod Arguments
use Prim.Native.String.{String}
use text.Mathlib.Text
use lama_rv_workshop.Base.{
  ℕ, zero, suc, ◌+◌, ◌-◌, ◌*◌, ◌%◌, ◌^◌, ◌==◌, ltb, if◌then◌else◌, Bool, true, false, Option, none,
  some, List, [], ◌∷◌, ◌++◌,
}
use lama_rv_workshop.Base.Int.{ℤ, pos, ◌*ℤ◌, ◌-ℤ◌}
use lama_rv_workshop.Base.Word.{word_mod, to_word}
use lama_rv_workshop.Base.Outcome.{Outcome, ok, exited, fault, ◌>>=◌}
use lama_rv_workshop.Compiler.Asm
use lama_rv_workshop.Compiler.Asm.{
  Register, sp, fp, gp, zero_reg, temp1, saved_regs, addi, srai, slli, Asm, i_type, ld, sd, li, cj,
  j, label, comment, raw, ret, source_line, Label,
}
use lama_rv_workshop.Compiler.Stack.{Loc, reg, memory, Stack, alloc, push, pop, peek}
use lama_rv_workshop.Compiler.Buffer.{
  slot_offset, to_reg, emit_mv, symb_emit_i_type, symb_emit_li, symb_emit_ld, symb_emit_sd,
  symb_emit_mv, symb_emit_mv_to, symb_emit_mv_from, symb_emit_la,
}
use lama_rv_workshop.Compiler.Binop.{BinopKind, emit_binop}
use lama_rv_workshop.Compiler.Instruction
use lama_rv_workshop.Compiler.Instruction.{Inst, Location, LocationEntry, to_int, box_size}
use lama_rv_workshop.Compiler.TagHash.{static_tag_hash}
use lama_rv_workshop.Compiler.State.{FrameInfo, Compiler, emit, add_jump_target}
use lama_rv_workshop.Compiler.Call.{compile_call}

-- `-n * WORD_SIZE` of an `int`, and `n * WORD_SIZE`.
abbrev pub word_offset : ℤ → ℤ
word_offset n = n *ℤ pos 8

abbrev pub negative_offset : ℤ → ℤ
negative_offset n = (pos 0 -ℤ n) *ℤ pos 8

-- An emission to the place that `alloc` gives.
abbrev pub emit_alloc : (Loc → List Asm) → Compiler → Compiler
emit_alloc lines c = let (loc, top) = alloc c.top in emit (lines loc) (record c { top = top })

unfoldable pub emit_const : ℤ → Compiler → Compiler
emit_const value c =
    let (loc, top) = alloc c.top in
    elim loc [
      | memory number ↦
          emit (li temp1 value ∷ sd temp1 fp (slot_offset number) ∷ []) (record c { top = top })
      | reg number ↦ emit (li number value ∷ []) (record c { top = top })
    ]

unfoldable pub emit_sexpression : List ℕ → ℕ → Compiler → Outcome Compiler
emit_sexpression name size c = do
  hash ← static_tag_hash name
  compile_call (Label.function "RVBsexp") ((size + 1) % word_mod)
      (some (to_int ((2 * size + 1 + 1) % 2 ^ 64)))
      (emit_alloc (λ loc. symb_emit_li loc (to_int hash)) c)

unfoldable pub emit_store_stack : Compiler → Outcome Compiler
emit_store_stack c = do
  (value_loc, top1) ← pop c.top
  (ptr_loc, top2) ← pop top1
  ok (emit (symb_emit_sd value_loc ptr_loc (pos 0)) (record c { top = push value_loc top2 }))

unfoldable pub emit_conditional_jump : ℕ → Bool → Compiler → Outcome Compiler
emit_conditional_jump target on_zero c = do
  (loc, top) ← pop c.top
  let (load, r) = to_reg loc temp1
  add_jump_target target top (
      emit (load ++ (i_type srai r r (pos 1) ∷ cj on_zero r zero_reg (Label.ip target) ∷ []))
        (record c { top = top }))

unfoldable pub emit_swap : Compiler → Outcome Compiler
emit_swap c = do
  (a, top) ← pop c.top
  b ← peek top
  ok (
      emit (symb_emit_mv_to temp1 a ++ (symb_emit_mv a b ++ symb_emit_mv_from b temp1))
        (record c { top = push a top }))

unfoldable pub emit_drop : Compiler → Outcome Compiler
emit_drop c = do (loc, top) ← pop c.top; ok (record c { top = top })

-- The arguments of `symb_emit_mv(c->st.alloc(), c->st.peek())` may be evaluated in either order.
unfoldable pub emit_duplicate : Bool → Compiler → Outcome Compiler
emit_duplicate peek_first c =
    if peek_first
    then (do src ← peek c.top; ok (emit_alloc (λ dst. symb_emit_mv dst src) c))
    else (do
      let (dst, top) = alloc c.top
      src ← peek top
      ok (emit (symb_emit_mv dst src) (record c { top = top })))

abbrev pub is_main : Label → Bool
is_main (Label.function name) = Text.◌==◌ name "main"
is_main _ = false

abbrev pub premain : List Asm
premain = raw "sd fp, __gc_stack_bottom, t0" ∷ raw "la t0, globals" ∷ []

abbrev pub save_regs : ℕ → ℕ → List Register → List Asm
save_regs i locc [] = []
save_regs i locc (r ∷ rs) = sd r sp (slot_offset (i + locc)) ∷ save_regs (i + 1) locc rs

abbrev pub restore_regs : ℕ → ℕ → List Register → List Asm
restore_regs i locc [] = []
restore_regs i locc (r ∷ rs) = ld r sp (slot_offset (i + locc)) ∷ restore_regs (i + 1) locc rs

-- The label of a function that has a name; that of an address was emitted by `inst_begin`.
abbrev pub name_label : Label → List Asm
name_label (Label.function name) = label (Label.function name) ∷ []
name_label _ = []

unfoldable pub emit_begin : Label → ℕ → ℕ → Compiler → Outcome Compiler
emit_begin id argc locc c = do
  let framed = record (emit (name_label id) c) {
    current_frame = some (record { function_name = id; locals_count = locc; args_count = argc });
  }
  c1 ←
      if is_main id
      then compile_call (Label.function "__init") 0 none (emit premain framed)
      else ok framed
  ok (
      emit
        (save_regs 1 locc saved_regs
          ++ (emit_mv fp sp ∷ i_type addi sp sp (slot_offset (locc + 12)) ∷ []))
        c1)

unfoldable pub emit_end : Compiler → Outcome Compiler
emit_end c = elim c.current_frame [
  | none ↦ exited
  | some frame ↦ do
    (loc, top) ← pop c.top
    let last = if is_main frame.function_name then raw "srai a0, a0, 1" ∷ [] else []
    ok (
        emit
          (symb_emit_mv_to 10 loc
            ++ (emit_mv sp fp
                ∷ (restore_regs 1 frame.locals_count saved_regs ++ (last ++ (ret ∷ [])))))
          (record c { top = top }))
]

unfoldable pub emit_tag : List ℕ → ℕ → Compiler → Outcome Compiler
emit_tag name size c = do
  hash ← static_tag_hash name
  compile_call (Label.function "Btag") 3 none (
      emit_alloc (λ loc. symb_emit_li loc (to_int (box_size size)))
        (emit_alloc (λ loc. symb_emit_li loc (to_int hash)) c))

unfoldable pub emit_fail : ℕ → ℕ → Compiler → Outcome Compiler
emit_fail line col c = compile_call (Label.function "Bmatch_failure") 4 none (
    emit_alloc (λ loc. symb_emit_li loc (to_int (box_size col)))
      (emit_alloc (λ loc. symb_emit_li loc (to_int (box_size line)))
        (emit_alloc (λ loc. symb_emit_la loc Label.fname) c)))

-- `DCHECK_LT` of an `int` and a `size_t`, and `_loc.index < 8` of an `int`.
abbrev pub below_size : ℤ → ℕ → Bool
below_size index size = ltb (to_word index) size

abbrev pub below_eight : ℤ → Bool
below_eight index = lama_rv_workshop.Base.Int.ltb_ℤ index (pos 8)

-- `Register::arg`, with its DCHECK: a negative `int` is a large `size_t`.
abbrev pub arg_register : ℕ → Outcome Register
arg_register argno = if ltb argno 8 then ok (10 + argno) else exited

-- The code that loads argument `index` to a place, and the code that stores it.
unfoldable pub load_arg : ℤ → Loc → Outcome (List Asm)
load_arg index dst =
    if below_eight index
    then (do r ← arg_register (to_word index); ok (symb_emit_mv_from dst r))
    else ok (symb_emit_ld dst (reg fp) (index -ℤ pos 8))

unfoldable pub store_arg : ℤ → Loc → Outcome (List Asm)
store_arg index value =
    if below_eight index
    then (do r ← arg_register (to_word index); ok (symb_emit_mv_from value r))
    else ok (symb_emit_sd value (reg fp) (word_offset (index -ℤ pos 8)))

unfoldable pub emit_load_in : FrameInfo → Location → ℤ → Compiler → Outcome Compiler
emit_load_in frame Location.local index c =
    if below_size index frame.locals_count
    then ok (emit_alloc (λ dst. symb_emit_ld dst (reg fp) (negative_offset index)) c)
    else exited
emit_load_in frame _ index c =
    if below_size index frame.args_count
    then (do
      let (dst, top) = alloc c.top
      lines ← load_arg index dst
      ok (emit lines (record c { top = top })))
    else exited

unfoldable pub emit_load : Location → ℤ → Compiler → Outcome Compiler
emit_load Location.global index c =
    if below_size index c.globals_count
    then ok (emit_alloc (λ dst. symb_emit_ld dst (reg gp) (word_offset index)) c)
    else exited
emit_load Location.local index c = elim c.current_frame [
  | none ↦ fault
  | some frame ↦ emit_load_in frame Location.local index c
]
emit_load Location.arg index c = elim c.current_frame [
  | none ↦ fault
  | some frame ↦ emit_load_in frame Location.arg index c
]
emit_load Location.captured index c = exited
emit_load Location.other index c = ok c

unfoldable pub emit_store : Location → ℤ → Compiler → Outcome Compiler
emit_store kind index c = do
  value ← peek c.top
  elim kind [
    | Location.global ↦ ok (emit (symb_emit_sd value (reg gp) (word_offset index)) c)
    | Location.local ↦ ok (emit (symb_emit_sd value (reg fp) (negative_offset index)) c)
    | Location.arg ↦ (do lines ← store_arg index value; ok (emit lines c))
    | Location.captured ↦ exited
    | Location.other ↦ ok c
  ]

-- `Binop::emit_code`; a kind without a case leaves out the operator alone.
unfoldable pub emit_binop_inst : Option BinopKind → Compiler → Outcome Compiler
emit_binop_inst (some op) c = do
  (lines, top) ← emit_binop op c.top
  ok (emit lines (record c { top = top }))
emit_binop_inst none c = do
  (second_loc, top1) ← pop c.top
  (first_loc, top2) ← pop top1
  let (dest_loc, top) = alloc top2
  ok (
      emit
        (symb_emit_i_type srai first_loc first_loc (pos 1)
          ++ (symb_emit_i_type srai second_loc second_loc (pos 1)
              ++ (symb_emit_i_type slli dest_loc dest_loc (pos 1)
                  ++ symb_emit_i_type addi dest_loc dest_loc (pos 1))))
        (record c { top = top }))

-- `peek_first` is the order in which `Duplicate` evaluates its two arguments. The offset that
-- `CBegin` prints is never set: its use is undefined.
unfoldable pub emit_code : Bool → Inst → Compiler → Outcome Compiler
emit_code peek_first (Inst.const value) c = ok (emit_const value c)
emit_code peek_first (Inst.string ind) c =
    compile_call (Label.function "RVBstring") 1 none
      (emit_alloc (λ loc. symb_emit_la loc (Label.string_at ind)) c)
emit_code peek_first (Inst.sexpression name size) c = emit_sexpression name size c
emit_code peek_first Inst.store_stack c = emit_store_stack c
emit_code peek_first Inst.store_array c = compile_call (Label.function "Bsta") 3 none c
emit_code peek_first (Inst.jump target) c =
    add_jump_target target c.top (emit (j (Label.ip target) ∷ []) c)
emit_code peek_first (Inst.conditional_jump target on_zero) c =
    emit_conditional_jump target on_zero c
emit_code peek_first Inst.return c = exited
emit_code peek_first Inst.drop c = emit_drop c
emit_code peek_first Inst.duplicate c = emit_duplicate peek_first c
emit_code peek_first Inst.swap c = emit_swap c
emit_code peek_first Inst.elem c = compile_call (Label.function "Belem") 2 none c
emit_code peek_first Inst.end c = emit_end c
emit_code peek_first (Inst.begin id argc locc) c = emit_begin id argc locc c
emit_code peek_first (Inst.cbegin argc locc) c = fault
emit_code peek_first (Inst.closure entry captured) c = exited
emit_code peek_first (Inst.call_closure argc) c = exited
emit_code peek_first (Inst.call callee argc) c = compile_call callee argc none c
emit_code peek_first (Inst.tag name size) c = emit_tag name size c
emit_code peek_first (Inst.array size) c = exited
emit_code peek_first (Inst.fail line col) c = emit_fail line col c
emit_code peek_first (Inst.line number) c = ok (emit (comment (source_line number) ∷ []) c)
emit_code peek_first (Inst.binop op) c = emit_binop_inst op c
emit_code peek_first (Inst.load entry) c = emit_load entry.kind entry.index c
emit_code peek_first (Inst.load_array index kind) c = exited
emit_code peek_first (Inst.store entry) c = emit_store entry.kind entry.index c
emit_code peek_first (Inst.pattern_inst kind) c = exited
emit_code peek_first Inst.builtin_read c = compile_call (Label.function "Lread") 0 none c
emit_code peek_first Inst.builtin_write c = compile_call (Label.function "Lwrite") 1 none c
emit_code peek_first Inst.builtin_length c = compile_call (Label.function "Llength") 1 none c
emit_code peek_first Inst.builtin_string c = compile_call (Label.function "RVLstring") 1 none c
emit_code peek_first (Inst.builtin_array len) c =
    compile_call (Label.function "RVBarray") len (some (to_int (box_size len))) c
