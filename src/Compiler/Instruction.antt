-- ===== src/Compiler/Instruction.antt =====
-- The instructions of the bytecode, comp/include/instructions.h, as their constructors leave them,
-- `is_terminator`, and whether `print` of comp/src/print.cpp ends the process. A `size_t` is a word; an `int` is an integer.
use lama_rv_workshop.Base.{
  ℕ, ◌+◌, ◌-◌, ◌*◌, ◌%◌, ◌^◌, ◌==◌, ltb, if◌then◌else◌, Bool, true, false, Option, List,
}
use lama_rv_workshop.Base.Int.{ℤ, pos, negsuc, ◌+ℤ◌, ◌*ℤ◌}
use lama_rv_workshop.Base.Word.{to_word}
use lama_rv_workshop.Compiler.Asm.{Label}
use lama_rv_workshop.Compiler.Binop.{BinopKind}

-- `Location`; a value that is none of the four is `other`.
pub data Location : Type 0 where
  global local arg captured other : Location

pub record LocationEntry : Type 0 where
  pub kind : Location
  pub index : ℤ

-- The conversion of a word to `int`, which keeps its low 32 bits.
abbrev pub to_int : ℕ → ℤ
to_int w =
    let low : ℕ = w % 2 ^ 32 in if ltb low (2 ^ 31) then pos low else negsuc (2 ^ 32 - low - 1)

-- `BOX` of comp/include/runtime.h on an `int` and on a `size_t`.
abbrev pub box_int32 : ℤ → ℤ
box_int32 x = to_int (to_word (pos 2 *ℤ x +ℤ pos 1))

abbrev pub box_size : ℕ → ℕ
box_size x = (2 * x + 1) % 2 ^ 64

-- `const` holds the boxed value, as its constructor leaves it; a name is its bytes.
pub data Inst : Type 0 where
  const : ℤ → Inst
  string : ℕ → Inst
  sexpression : List ℕ → ℕ → Inst
  store_stack store_array : Inst
  jump : ℕ → Inst
  conditional_jump : ℕ → Bool → Inst
  return drop duplicate swap elem end : Inst
  begin : Label → ℕ → ℕ → Inst
  cbegin : ℕ → ℕ → Inst
  closure : ℕ → List LocationEntry → Inst
  call_closure : ℕ → Inst
  call : Label → ℕ → Inst
  tag : List ℕ → ℕ → Inst
  array : ℕ → Inst
  fail : ℕ → ℕ → Inst
  line : ℕ → Inst
  binop : Option BinopKind → Inst
  load : LocationEntry → Inst
  load_array : ℕ → Location → Inst
  store : LocationEntry → Inst
  pattern_inst : ℕ → Inst
  builtin_read builtin_write builtin_length builtin_string : Inst
  builtin_array : ℕ → Inst

unfoldable pub is_terminator : Inst → Bool
is_terminator (jump _) = true
is_terminator end = true
is_terminator (fail _ _) = true
is_terminator _ = false

-- `print` comes to an end: that of four instructions is LOG(FATAL), and that of a constant checks
-- the lowest bit.
unfoldable pub can_print : Inst → Bool
can_print (const value) = to_word value % 2 == 1
can_print store_stack = false
can_print return = false
can_print swap = false
can_print (load_array _ _) = false
can_print _ = true
