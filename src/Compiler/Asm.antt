-- ===== src/Compiler/Asm.antt =====
-- Registers (comp/include/register.h) and the lines of assembly that comp/include/code_buffer.h
-- prints. A line is kept as data in place of text.
use Prim.Native.String.{String}
use lama_rv_workshop.Base.{ℕ, ◌+◌, ltb, if◌then◌else◌, List, [], ◌∷◌, Bool}
use lama_rv_workshop.Base.Int.{ℤ}
use lama_rv_workshop.Base.Outcome.{Outcome, ok, exited}

-- `struct Register`: the number of a machine register.
abbrev pub Register : Type 0
Register = ℕ

abbrev pub word_size : ℕ
word_size = 8

abbrev pub zero_reg : Register
zero_reg = 0

abbrev pub ra : Register
ra = 1

abbrev pub sp : Register
sp = 2

abbrev pub gp : Register
gp = 5

abbrev pub fp : Register
fp = 8

abbrev pub temp1 : Register
temp1 = 30

abbrev pub temp2 : Register
temp2 = 31

-- `Register::arg`; its DCHECK ends the process.
unfoldable pub arg : ℕ → Outcome Register
arg argno = if ltb argno 8 then ok (10 + argno) else exited

-- The lists of `saved_apply`, `temp_apply` and `arg_apply`.
abbrev pub saved_regs : List Register
saved_regs = 8 ∷ 9 ∷ 18 ∷ 19 ∷ 20 ∷ 21 ∷ 22 ∷ 23 ∷ 24 ∷ 25 ∷ 26 ∷ 27 ∷ []

abbrev pub temp_regs : List Register
temp_regs = 5 ∷ 6 ∷ 7 ∷ 28 ∷ 29 ∷ 30 ∷ 31 ∷ []

abbrev pub arg_regs : List Register
arg_regs = 10 ∷ 11 ∷ 12 ∷ 13 ∷ 14 ∷ 15 ∷ 16 ∷ 17 ∷ []

-- The R_TYPE, I_TYPE and PSEUDO_TYPE instructions.
pub data ROp : Type 0 where
  add sub slt sgt or and srl sra sll mul div rem : ROp

pub data IOp : Type 0 where
  addi slti srai slli ori xori andi : IOp

pub data Pseudo : Type 0 where
  seqz snez : Pseudo

-- The names that lines mention: `label_for_ip` of an address, a function's name, `string_` and a
-- number, and `fname`.
pub data Label : Type 0 where
  ip : ℕ → Label
  function : String → Label
  string_at : ℕ → Label
  fname : Label

-- The texts of comments: the expectation of `add_jump_target`, a label that stands already, an
-- instruction as `print` shows it, a line of the source program, and the line behind a terminator.
pub data Comment : Type 0 where
  expecting : ℕ → ℕ → Comment
  label_again : Label → Comment
  printed : ℕ → Comment
  source_line : ℕ → Comment
  separator : Comment

-- An instruction, or the label or comment that a line may be instead.
pub data Asm : Type 0 where
  r_type : ROp → Register → Register → Register → Asm
  i_type : IOp → Register → Register → ℤ → Asm
  pseudo : Pseudo → Register → Register → Asm
  ld : Register → Register → ℤ → Asm
  sd : Register → Register → ℤ → Asm
  li : Register → ℤ → Asm
  mv : Register → Register → Asm
  la : Register → Label → Asm
  call : Label → Asm
  ret : Asm
  j : Label → Asm
  cj : Bool → Register → Register → Label → Asm
  label : Label → Asm
  comment : Comment → Asm
  raw : String → Asm
