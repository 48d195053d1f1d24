-- ===== src/Compiler/Machine.antt =====
-- What the emitted instructions do: straight-line code of the RISC-V base integer and
-- multiplication sets on 64 bits, with the assembler's pseudo-instructions. This is the meaning of
-- the target language, and no code of the repository.
use Prim.Native.Nat.{bit_and, bit_or, bit_xor}
use lama_rv_workshop.Base.{
  ℕ, ◌-◌, ◌*◌, ◌/◌, ◌%◌, ◌^◌, Bool, ◌==◌, ltb, if◌then◌else◌, Option, none, some, List, [], ◌∷◌,
}
use lama_rv_workshop.Base.Int.{ℤ, pos, negsuc, ◌+ℤ◌, ◌*ℤ◌, quot}
use lama_rv_workshop.Base.Int
use lama_rv_workshop.Base.Word.{word_mod, signed, to_word, add_word, sub_word, slt_word, sar1}
use lama_rv_workshop.Compiler.Asm.{
  Register, ROp, IOp, Pseudo, Asm, r_type, i_type, pseudo, ld, sd, li, mv, label, comment, add, sub,
  slt, sgt, and, or, srl, sra, sll, mul, div, rem, addi, slti, srai, slli, ori, xori, andi, seqz,
  snez,
}
use lama_rv_workshop.Gc.State.{Mem, write}

abbrev pub bit : Bool → ℕ
bit b = if b then 1 else 0

-- An arithmetic shift by `k`, as `k` shifts by one.
sar : ℕ → ℕ → ℕ
sar Prim.Native.Nat.zero w = w
sar (Prim.Native.Nat.suc k) w = sar k (sar1 w)

-- Division by zero gives -1, and its remainder is the dividend.
unfoldable pub alu : ROp → ℕ → ℕ → ℕ
unfolding sar
alu add a b = add_word a b
alu sub a b = sub_word a b
alu slt a b = bit (slt_word a b)
alu sgt a b = bit (slt_word b a)
alu or a b = bit_or a b
alu and a b = bit_and a b
alu srl a b = a / 2 ^ (b % 64)
alu sra a b = sar (b % 64) a
alu sll a b = a * 2 ^ (b % 64) % word_mod
alu mul a b = to_word (signed a *ℤ signed b)
alu div a b = if b == 0 then word_mod - 1 else to_word (quot (signed a) (signed b))
alu rem a b = if b == 0 then a else to_word (Int.rem (signed a) (signed b))

-- The immediate `imm` is the integer that the assembler extends to a word.
unfoldable pub alu_imm : IOp → ℕ → ℤ → ℕ
unfolding sar
alu_imm addi a imm = add_word a (to_word imm)
alu_imm slti a imm = bit (slt_word a (to_word imm))
alu_imm srai a imm = sar (to_word imm % 64) a
alu_imm slli a imm = a * 2 ^ (to_word imm % 64) % word_mod
alu_imm ori a imm = bit_or a (to_word imm)
alu_imm xori a imm = bit_xor a (to_word imm)
alu_imm andi a imm = bit_and a (to_word imm)

unfoldable pub alu_pseudo : Pseudo → ℕ → ℕ
alu_pseudo seqz a = bit (a == 0)
alu_pseudo snez a = bit (ltb 0 a)

pub record Cpu : Type 0 where
  pub regs : Register → ℕ
  pub mem : Mem

-- Register 0 always reads as 0.
abbrev pub read : Cpu → Register → ℕ
read c r = if r == 0 then 0 else c.regs r

abbrev pub write_reg : Cpu → Register → ℕ → Cpu
write_reg c r v = record c { regs = λ x. if x == r then v else c.regs x }

abbrev pub address : Cpu → Register → ℤ → ℕ
address c base off = to_word (pos (read c base) +ℤ off)

-- `none` for the instructions that leave straight-line code or name a label.
unfoldable pub step : Asm → Cpu → Option Cpu
step (r_type op d s1 s2) c = some (write_reg c d (alu op (read c s1) (read c s2)))
step (i_type op d s imm) c = some (write_reg c d (alu_imm op (read c s) imm))
step (pseudo op d s) c = some (write_reg c d (alu_pseudo op (read c s)))
step (ld d base off) c = some (write_reg c d (c.mem (address c base off)))
step (sd s base off) c = some (record c { mem = write c.mem (address c base off) (read c s) })
step (li d imm) c = some (write_reg c d (to_word imm))
step (mv d s) c = some (write_reg c d (read c s))
step (label l) c = some c
step (comment l) c = some c
step _ c = none

unfoldable pub run : List Asm → Cpu → Option Cpu
run [] c = some c
run (i ∷ is) c = elim (step i c) [ none ↦ none | some c' ↦ run is c' ]
