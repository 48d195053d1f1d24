-- ===== src/Compiler/Buffer.antt =====
-- Emission of instructions, comp/include/code_buffer.h. Each function returns the lines that it
-- writes to the stream, in order.
use lama_rv_workshop.Base.{ℕ, ◌*◌, List, [], ◌∷◌, ◌++◌}
use lama_rv_workshop.Base.Int.{ℤ, pos, sub_ℕ}
use lama_rv_workshop.Compiler.Asm.{
  Register, word_size, sp, temp1, temp2, ROp, IOp, Pseudo, Label, Asm, r_type, i_type, pseudo, ld,
  sd, li, mv, la, sub, slt, sgt, addi, xori, seqz, snez,
}
use lama_rv_workshop.Compiler.Stack.{Loc, reg, memory}

-- The offset `-number * WORD_SIZE`.
abbrev pub slot_offset : ℕ → ℤ
slot_offset number = sub_ℕ 0 (number * word_size)

-- `to_reg`: the register that holds the value, after it was loaded into `temp` if it is spilled.
unfoldable pub to_reg : Loc → Register → List Asm × Register
to_reg (reg number) temp = ([], number)
to_reg (memory number) temp = (ld temp sp (slot_offset number) ∷ [], temp)

-- The end of `symb_emit_r_type`, by the place of the result.
r_type_to : ROp → Loc → Register → Register → List Asm
r_type_to insn (reg number) src1 src2 = r_type insn number src1 src2 ∷ []
r_type_to insn (memory number) src1 src2 =
    r_type insn src1 src1 src2 ∷ sd src1 sp (slot_offset number) ∷ []

unfoldable pub symb_emit_r_type : ROp → Loc → Loc → Loc → List Asm
unfolding to_reg r_type_to
symb_emit_r_type insn dst src1 src2 =
    let (c1, r1) = to_reg src1 temp1 in
    let (c2, r2) = to_reg src2 temp2 in c1 ++ (c2 ++ r_type_to insn dst r1 r2)

unfoldable pub symb_emit_i_type : IOp → Loc → Loc → ℤ → List Asm
unfolding to_reg
symb_emit_i_type insn dst src imm =
    let (c1, r1) = to_reg dst temp1 in
    let (c2, r2) = to_reg src temp2 in c1 ++ (c2 ++ (i_type insn r1 r2 imm ∷ []))

unfoldable pub symb_emit_pseudo_type : Pseudo → Loc → Loc → List Asm
unfolding to_reg
symb_emit_pseudo_type insn dst src =
    let (c1, r1) = to_reg dst temp1 in
    let (c2, r2) = to_reg src temp2 in c1 ++ (c2 ++ (pseudo insn r1 r2 ∷ []))

-- `symb_emit_li`, the one U_TYPE instruction.
unfoldable pub symb_emit_li : Loc → ℤ → List Asm
unfolding to_reg
symb_emit_li dst imm = let (c1, r1) = to_reg dst temp1 in c1 ++ (li r1 imm ∷ [])

-- `symb_emit_ld` and `symb_emit_sd`, the S_TYPE instructions.
unfoldable pub symb_emit_ld : Loc → Loc → ℤ → List Asm
unfolding to_reg
symb_emit_ld dst base off =
    let (c1, r1) = to_reg dst temp1 in
    let (c2, r2) = to_reg base temp2 in c1 ++ (c2 ++ (ld r1 r2 off ∷ []))

unfoldable pub symb_emit_sd : Loc → Loc → ℤ → List Asm
unfolding to_reg
symb_emit_sd dst base off =
    let (c1, r1) = to_reg dst temp1 in
    let (c2, r2) = to_reg base temp2 in c1 ++ (c2 ++ (sd r1 r2 off ∷ []))

abbrev pub emit_mv : Register → Register → Asm
emit_mv dst src = i_type addi dst src (pos 0)

-- The three overloads of `symb_emit_mv`: to a register, from a register, and between places.
unfoldable pub symb_emit_mv_to : Register → Loc → List Asm
unfolding to_reg
symb_emit_mv_to dst src = let (c, r) = to_reg src temp2 in c ++ (mv dst r ∷ [])

unfoldable pub symb_emit_mv_from : Loc → Register → List Asm
unfolding to_reg
symb_emit_mv_from dst src = let (c, r) = to_reg dst temp2 in c ++ (mv r src ∷ [])

unfoldable pub symb_emit_mv : Loc → Loc → List Asm
unfolding to_reg
symb_emit_mv dst src =
    let (c1, r1) = to_reg src temp1 in
    let (c2, r2) = to_reg dst temp2 in c1 ++ (c2 ++ (mv r2 r1 ∷ []))

unfoldable pub symb_emit_la : Loc → Label → List Asm
unfolding to_reg
symb_emit_la dst text = let (c, r) = to_reg dst temp1 in c ++ (la r text ∷ [])

-- The comparisons that take two instructions.
unfoldable pub symb_emit_eq : Loc → Loc → Loc → List Asm
unfolding symb_emit_r_type symb_emit_pseudo_type
symb_emit_eq dst src1 src2 =
    symb_emit_r_type sub dst src2 src1 ++ symb_emit_pseudo_type seqz dst dst

unfoldable pub symb_emit_neq : Loc → Loc → Loc → List Asm
unfolding symb_emit_r_type symb_emit_pseudo_type
symb_emit_neq dst src1 src2 =
    symb_emit_r_type sub dst src2 src1 ++ symb_emit_pseudo_type snez dst dst

unfoldable pub symb_emit_sle : Loc → Loc → Loc → List Asm
unfolding symb_emit_r_type symb_emit_i_type
symb_emit_sle dst src1 src2 =
    symb_emit_r_type sgt dst src1 src2 ++ symb_emit_i_type xori dst dst (pos 1)

unfoldable pub symb_emit_sge : Loc → Loc → Loc → List Asm
unfolding symb_emit_r_type symb_emit_i_type
symb_emit_sge dst src1 src2 =
    symb_emit_r_type slt dst src1 src2 ++ symb_emit_i_type xori dst dst (pos 1)
