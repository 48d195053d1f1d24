-- ===== src/Compiler/Binop.antt =====
-- The code for binary operators: `Binop::emit_code` of comp/src/emit.cpp, with the table BINOPS of
-- comp/include/opcode.h.
pub mod Laws
pub mod Agrees
pub mod Spilled
use lama_rv_workshop.Base.{List, [], ◌∷◌, ◌++◌}
use lama_rv_workshop.Base.Int.{pos}
use lama_rv_workshop.Base.Outcome.{Outcome, ok, ◌>>=◌}
use lama_rv_workshop.Compiler.Asm
use lama_rv_workshop.Compiler.Asm.{Asm, ROp, srai, slli, addi}
use lama_rv_workshop.Compiler.Stack.{Loc, Stack, alloc, pop}
use lama_rv_workshop.Compiler.Buffer.{
  symb_emit_r_type, symb_emit_i_type, symb_emit_eq, symb_emit_neq, symb_emit_sle, symb_emit_sge,
}

pub data BinopKind : Type 0 where
  add sub mul div rem : BinopKind
  less_than less_equal greater_than greater_equal equal not_equal : BinopKind
  and or : BinopKind

-- The `switch` over BINOPS.
unfoldable pub emit_op : BinopKind → Loc → Loc → Loc → List Asm
emit_op add dst src1 src2 = symb_emit_r_type ROp.add dst src1 src2
emit_op sub dst src1 src2 = symb_emit_r_type ROp.sub dst src1 src2
emit_op mul dst src1 src2 = symb_emit_r_type ROp.mul dst src1 src2
emit_op div dst src1 src2 = symb_emit_r_type ROp.div dst src1 src2
emit_op rem dst src1 src2 = symb_emit_r_type ROp.rem dst src1 src2
emit_op less_than dst src1 src2 = symb_emit_r_type ROp.slt dst src1 src2
emit_op less_equal dst src1 src2 = symb_emit_sle dst src1 src2
emit_op greater_than dst src1 src2 = symb_emit_r_type ROp.sgt dst src1 src2
emit_op greater_equal dst src1 src2 = symb_emit_sge dst src1 src2
emit_op equal dst src1 src2 = symb_emit_eq dst src1 src2
emit_op not_equal dst src1 src2 = symb_emit_neq dst src1 src2
emit_op and dst src1 src2 = symb_emit_r_type ROp.and dst src1 src2
emit_op or dst src1 src2 = symb_emit_r_type ROp.or dst src1 src2

-- The lines emitted once the three places are known.
unfoldable pub binop_code : BinopKind → Loc → Loc → Loc → List Asm
binop_code op first_loc second_loc dest_loc =
    symb_emit_i_type srai first_loc first_loc (pos 1)
    ++ (symb_emit_i_type srai second_loc second_loc (pos 1)
        ++ (emit_op op dest_loc first_loc second_loc
            ++ (symb_emit_i_type slli dest_loc dest_loc (pos 1)
                ++ symb_emit_i_type addi dest_loc dest_loc (pos 1))))

unfoldable pub emit_binop : BinopKind → Stack → Outcome (List Asm × Stack)
emit_binop op st = do
  (second_loc, st1) ← pop st
  (first_loc, st2) ← pop st1
  let (dest_loc, st3) = alloc st2
  ok (binop_code op first_loc second_loc dest_loc, st3)
