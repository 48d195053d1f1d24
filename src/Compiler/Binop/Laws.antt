-- ===== src/Compiler/Binop/Laws.antt =====
-- The code for an operator computes what the runtime's function for it computes.
use lama_rv_workshop.Base.{
  ℕ, ◌+◌, ◌-◌, ◌*◌, ◌%◌, ◌<◌, ◌≡◌, refl, Bool, true, false, not, arith, ◌==◌, ltb, if◌then◌else◌,
  Option, none, some, ==_refl, ◌∙◌, ap,
}
use Prim.Native.Nat.{bit_and, bit_or, bit_xor}
use lama_rv_workshop.Base.Int
use lama_rv_workshop.Base.Int.{ℤ, pos, negsuc, ◌+ℤ◌, ◌-ℤ◌, ◌*ℤ◌, quot, ltb_ℤ}
use lama_rv_workshop.Base.Word.{word_mod, signed, to_word, add_word, sub_word, slt_word, sar1}
use lama_rv_workshop.Runtime.Value.{box}
use lama_rv_workshop.Compiler.Asm.{Register}
use lama_rv_workshop.Compiler.Stack.{reg}
use lama_rv_workshop.Compiler.Buffer.{
  symb_emit_r_type, symb_emit_i_type, symb_emit_eq, symb_emit_neq, symb_emit_sle, symb_emit_sge,
}
use lama_rv_workshop.Compiler.Machine.{Cpu, run, step, alu, alu_imm, alu_pseudo, bit}
use lama_rv_workshop.Compiler.Binop.{BinopKind, binop_code, emit_op}

-- What is seen of the state after a run.
abbrev pub observe {ℓ} : {A : Type ℓ} → (Cpu → A) → Option Cpu → Option A
observe f none = none
observe f (some c) = some (f c)

-- The word that an operator computes from unboxed words, before it is boxed.
abbrev pub computes : BinopKind → ℕ → ℕ → ℕ
computes BinopKind.add x y = add_word x y
computes BinopKind.sub x y = sub_word x y
computes BinopKind.mul x y = to_word (signed x *ℤ signed y)
computes BinopKind.div x y = if y == 0 then word_mod - 1 else to_word (quot (signed x) (signed y))
computes BinopKind.rem x y = if y == 0 then x else to_word (Int.rem (signed x) (signed y))
computes BinopKind.less_than x y = bit (slt_word x y)
computes BinopKind.less_equal x y = bit (not (slt_word y x))
computes BinopKind.greater_than x y = bit (slt_word y x)
computes BinopKind.greater_equal x y = bit (not (slt_word x y))
computes BinopKind.equal x y = bit (x == y)
computes BinopKind.not_equal x y = bit (not (x == y))
computes BinopKind.and x y = bit_and x y
computes BinopKind.or x y = bit_or x y

boxed : (w : ℕ) → some ((w * 2 % word_mod + 1) % word_mod) ≡ some (box w)
boxed w = ap some (omega arith)

encoded : ℕ → Option ℕ
encoded w = some ((w * 2 % word_mod + 1) % word_mod)

flips : (t : Bool) → bit_xor (bit t) 1 ≡ bit (not t)
flips true = refl
flips false = refl

pub sar1-lt : (w : ℕ) → w < word_mod → sar1 w < word_mod
sar1-lt w h = ground arith

seqz_of_sub : (x y : ℕ) → x < word_mod → y < word_mod → bit (sub_word y x == 0) ≡ bit (x == y)
seqz_of_sub x y hx hy = ground arith

snez_of_sub :
    (x y : ℕ) → x < word_mod → y < word_mod → bit (ltb 0 (sub_word y x)) ≡ bit (not (x == y))
snez_of_sub x y hx hy = ground arith

module _ (a b : Register) (c : Cpu) (a_pos : (a == 0) ≡ false) (b_pos : (b == 0) ≡ false)
    (a_b : (a == b) ≡ false) (b_a : (b == a) ≡ false) (a_word : c.regs a < word_mod)
    (b_word : c.regs b < word_mod) where
  pub binop_runs :
      (op : BinopKind)
      → observe (λ c'. c'.regs a) (run (binop_code op (reg a) (reg b) (reg a)) c)
        ≡ some (box (computes op (sar1 (c.regs a)) (sar1 (c.regs b))))
  unfolding run step alu alu_imm alu_pseudo binop_code emit_op symb_emit_r_type symb_emit_i_type
      symb_emit_eq symb_emit_neq symb_emit_sle symb_emit_sge encoded
  binop_runs BinopKind.add = rw (==_refl a, ==_refl b, a_pos, b_pos, a_b, b_a) (boxed _)
  binop_runs BinopKind.sub = rw (==_refl a, ==_refl b, a_pos, b_pos, a_b, b_a) (boxed _)
  binop_runs BinopKind.mul = rw (==_refl a, ==_refl b, a_pos, b_pos, a_b, b_a) (boxed _)
  binop_runs BinopKind.div = rw (==_refl a, ==_refl b, a_pos, b_pos, a_b, b_a) (boxed _)
  binop_runs BinopKind.rem = rw (==_refl a, ==_refl b, a_pos, b_pos, a_b, b_a) (boxed _)
  binop_runs BinopKind.less_than = rw (==_refl a, ==_refl b, a_pos, b_pos, a_b, b_a) (boxed _)
  binop_runs BinopKind.less_equal =
      rw (==_refl a, ==_refl b, a_pos, b_pos, a_b, b_a) (ap encoded (flips _) ∙ boxed _)
  binop_runs BinopKind.greater_than = rw (==_refl a, ==_refl b, a_pos, b_pos, a_b, b_a) (boxed _)
  binop_runs BinopKind.greater_equal =
      rw (==_refl a, ==_refl b, a_pos, b_pos, a_b, b_a) (ap encoded (flips _) ∙ boxed _)
  binop_runs BinopKind.equal =
      rw (==_refl a, ==_refl b, a_pos, b_pos, a_b, b_a)
        (ap encoded (seqz_of_sub _ _ (sar1-lt _ a_word) (sar1-lt _ b_word)) ∙ boxed _)
  binop_runs BinopKind.not_equal =
      rw (==_refl a, ==_refl b, a_pos, b_pos, a_b, b_a)
        (ap encoded (snez_of_sub _ _ (sar1-lt _ a_word) (sar1-lt _ b_word)) ∙ boxed _)
  binop_runs BinopKind.and = rw (==_refl a, ==_refl b, a_pos, b_pos, a_b, b_a) (boxed _)
  binop_runs BinopKind.or = rw (==_refl a, ==_refl b, a_pos, b_pos, a_b, b_a) (boxed _)
