-- ===== src/Compiler/Lines.antt =====
-- The addresses that emitted lines define as labels and jump to.
use lama_rv_workshop.Base.{ℕ, ◌≡◌, refl, List, [], ◌∷◌, ◌++◌}
use mathlib.Core.List.{append_assoc}
use lama_rv_workshop.Base.Int.{ℤ}
use lama_rv_workshop.Compiler.Asm.{Register, ROp, IOp, Pseudo, Asm, Label, ip, call, j, cj, label}
use lama_rv_workshop.Compiler.Stack.{Loc, reg, memory}
use lama_rv_workshop.Compiler.Buffer.{
  to_reg, symb_emit_r_type, symb_emit_i_type, symb_emit_pseudo_type, symb_emit_li, symb_emit_ld,
  symb_emit_sd, symb_emit_mv, symb_emit_mv_to, symb_emit_mv_from, symb_emit_la, symb_emit_eq,
  symb_emit_neq, symb_emit_sle, symb_emit_sge,
}
use lama_rv_workshop.Compiler.Binop.{BinopKind, emit_op, binop_code}

abbrev pub address_of : Label → List ℕ
address_of (ip a) = a ∷ []
address_of _ = []

abbrev pub defines : Asm → List ℕ
defines (label l) = address_of l
defines _ = []

abbrev pub goes_to : Asm → List ℕ
goes_to (call l) = address_of l
goes_to (j l) = address_of l
goes_to (cj on_eq a b l) = address_of l
goes_to _ = []

-- The labels of addresses, in order, and the addresses that a jump or a call goes to.
abbrev pub ip_labels : List Asm → List ℕ
ip_labels [] = []
ip_labels (line ∷ rest) = defines line ++ ip_labels rest

abbrev pub ip_targets : List Asm → List ℕ
ip_targets [] = []
ip_targets (line ∷ rest) = goes_to line ++ ip_targets rest

pub ip_labels-append : (xs ys : List Asm) → ip_labels (xs ++ ys) ≡ ip_labels xs ++ ip_labels ys
ip_labels-append [] ys = refl
ip_labels-append (x ∷ xs) ys = simp (ip_labels-append xs ys, append_assoc)

pub ip_targets-append : (xs ys : List Asm) → ip_targets (xs ++ ys) ≡ ip_targets xs ++ ip_targets ys
ip_targets-append [] ys = refl
ip_targets-append (x ∷ xs) ys = simp (ip_targets-append xs ys, append_assoc)

-- Lines without such labels and jumps.
pub record IsPlain (lines : List Asm) : Type 0 where
  pub no_labels : ip_labels lines ≡ []
  pub no_targets : ip_targets lines ≡ []

pub IsPlain-append : (xs ys : List Asm) → IsPlain xs → IsPlain ys → IsPlain (xs ++ ys)
IsPlain-append xs ys p q = record {
  no_labels = rw (ip_labels-append xs ys, p.no_labels) q.no_labels;
  no_targets = rw (ip_targets-append xs ys, p.no_targets) q.no_targets;
}

-- The emissions on places are plain.
IsPlain-to_reg : (loc : Loc) (temp : Register) → IsPlain (to_reg loc temp).0
unfolding to_reg
IsPlain-to_reg (reg r) temp = record { no_labels = refl; no_targets = refl }
IsPlain-to_reg (memory k) temp = record { no_labels = refl; no_targets = refl }

pub IsPlain-mv_to : (dst : Register) (src : Loc) → IsPlain (symb_emit_mv_to dst src)
unfolding to_reg symb_emit_mv_to
IsPlain-mv_to dst (reg r) = record { no_labels = refl; no_targets = refl }
IsPlain-mv_to dst (memory k) = record { no_labels = refl; no_targets = refl }

pub IsPlain-mv_from : (dst : Loc) (src : Register) → IsPlain (symb_emit_mv_from dst src)
unfolding to_reg symb_emit_mv_from
IsPlain-mv_from (reg r) src = record { no_labels = refl; no_targets = refl }
IsPlain-mv_from (memory k) src = record { no_labels = refl; no_targets = refl }

pub IsPlain-mv : (dst src : Loc) → IsPlain (symb_emit_mv dst src)
unfolding to_reg symb_emit_mv
IsPlain-mv (reg r) (reg q) = record { no_labels = refl; no_targets = refl }
IsPlain-mv (reg r) (memory l) = record { no_labels = refl; no_targets = refl }
IsPlain-mv (memory k) (reg q) = record { no_labels = refl; no_targets = refl }
IsPlain-mv (memory k) (memory l) = record { no_labels = refl; no_targets = refl }

pub IsPlain-la : (dst : Loc) (text : Label) → IsPlain (symb_emit_la dst text)
unfolding to_reg symb_emit_la
IsPlain-la (reg r) text = record { no_labels = refl; no_targets = refl }
IsPlain-la (memory k) text = record { no_labels = refl; no_targets = refl }

pub IsPlain-li : (dst : Loc) (imm : ℤ) → IsPlain (symb_emit_li dst imm)
unfolding to_reg symb_emit_li
IsPlain-li (reg r) imm = record { no_labels = refl; no_targets = refl }
IsPlain-li (memory k) imm = record { no_labels = refl; no_targets = refl }

pub IsPlain-ld : (dst base : Loc) (off : ℤ) → IsPlain (symb_emit_ld dst base off)
unfolding to_reg symb_emit_ld
IsPlain-ld (reg r) (reg q) off = record { no_labels = refl; no_targets = refl }
IsPlain-ld (reg r) (memory l) off = record { no_labels = refl; no_targets = refl }
IsPlain-ld (memory k) (reg q) off = record { no_labels = refl; no_targets = refl }
IsPlain-ld (memory k) (memory l) off = record { no_labels = refl; no_targets = refl }

pub IsPlain-sd : (dst base : Loc) (off : ℤ) → IsPlain (symb_emit_sd dst base off)
unfolding to_reg symb_emit_sd
IsPlain-sd (reg r) (reg q) off = record { no_labels = refl; no_targets = refl }
IsPlain-sd (reg r) (memory l) off = record { no_labels = refl; no_targets = refl }
IsPlain-sd (memory k) (reg q) off = record { no_labels = refl; no_targets = refl }
IsPlain-sd (memory k) (memory l) off = record { no_labels = refl; no_targets = refl }

pub IsPlain-i_type :
    (op : IOp) (dst src : Loc) (imm : ℤ) → IsPlain (symb_emit_i_type op dst src imm)
unfolding to_reg symb_emit_i_type
IsPlain-i_type op (reg r) (reg q) imm = record { no_labels = refl; no_targets = refl }
IsPlain-i_type op (reg r) (memory l) imm = record { no_labels = refl; no_targets = refl }
IsPlain-i_type op (memory k) (reg q) imm = record { no_labels = refl; no_targets = refl }
IsPlain-i_type op (memory k) (memory l) imm = record { no_labels = refl; no_targets = refl }

IsPlain-pseudo : (op : Pseudo) (dst src : Loc) → IsPlain (symb_emit_pseudo_type op dst src)
unfolding to_reg symb_emit_pseudo_type
IsPlain-pseudo op (reg r) (reg q) = record { no_labels = refl; no_targets = refl }
IsPlain-pseudo op (reg r) (memory l) = record { no_labels = refl; no_targets = refl }
IsPlain-pseudo op (memory k) (reg q) = record { no_labels = refl; no_targets = refl }
IsPlain-pseudo op (memory k) (memory l) = record { no_labels = refl; no_targets = refl }

IsPlain-r_type : (op : ROp) (dst a b : Loc) → IsPlain (symb_emit_r_type op dst a b)
unfolding to_reg symb_emit_r_type
IsPlain-r_type op (reg r) (reg q) (reg p) = record { no_labels = refl; no_targets = refl }
IsPlain-r_type op (reg r) (reg q) (memory n) = record { no_labels = refl; no_targets = refl }
IsPlain-r_type op (reg r) (memory l) (reg p) = record { no_labels = refl; no_targets = refl }
IsPlain-r_type op (reg r) (memory l) (memory n) = record { no_labels = refl; no_targets = refl }
IsPlain-r_type op (memory k) (reg q) (reg p) = record { no_labels = refl; no_targets = refl }
IsPlain-r_type op (memory k) (reg q) (memory n) = record { no_labels = refl; no_targets = refl }
IsPlain-r_type op (memory k) (memory l) (reg p) = record { no_labels = refl; no_targets = refl }
IsPlain-r_type op (memory k) (memory l) (memory n) = record { no_labels = refl; no_targets = refl }

IsPlain-op : (op : BinopKind) (dst a b : Loc) → IsPlain (emit_op op dst a b)
unfolding emit_op symb_emit_eq symb_emit_neq symb_emit_sle symb_emit_sge
IsPlain-op BinopKind.add dst a b = IsPlain-r_type _ dst a b
IsPlain-op BinopKind.sub dst a b = IsPlain-r_type _ dst a b
IsPlain-op BinopKind.mul dst a b = IsPlain-r_type _ dst a b
IsPlain-op BinopKind.div dst a b = IsPlain-r_type _ dst a b
IsPlain-op BinopKind.rem dst a b = IsPlain-r_type _ dst a b
IsPlain-op BinopKind.less_than dst a b = IsPlain-r_type _ dst a b
IsPlain-op BinopKind.greater_than dst a b = IsPlain-r_type _ dst a b
IsPlain-op BinopKind.and dst a b = IsPlain-r_type _ dst a b
IsPlain-op BinopKind.or dst a b = IsPlain-r_type _ dst a b
IsPlain-op BinopKind.less_equal dst a b =
    IsPlain-append _ _ (IsPlain-r_type _ dst a b) (IsPlain-i_type _ dst dst _)
IsPlain-op BinopKind.greater_equal dst a b =
    IsPlain-append _ _ (IsPlain-r_type _ dst a b) (IsPlain-i_type _ dst dst _)
IsPlain-op BinopKind.equal dst a b =
    IsPlain-append _ _ (IsPlain-r_type _ dst b a) (IsPlain-pseudo _ dst dst)
IsPlain-op BinopKind.not_equal dst a b =
    IsPlain-append _ _ (IsPlain-r_type _ dst b a) (IsPlain-pseudo _ dst dst)

pub IsPlain-binop : (op : BinopKind) (a b dst : Loc) → IsPlain (binop_code op a b dst)
unfolding binop_code
IsPlain-binop op a b dst = IsPlain-append _ _ (IsPlain-i_type _ a a _) (
    IsPlain-append _ _ (IsPlain-i_type _ b b _) (
      IsPlain-append _ _ (IsPlain-op op dst a b)
        (IsPlain-append _ _ (IsPlain-i_type _ dst dst _) (IsPlain-i_type _ dst dst _))))
