-- ===== src/Compiler/StackExtends.antt =====
-- What the code of the instructions on the symbolic stack leaves as it was: comp/src/emit.cpp.
use lama_rv_workshop.Base.{
  ℕ, ltb, refl, Bool, true, false, Option, none, some, List, [], ◌∷◌, ◌++◌, arith, sym,
}
use mathlib.Core.List.{append-nil}
use lama_rv_workshop.Base.Int.{ℤ, pos}
use lama_rv_workshop.Base.Word.{to_word}
use lama_rv_workshop.Base.Outcome.{ok, fault, ◌>>=◌, Post, Post-bind, Post-weaken, Post-if}
use lama_rv_workshop.Compiler.Asm.{Asm, Label, zero_reg, temp1, srai, i_type, li, sd, cj, fp}
use lama_rv_workshop.Compiler.Stack.{Loc, Stack, reg, memory, alloc}
use lama_rv_workshop.Compiler.Buffer.{slot_offset, to_reg, symb_emit_mv_from}
use lama_rv_workshop.Compiler.Binop.{BinopKind, emit_binop}
use lama_rv_workshop.Compiler.Instruction.{Location}
use lama_rv_workshop.Compiler.Lines.{
  IsPlain, IsPlain-append, IsPlain-mv_to, IsPlain-mv_from, IsPlain-mv, IsPlain-ld, IsPlain-sd,
  IsPlain-i_type, IsPlain-binop,
}
use lama_rv_workshop.Compiler.State.{FrameInfo, Compiler, emit, add_jump_target}
use lama_rv_workshop.Compiler.Emit.{
  emit_alloc, emit_const, emit_store_stack, emit_conditional_jump, emit_swap, emit_drop,
  emit_duplicate, emit_load_in, emit_load, emit_store, emit_binop_inst, load_arg, store_arg,
  below_size, below_eight, arg_register,
}
use lama_rv_workshop.Compiler.Extends.{
  Extends, Extends-plain, Extends-refl, Extends-weaken, jump-Extends,
}
use lama_rv_workshop.Compiler.CallExtends.{Extends-emit, Post-pop, Post-peek}

-- Plain lines, where an address may be added.
pub one :
    (c : Compiler) (top : Stack) (lines : List Asm)
    → IsPlain lines
    → Extends 1 c (emit lines (record c { top = top }))
one c top lines p = Extends-weaken 0 1 c _ (Extends-emit c top lines p) (omega arith)

pub alloc-Extends :
    (lines : Loc → List Asm) (c : Compiler)
    → ((l : Loc) → IsPlain (lines l))
    → Extends 0 c (emit_alloc lines c)
unfolding alloc
alloc-Extends lines c p = Extends-emit c _ _ (p _)

top-Extends : (c : Compiler) (top : Stack) → Extends 1 c (record c { top = top })
top-Extends c top =
    Extends-weaken 0 1 c _
      (Extends-plain c (record c { top = top }) [] (record { no_labels = refl; no_targets = refl })
        (sym (append-nil c.out)) refl refl)
      (omega arith)

pub emit_const-Extends : (value : ℤ) (c : Compiler) → Extends 1 c (emit_const value c)
unfolding emit_const alloc
emit_const-Extends value c = Extends-weaken 0 1 c _ (go (alloc c.top).0) (omega arith)
  where
    go :
        (l : Loc)
        → Extends 0 c (elim l [
          | memory number ↦
              emit
                (li temp1 value ∷ sd temp1 fp (slot_offset number) ∷ [])
                (record c { top = (alloc c.top).1 })
          | reg number ↦ emit (li number value ∷ []) (record c { top = (alloc c.top).1 })
        ])
    go (reg number) = Extends-emit c _ _ (record { no_labels = refl; no_targets = refl })
    go (memory number) = Extends-emit c _ _ (record { no_labels = refl; no_targets = refl })

pub emit_store_stack-Extends : (c : Compiler) → Post (Extends 1 c) (emit_store_stack c)
unfolding emit_store_stack
emit_store_stack-Extends c =
    Post-pop _ c.top _ (λ r. Post-pop _ r.1 _ (λ q. one c _ _ (IsPlain-sd r.0 q.0 _)))

pub emit_conditional_jump-Extends :
    (t : ℕ) (on_zero : Bool) (c : Compiler) → Post (Extends 1 c) (emit_conditional_jump t on_zero c)
unfolding emit_conditional_jump to_reg
emit_conditional_jump-Extends t on_zero c = Post-pop _ c.top _ (λ r. go r.0 r.1)
  where
    go :
        (l : Loc) (top : Stack)
        → Post (Extends 1 c) (
            add_jump_target t top (
              emit
                ((to_reg l temp1).0
                  ++ (i_type srai (to_reg l temp1).1 (to_reg l temp1).1 (pos 1)
                      ∷ cj on_zero (to_reg l temp1).1 zero_reg (Label.ip t)
                      ∷ []))
                (record c { top = top })))
    go (reg number) top = jump-Extends t top c _ _ refl refl refl refl refl
    go (memory number) top = jump-Extends t top c _ _ refl refl refl refl refl

pub emit_swap-Extends : (c : Compiler) → Post (Extends 1 c) (emit_swap c)
unfolding emit_swap
emit_swap-Extends c = Post-pop _ c.top _ (λ r. Post-peek _ r.1 _ (λ b. one c _ _ (
    IsPlain-append _ _ (IsPlain-mv_to _ r.0)
      (IsPlain-append _ _ (IsPlain-mv r.0 b) (IsPlain-mv_from b _)))))

pub emit_drop-Extends : (c : Compiler) → Post (Extends 1 c) (emit_drop c)
unfolding emit_drop
emit_drop-Extends c = Post-pop _ c.top _ (λ r. top-Extends c r.1)

pub emit_duplicate-Extends : (b : Bool) (c : Compiler) → Post (Extends 1 c) (emit_duplicate b c)
unfolding emit_duplicate alloc
emit_duplicate-Extends true c = Post-peek _ c.top _ (λ src. one c _ _ (IsPlain-mv _ src))
emit_duplicate-Extends false c = Post-peek _ _ _ (λ src. one c _ _ (IsPlain-mv _ src))

pub emit_binop_inst-Extends :
    (op : Option BinopKind) (c : Compiler) → Post (Extends 1 c) (emit_binop_inst op c)
unfolding emit_binop_inst emit_binop alloc
emit_binop_inst-Extends (some op) c =
    Post-bind (Extends 1 c) (emit_binop op c.top) _
      (Post-pop _ c.top _ (λ r. Post-pop _ r.1 _ (λ q. one c _ _ (IsPlain-binop op q.0 r.0 _))))
emit_binop_inst-Extends none c = Post-pop _ c.top _ (λ r. Post-pop _ r.1 _ (λ q. one c _ _ (
    IsPlain-append _ _ (IsPlain-i_type _ _ _ _) (
      IsPlain-append _ _ (IsPlain-i_type _ _ _ _)
        (IsPlain-append _ _ (IsPlain-i_type _ _ _ _) (IsPlain-i_type _ _ _ _))))))

moved_arg :
    (argno : ℕ) (loc : Loc)
    → Post IsPlain (arg_register argno >>= λ r. ok (symb_emit_mv_from loc r))
moved_arg argno loc =
    Post-bind IsPlain (arg_register argno) _
      (Post-if _ (ltb argno 8) _ _ (IsPlain-mv_from loc _) tt)

load_arg-IsPlain : (index : ℤ) (dst : Loc) → Post IsPlain (load_arg index dst)
unfolding load_arg
load_arg-IsPlain index dst =
    Post-if IsPlain (below_eight index) _ _ (moved_arg (to_word index) dst) (IsPlain-ld dst _ _)

store_arg-IsPlain : (index : ℤ) (value : Loc) → Post IsPlain (store_arg index value)
unfolding store_arg
store_arg-IsPlain index value =
    Post-if IsPlain (below_eight index) _ _ (moved_arg (to_word index) value) (IsPlain-sd value _ _)

arg_case :
    (frame : FrameInfo) (index : ℤ) (c : Compiler)
    → Post (Extends 1 c) (emit_load_in frame Location.arg index c)
unfolding emit_load_in alloc
arg_case frame index c =
    Post-if _ (below_size index frame.args_count) _ _
      (Post-bind (Extends 1 c) (load_arg index _) _ (
        Post-weaken IsPlain _ (load_arg index _) (λ lines plain. one c _ _ plain)
          (load_arg-IsPlain index _)))
      tt

emit_load_in-Extends :
    (frame : FrameInfo) (kind : Location) (index : ℤ) (c : Compiler)
    → Post (Extends 1 c) (emit_load_in frame kind index c)
unfolding emit_load_in alloc
emit_load_in-Extends frame Location.local index c =
    Post-if _ (below_size index frame.locals_count) _ _ (one c _ _ (IsPlain-ld _ _ _)) tt
emit_load_in-Extends frame Location.global index c = arg_case frame index c
emit_load_in-Extends frame Location.arg index c = arg_case frame index c
emit_load_in-Extends frame Location.captured index c = arg_case frame index c
emit_load_in-Extends frame Location.other index c = arg_case frame index c

framed-Extends :
    (f : Option FrameInfo) (kind : Location) (index : ℤ) (c : Compiler)
    → Post (Extends 1 c) (elim f [ none ↦ fault | some frame ↦ emit_load_in frame kind index c ])
framed-Extends none kind index c = tt
framed-Extends (some frame) kind index c = emit_load_in-Extends frame kind index c

pub emit_load-Extends :
    (kind : Location) (index : ℤ) (c : Compiler) → Post (Extends 1 c) (emit_load kind index c)
unfolding emit_load alloc
emit_load-Extends Location.global index c =
    Post-if _ (below_size index c.globals_count) _ _ (one c _ _ (IsPlain-ld _ _ _)) tt
emit_load-Extends Location.local index c = framed-Extends c.current_frame Location.local index c
emit_load-Extends Location.arg index c = framed-Extends c.current_frame Location.arg index c
emit_load-Extends Location.captured index c = tt
emit_load-Extends Location.other index c = Extends-weaken 0 1 c c (Extends-refl c) (omega arith)

pub emit_store-Extends :
    (kind : Location) (index : ℤ) (c : Compiler) → Post (Extends 1 c) (emit_store kind index c)
unfolding emit_store
emit_store-Extends Location.global index c =
    Post-peek _ c.top _ (λ v. one c c.top _ (IsPlain-sd v _ _))
emit_store-Extends Location.local index c =
    Post-peek _ c.top _ (λ v. one c c.top _ (IsPlain-sd v _ _))
emit_store-Extends Location.arg index c = Post-peek _ c.top _ (λ v.
    Post-bind (Extends 1 c) (store_arg index v) _ (
      Post-weaken IsPlain _ (store_arg index v) (λ lines plain. one c c.top _ plain)
        (store_arg-IsPlain index v)))
emit_store-Extends Location.captured index c = Post-peek _ c.top _ (λ v. tt)
emit_store-Extends Location.other index c =
    Post-peek _ c.top _ (λ v. Extends-weaken 0 1 c c (Extends-refl c) (omega arith))
