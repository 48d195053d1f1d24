-- ===== src/Compiler/CodeExtends.antt =====
-- What the code of each instruction leaves as it was: comp/src/emit.cpp and
-- comp/include/instructions.h.
use lama_rv_workshop.Base.{
  ℕ, zero, suc, ◌+◌, refl, ◌==◌, if◌then◌else◌, Bool, true, false, Option, none, some, List, [],
  ◌∷◌, ◌++◌, arith,
}
use lama_rv_workshop.Base.Int.{ℤ}
use lama_rv_workshop.Base.Outcome.{ok, exited, ◌>>=◌, Post, Post-if, Post-any}
use lama_rv_workshop.Compiler.Asm.{
  Asm, Label, fname, Register, ret, raw, saved_regs, sd, ld, fp, sp,
}
use lama_rv_workshop.Compiler.Stack.{Loc, pop}
use lama_rv_workshop.Compiler.Buffer.{slot_offset, emit_mv, symb_emit_li, symb_emit_mv_to}
use lama_rv_workshop.Runtime.TagHash.{chars, char_pos, sar6, shift_in, strncmp_eq}
use lama_rv_workshop.Compiler.TagHash.{static_hash_loop, static_de_hash_loop, static_tag_hash}
use lama_rv_workshop.Compiler.Instruction.{Inst, to_int, box_size}
use lama_rv_workshop.Compiler.Lines.{IsPlain, IsPlain-append, IsPlain-mv_to, IsPlain-la, IsPlain-li}
use lama_rv_workshop.Compiler.State.{FrameInfo, Compiler, emit}
use lama_rv_workshop.Compiler.Emit.{
  emit_alloc, emit_sexpression, emit_begin, emit_end, emit_tag, emit_fail, emit_code, save_regs,
  restore_regs, is_main, premain, name_label,
}
use lama_rv_workshop.Compiler.Extends.{
  Extends, Extends-plain, Extends-weaken, Extends-trans, Extends-then, Extends-bind, jump-Extends,
}
use lama_rv_workshop.Compiler.CallExtends.{Extends-emit, Post-pop, compile_call-Extends}
use lama_rv_workshop.Compiler.StackExtends.{
  alloc-Extends, emit_binop_inst-Extends, emit_conditional_jump-Extends, emit_const-Extends,
  emit_drop-Extends, emit_duplicate-Extends, emit_load-Extends, emit_store-Extends,
  emit_store_stack-Extends, emit_swap-Extends, one,
}

static_hash_loop_ends : (n : ℕ) (p : List ℕ) (h : ℕ) → Post (λ _. Unit) (static_hash_loop n p h)
unfolding static_hash_loop
static_hash_loop_ends zero p h = tt
static_hash_loop_ends (suc n) [] h = tt
static_hash_loop_ends (suc n) (x ∷ p) h =
    go (λ place. static_hash_loop_ends n p _) (char_pos chars x 0)
  where
    go :
        (rest : (place : ℕ) → Post (λ _. Unit) (static_hash_loop n p (shift_in h place)))
        (r : Option ℕ)
        → Post
            (λ _. Unit)
            (elim r [ none ↦ exited | some place ↦ static_hash_loop n p (shift_in h place) ])
    go rest none = tt
    go rest (some place) = rest place

static_de_hash_loop_ends :
    (room n : ℕ) (acc : List ℕ) → Post (λ _. Unit) (static_de_hash_loop room n acc)
unfolding static_de_hash_loop
static_de_hash_loop_ends zero n acc = Post-if _ (n == 0) _ _ tt tt
static_de_hash_loop_ends (suc room) n acc =
    Post-if _ (n == 0) _ _ tt (static_de_hash_loop_ends room (sar6 n) _)

static_tag_hash_ends : (s : List ℕ) → Post (λ _. Unit) (static_tag_hash s)
unfolding static_tag_hash
static_tag_hash_ends s = Post-any _ (static_hash_loop 10 s 0) _ (static_hash_loop_ends 10 s 0) (λ h.
    Post-any _ (static_de_hash_loop 10 h []) _ (static_de_hash_loop_ends 10 h [])
      (λ name. Post-if _ (strncmp_eq 10 s name) _ _ tt tt))

li-Extends : (v : ℤ) (c : Compiler) → Extends 0 c (emit_alloc (λ loc. symb_emit_li loc v) c)
li-Extends v c = alloc-Extends _ c (λ l. IsPlain-li l v)

emit_sexpression-Extends :
    (name : List ℕ) (size : ℕ) (c : Compiler) → Post (Extends 1 c) (emit_sexpression name size c)
unfolding emit_sexpression
emit_sexpression-Extends name size c =
    Post-any (Extends 1 c) (static_tag_hash name) _ (static_tag_hash_ends name)
      (λ hash. Extends-then 0 1 c _ _ (li-Extends (to_int hash) c) (compile_call-Extends _ _ _ _))

emit_tag-Extends :
    (name : List ℕ) (size : ℕ) (c : Compiler) → Post (Extends 1 c) (emit_tag name size c)
unfolding emit_tag
emit_tag-Extends name size c =
    Post-any (Extends 1 c) (static_tag_hash name) _ (static_tag_hash_ends name) (λ hash.
      Extends-then 0 1 c _ _
        (Extends-trans 0 0 c _ _ (li-Extends (to_int hash) c)
          (li-Extends (to_int (box_size size)) _))
        (compile_call-Extends _ _ _ _))

emit_fail-Extends : (line col : ℕ) (c : Compiler) → Post (Extends 1 c) (emit_fail line col c)
unfolding emit_fail
emit_fail-Extends line col c =
    Extends-then 0 1 c _ _
      (Extends-trans 0 0 c _ _ (alloc-Extends _ c (λ l. IsPlain-la l fname)) (
        Extends-trans 0 0 _ _ _ (li-Extends (to_int (box_size line)) _)
          (li-Extends (to_int (box_size col)) _)))
      (compile_call-Extends _ _ _ _)

IsPlain-save : (i locc : ℕ) (rs : List Register) → IsPlain (save_regs i locc rs)
IsPlain-save i locc [] = record { no_labels = refl; no_targets = refl }
IsPlain-save i locc (r ∷ rs) =
    IsPlain-append (sd r sp (slot_offset (i + locc)) ∷ []) _
      (record { no_labels = refl; no_targets = refl }) (IsPlain-save (i + 1) locc rs)

IsPlain-restore : (i locc : ℕ) (rs : List Register) → IsPlain (restore_regs i locc rs)
IsPlain-restore i locc [] = record { no_labels = refl; no_targets = refl }
IsPlain-restore i locc (r ∷ rs) =
    IsPlain-append (ld r sp (slot_offset (i + locc)) ∷ []) _
      (record { no_labels = refl; no_targets = refl }) (IsPlain-restore (i + 1) locc rs)

IsPlain-name : (id : Label) → IsPlain (name_label id)
IsPlain-name (Label.ip t) = record { no_labels = refl; no_targets = refl }
IsPlain-name (Label.function name) = record { no_labels = refl; no_targets = refl }
IsPlain-name (Label.string_at n) = record { no_labels = refl; no_targets = refl }
IsPlain-name Label.fname = record { no_labels = refl; no_targets = refl }

emit_begin-Extends :
    (id : Label) (argc locc : ℕ) (c : Compiler) → Post (Extends 1 c) (emit_begin id argc locc c)
unfolding emit_begin
emit_begin-Extends id argc locc c =
    Extends-bind 1 0 c _ _
      (Post-if (Extends 1 c) (is_main id) _ _
        (Extends-then 0 1 c _ _ (Extends-trans 0 0 c _ _ framed premain_lines)
          (compile_call-Extends _ _ _ _))
        (Extends-weaken 0 1 c _ framed (omega arith)))
      (λ c1. Extends-emit c1 c1.top _ (
        IsPlain-append _ _ (IsPlain-save 1 locc saved_regs)
          (record { no_labels = refl; no_targets = refl })))
  where
    frame : Option FrameInfo
    frame = some (record { function_name = id; locals_count = locc; args_count = argc })

    framed : Extends 0 c (record (emit (name_label id) c) { current_frame = frame })
    framed = Extends-plain c _ _ (IsPlain-name id) refl refl refl

    premain_lines :
        Extends 0
          (record (emit (name_label id) c) { current_frame = frame })
          (emit premain (record (emit (name_label id) c) { current_frame = frame }))
    premain_lines = Extends-emit _ c.top _ (record { no_labels = refl; no_targets = refl })

emit_end-Extends : (c : Compiler) → Post (Extends 1 c) (emit_end c)
unfolding emit_end
emit_end-Extends c = go c.current_frame
  where
    lines : FrameInfo → Loc → List Asm
    lines frame loc =
        symb_emit_mv_to 10 loc
        ++ (emit_mv sp fp
            ∷ (restore_regs 1 frame.locals_count saved_regs
                ++ ((if is_main frame.function_name then raw "srai a0, a0, 1" ∷ [] else [])
                    ++ (ret ∷ []))))

    plain_last : (b : Bool) → IsPlain ((if b then raw "srai a0, a0, 1" ∷ [] else []) ++ (ret ∷ []))
    plain_last true = record { no_labels = refl; no_targets = refl }
    plain_last false = record { no_labels = refl; no_targets = refl }

    go :
        (f : Option FrameInfo)
        → Post (Extends 1 c) (elim f [
          | none ↦ exited
          | some frame ↦ do
            (loc, top) ← pop c.top
            ok (emit (lines frame loc) (record c { top = top }))
        ])
    go none = tt
    go (some frame) = Post-pop _ c.top _ (λ r. one c _ _ (
        IsPlain-append _ _ (IsPlain-mv_to 10 r.0) (
          IsPlain-append (emit_mv sp fp ∷ []) _ (record { no_labels = refl; no_targets = refl })
            (IsPlain-append _ _ (IsPlain-restore 1 frame.locals_count saved_regs) (plain_last _)))))

-- The code of an instruction is written behind what is there and defines no label of an address;
-- the addresses that are done stay the same, those to do stay and grow by one at most, and every
-- address that the code goes to is done or to do.
pub emit_code-Extends :
    (peek_first : Bool) (inst : Inst) (c : Compiler)
    → Post (Extends 1 c) (emit_code peek_first inst c)
unfolding emit_code
emit_code-Extends b (Inst.const value) c = emit_const-Extends value c
emit_code-Extends b (Inst.string ind) c =
    Extends-then 0 1 c _ _ (alloc-Extends _ c (λ l. IsPlain-la l (Label.string_at ind)))
      (compile_call-Extends _ _ _ _)
emit_code-Extends b (Inst.sexpression name size) c = emit_sexpression-Extends name size c
emit_code-Extends b Inst.store_stack c = emit_store_stack-Extends c
emit_code-Extends b Inst.store_array c = compile_call-Extends _ _ _ _
emit_code-Extends b (Inst.jump target) c = jump-Extends target c.top c _ _ refl refl refl refl refl
emit_code-Extends b (Inst.conditional_jump target on_zero) c =
    emit_conditional_jump-Extends target on_zero c
emit_code-Extends b Inst.return c = tt
emit_code-Extends b Inst.drop c = emit_drop-Extends c
emit_code-Extends b Inst.duplicate c = emit_duplicate-Extends b c
emit_code-Extends b Inst.swap c = emit_swap-Extends c
emit_code-Extends b Inst.elem c = compile_call-Extends _ _ _ _
emit_code-Extends b Inst.end c = emit_end-Extends c
emit_code-Extends b (Inst.begin id argc locc) c = emit_begin-Extends id argc locc c
emit_code-Extends b (Inst.cbegin argc locc) c = tt
emit_code-Extends b (Inst.closure entry captured) c = tt
emit_code-Extends b (Inst.call_closure argc) c = tt
emit_code-Extends b (Inst.call callee argc) c = compile_call-Extends _ _ _ _
emit_code-Extends b (Inst.tag name size) c = emit_tag-Extends name size c
emit_code-Extends b (Inst.array size) c = tt
emit_code-Extends b (Inst.fail line col) c = emit_fail-Extends line col c
emit_code-Extends b (Inst.line number) c =
    one c c.top _ (record { no_labels = refl; no_targets = refl })
emit_code-Extends b (Inst.binop op) c = emit_binop_inst-Extends op c
emit_code-Extends b (Inst.load entry) c = emit_load-Extends entry.kind entry.index c
emit_code-Extends b (Inst.load_array index kind) c = tt
emit_code-Extends b (Inst.store entry) c = emit_store-Extends entry.kind entry.index c
emit_code-Extends b (Inst.pattern_inst kind) c = tt
emit_code-Extends b Inst.builtin_read c = compile_call-Extends _ _ _ _
emit_code-Extends b Inst.builtin_write c = compile_call-Extends _ _ _ _
emit_code-Extends b Inst.builtin_length c = compile_call-Extends _ _ _ _
emit_code-Extends b Inst.builtin_string c = compile_call-Extends _ _ _ _
emit_code-Extends b (Inst.builtin_array len) c = compile_call-Extends _ _ _ _
