-- ===== src/Compiler/CallExtends.antt =====
-- What a call leaves as it was: `compile_call` of comp/include/compiler.h.
use lama_rv_workshop.Base.{
  ℕ, zero, suc, ◌+◌, ◌%◌, ltb, refl, Bool, true, false, Option, none, some, List, [], ◌∷◌, ◌++◌,
  arith,
}
use lama_rv_workshop.Base.Int.{ℤ}
use lama_rv_workshop.Base.Word.{word_mod}
use lama_rv_workshop.Base.Outcome.{Outcome, fault, ◌>>=◌, Post, Post-bind, Post-weaken, Post-if}
use lama_rv_workshop.Compiler.Asm.{Asm, Label, call}
use lama_rv_workshop.Compiler.Stack.{Loc, Stack, reg, memory, alloc, pop, peek}
use lama_rv_workshop.Compiler.Buffer.{to_reg}
use lama_rv_workshop.Compiler.Lines.{IsPlain, IsPlain-append, IsPlain-mv_to, IsPlain-mv_from}
use lama_rv_workshop.Compiler.State.{FrameInfo, Compiler, emit, add_jump_target}
use lama_rv_workshop.Compiler.Call.{
  raise_sp, lower_sp, load_args, push_loc, push_args, emit_call, optional, call_prologue,
  call_epilogue, add_arg, load_opt_arg, compile_call_in, count_args, compile_call,
}
use lama_rv_workshop.Compiler.Extends.{
  Extends, Extends-plain, Extends-refl, Extends-weaken, Extends-trans, Extends-then, Extends-bind,
  Extends-lines, Known, add_jump_target-Known,
}

-- Lines written with another top.
pub Extends-emit :
    (c : Compiler) (top : Stack) (lines : List Asm)
    → IsPlain lines
    → Extends 0 c (emit lines (record c { top = top }))
Extends-emit c top lines p =
    Extends-plain c (emit lines (record c { top = top })) lines p refl refl refl

-- A place is taken from the symbolic stack, or there is none.
pub Post-pop {ℓ} :
    {Y : Type ℓ} (P : Y → Type 0) (s : Stack) (next : Loc × Stack → Outcome Y)
    → ((r : Loc × Stack) → Post P (next r))
    → Post P (pop s >>= next)
unfolding pop
Post-pop P zero next h = tt
Post-pop P (suc n) next h = h _

pub Post-peek {ℓ} :
    {Y : Type ℓ} (P : Y → Type 0) (s : Stack) (next : Loc → Outcome Y)
    → ((r : Loc) → Post P (next r))
    → Post P (peek s >>= next)
unfolding peek
Post-peek P zero next h = tt
Post-peek P (suc n) next h = h _

load_args-Extends : (lowest n : ℕ) (c : Compiler) → Post (Extends 0 c) (load_args lowest n c)
unfolding load_args
load_args-Extends lowest zero c = Extends-refl c
load_args-Extends lowest (suc n) c = Post-pop _ c.top _ (λ r.
    Extends-then 0 0 c _ _ (Extends-emit c r.1 _ (IsPlain-mv_to _ r.0))
      (load_args-Extends lowest n _))

IsPlain-push_loc : (loc : Loc) → IsPlain (push_loc loc)
unfolding to_reg
IsPlain-push_loc (reg r) = record { no_labels = refl; no_targets = refl }
IsPlain-push_loc (memory k) = record { no_labels = refl; no_targets = refl }

push_args-Extends : (n : ℕ) (c : Compiler) → Post (Extends 0 c) (push_args n c)
unfolding push_args
push_args-Extends zero c = Extends-refl c
push_args-Extends (suc n) c = Post-pop _ c.top _ (λ r.
    Extends-then 0 0 c _ _ (Extends-emit c r.1 _ (IsPlain-push_loc r.0)) (push_args-Extends n _))

plain_call : (c : Compiler) (lines : List Asm) → IsPlain lines → Extends 1 c (emit lines c)
plain_call c lines p = Extends-weaken 0 1 c _ (Extends-emit c c.top lines p) (omega arith)

emit_call-Extends : (callee : Label) (c : Compiler) → Post (Extends 1 c) (emit_call callee c)
unfolding emit_call
emit_call-Extends (Label.ip t) c = Post-bind (Extends 1 c) (add_jump_target t 0 c) _ (
    Post-weaken (λ c1. Extends 1 c c1 × Known c1 t)
      (λ c1. Extends 1 c (emit (call (Label.ip t) ∷ []) c1)) (add_jump_target t 0 c)
      (λ c1 h. Extends-trans 1 0 c c1 _ h.0 (Extends-lines c1 _ _ refl (h.1, tt) refl refl refl))
      (add_jump_target-Known t 0 c))
emit_call-Extends (Label.function name) c =
    plain_call c _ (record { no_labels = refl; no_targets = refl })
emit_call-Extends (Label.string_at n) c =
    plain_call c _ (record { no_labels = refl; no_targets = refl })
emit_call-Extends Label.fname c = plain_call c _ (record { no_labels = refl; no_targets = refl })

IsPlain-optional : (b : Bool) (words : ℕ) → IsPlain (optional b (raise_sp words))
IsPlain-optional true words = record { no_labels = refl; no_targets = refl }
IsPlain-optional false words = record { no_labels = refl; no_targets = refl }

IsPlain-lower : (b : Bool) → IsPlain (optional b (lower_sp 1))
IsPlain-lower true = record { no_labels = refl; no_targets = refl }
IsPlain-lower false = record { no_labels = refl; no_targets = refl }

IsPlain-prologue : (spilled : ℕ) (v : Option ℤ) → IsPlain (call_prologue spilled ++ load_opt_arg v)
IsPlain-prologue spilled none = record { no_labels = refl; no_targets = refl }
IsPlain-prologue spilled (some v) = record { no_labels = refl; no_targets = refl }

IsPlain-epilogue : (spilled : ℕ) → IsPlain (call_epilogue spilled)
IsPlain-epilogue spilled = record { no_labels = refl; no_targets = refl }

compile_call_in-Extends :
    (frame : FrameInfo) (callee : Label) (argc : ℕ) (opt_arg : Option ℤ) (c : Compiler)
    → Post (Extends 1 c) (compile_call_in frame callee argc opt_arg c)
unfolding compile_call_in alloc
compile_call_in-Extends frame callee argc opt_arg c =
    Extends-then 0 1 c _ _ (Extends-emit c c.top _ (IsPlain-prologue _ opt_arg)) (
      Extends-bind 0 1 _ _ _ (load_args-Extends _ _ _) (λ c2.
        Extends-then 0 1 c2 _ _ (Extends-emit c2 c2.top _ (IsPlain-lower _)) (
          Extends-bind 0 1 _ _ _ (push_args-Extends _ _) (λ c3.
            Extends-bind 1 0 _ _ _ (emit_call-Extends callee c3) (λ c4. Extends-emit c4 _ _ (
              IsPlain-append _ _ (IsPlain-optional _ _) (
                IsPlain-append _ _ (IsPlain-optional _ 1)
                  (IsPlain-append _ _ (IsPlain-mv_from _ 10) (IsPlain-epilogue _)))))))))

count_args-Extends :
    (frame : FrameInfo) (callee : Label) (argc : ℕ) (opt_arg : Option ℤ) (c : Compiler)
    → Post (Extends 1 c) (count_args frame callee argc opt_arg c)
unfolding count_args
count_args-Extends frame callee argc opt_arg c =
    let total = (argc + add_arg opt_arg) % word_mod in
    Post-if (Extends 1 c) (ltb total (add_arg opt_arg)) fault _ tt
      (compile_call_in-Extends frame callee total opt_arg c)

pub compile_call-Extends :
    (callee : Label) (argc : ℕ) (opt_arg : Option ℤ) (c : Compiler)
    → Post (Extends 1 c) (compile_call callee argc opt_arg c)
unfolding compile_call
compile_call-Extends callee argc opt_arg c = go c.current_frame
  where
    go :
        (f : Option FrameInfo)
        → Post
            (Extends 1 c)
            (elim f [ none ↦ fault | some frame ↦ count_args frame callee argc opt_arg c ])
    go none = tt
    go (some frame) = count_args-Extends frame callee argc opt_arg c
