-- ===== src/Compiler/Call/Balance.antt =====
-- How far a call moves the stack pointer: `compile_call` of comp/include/compiler.h.
use lama_rv_workshop.Base.{
  ℕ, ◌+◌, ◌-◌, ◌*◌, ◌%◌, ◌≡◌, refl, ◌==◌, ltb, Bool, true, false, Bool-cases, Option, none, some,
  List, [], ◌∷◌, ◌++◌, arith, ap, ◌∙◌, inl, inr,
}
use Prim.Native.Nat.{min}
use mathlib.Core.List.{append_assoc}
use lama_rv_workshop.Base.Int.{ℤ}
use lama_rv_workshop.Base.Word.{word_mod}
use lama_rv_workshop.Base.Outcome.{ok, fault, Post, Post-bind, Post-weaken, Post-if}
use lama_rv_workshop.Compiler.Asm.{Asm, comment, expecting, Label}
use lama_rv_workshop.Compiler.Stack.{Loc, alloc, spilled_count}
use lama_rv_workshop.Compiler.Buffer.{symb_emit_mv_from}
use lama_rv_workshop.Compiler.State.{
  FrameInfo, Compiler, emit, add_jump_target, emplace_todo, check_eq, find,
}
use lama_rv_workshop.Compiler.Call.{
  raise_sp, lower_sp, load_args, push_args, emit_call, optional, call_prologue, call_epilogue,
  add_arg, load_opt_arg, compile_call_in, count_args, compile_call,
}
use lama_rv_workshop.Compiler.Call.Moves.{
  Moves, Moves-level, Moves-refl, Moves-trans, falls, falls-append, IsLevel-mv_from,
  load_args-Moves, push_args-Moves, rises, rises-append, slot_fall,
}

check_eq-Moves : (a b : ℕ) (c c1 : Compiler) → Moves 0 0 c c1 → Post (Moves 0 0 c) (check_eq a b c1)
check_eq-Moves a b c c1 m = Post-if (Moves 0 0 c) (a == b) _ _ m tt

add_jump_target-Moves :
    (t height : ℕ) (c : Compiler) → Post (Moves 0 0 c) (add_jump_target t height c)
unfolding add_jump_target emplace_todo
add_jump_target-Moves t height c = go (find t c.done)
  where
    noted : Moves 0 0 c (emit (comment (expecting height t) ∷ []) c)
    noted = Moves-level c c.top _ (record { no_ups = refl; no_downs = refl })

    later :
        (r : Option ℕ)
        → Post (Moves 0 0 c) (elim r [
          | none ↦ ok (record c {
            out = c.out ++ (comment (expecting height t) ∷ []);
            todo = (t, height) ∷ c.todo;
          })
          | some h ↦ check_eq h height (emit (comment (expecting height t) ∷ []) c)
        ])
    later none = record { lines = _; written = refl; ups = refl; downs = refl }
    later (some h) = check_eq-Moves h height c _ noted

    go :
        (r : Option ℕ)
        → Post (Moves 0 0 c) (elim r [
          | none ↦ emplace_todo t height (emit (comment (expecting height t) ∷ []) c)
          | some h ↦ check_eq h height c
        ])
    go none = later (find t c.todo)
    go (some h) = check_eq-Moves h height c c (Moves-refl c)

emit_call-Moves : (callee : Label) (c : Compiler) → Post (Moves 0 0 c) (emit_call callee c)
unfolding emit_call
emit_call-Moves (Label.ip t) c = Post-bind (Moves 0 0 c) (add_jump_target t 0 c) _ (
    Post-weaken (Moves 0 0 c) _ (add_jump_target t 0 c)
      (λ c1 m.
        Moves-trans 0 0 0 0 c c1 _ m
          (Moves-level c1 c1.top _ (record { no_ups = refl; no_downs = refl })))
      (add_jump_target-Moves t 0 c))
emit_call-Moves (Label.function name) c =
    Moves-level c c.top _ (record { no_ups = refl; no_downs = refl })
emit_call-Moves (Label.string_at n) c =
    Moves-level c c.top _ (record { no_ups = refl; no_downs = refl })
emit_call-Moves Label.fname c = Moves-level c c.top _ (record { no_ups = refl; no_downs = refl })

prologue_moves :
    (s : ℕ) (v : Option ℤ)
    → (rises (call_prologue s ++ load_opt_arg v) ≡ 0)
      × (falls (call_prologue s ++ load_opt_arg v) ≡ 8 * s + 128)
prologue_moves s none = (omega (arith, (slot_fall s).0), omega (arith, (slot_fall s).1))
prologue_moves s (some v) = (omega (arith, (slot_fall s).0), omega (arith, (slot_fall s).1))

epilogue_moves : (s : ℕ) → (rises (call_epilogue s) ≡ 8 * s + 128) × (falls (call_epilogue s) ≡ 0)
epilogue_moves s = (omega arith, refl)

-- One word, where the stack is aligned.
abbrev pad : Bool → ℕ
pad true = 8
pad false = 0

optional_moves :
    (b : Bool)
    → (rises (optional b (lower_sp 1)) ≡ 0)
      × (falls (optional b (lower_sp 1)) ≡ pad b)
      × (rises (optional b (raise_sp 1)) ≡ pad b)
      × (falls (optional b (raise_sp 1)) ≡ 0)
optional_moves true = (refl, refl, refl, refl)
optional_moves false = (refl, refl, refl, refl)

extra_moves :
    (argc : ℕ)
    → (rises (optional (ltb 8 argc) (raise_sp (argc - 8))) ≡ (argc - 8) * 8)
      × (falls (optional (ltb 8 argc) (raise_sp (argc - 8))) ≡ 0)
extra_moves argc = elim (Bool-cases (ltb 8 argc)) [
  | inl e ↦ rw (e, optional) (omega arith, refl)
  | inr e ↦ rw (e, optional) (none_extra e, refl)
]
  where
    none_extra : ltb 8 argc ≡ false → 0 ≡ (argc - 8) * 8
    none_extra e = ground arith

abbrev after_call : ℕ → Bool → Loc → ℕ → List Asm
after_call argc aligned result spilled =
    optional (ltb 8 argc) (raise_sp (argc - 8))
    ++ (optional aligned (raise_sp 1) ++ (symb_emit_mv_from result 10 ++ call_epilogue spilled))

after_call_moves :
    (argc : ℕ) (aligned : Bool) (result : Loc) (spilled : ℕ)
    → (rises (after_call argc aligned result spilled)
        ≡ (argc - 8) * 8 + (pad aligned + (8 * spilled + 128)))
      × (falls (after_call argc aligned result spilled) ≡ 0)
after_call_moves argc aligned result spilled = (
  rw
      (
        rises-append extra (padding ++ (place ++ behind)),
        rises-append padding (place ++ behind),
        rises-append place behind,
        (extra_moves argc).0,
        (optional_moves aligned).2,
        (IsLevel-mv_from result 10).no_ups,
        (epilogue_moves spilled).0,
      )
      (omega arith),
  rw
      (
        falls-append extra (padding ++ (place ++ behind)),
        falls-append padding (place ++ behind),
        falls-append place behind,
        (extra_moves argc).1,
        (optional_moves aligned).3,
        (IsLevel-mv_from result 10).no_downs,
        (epilogue_moves spilled).1,
      )
      refl,
)
  where
    extra : List Asm
    extra = optional (ltb 8 argc) (raise_sp (argc - 8))

    padding : List Asm
    padding = optional aligned (raise_sp 1)

    place : List Asm
    place = symb_emit_mv_from result 10

    behind : List Asm
    behind = call_epilogue spilled

-- The stack pointer ends below its old place by the spilled places that the call took away.
pub record Balanced (c c' : Compiler) : Type 0 where
  pub code : List Asm
  pub emitted : c'.out ≡ c.out ++ code
  pub balance : rises code + 8 * spilled_count c.top ≡ falls code + 8 * spilled_count c'.top

compile_call_in-Balanced :
    (frame : FrameInfo) (callee : Label) (argc : ℕ) (opt_arg : Option ℤ) (c : Compiler)
    → Post (Balanced c) (compile_call_in frame callee argc opt_arg c)
unfolding compile_call_in alloc
compile_call_in-Balanced frame callee argc opt_arg c =
    Post-bind (Balanced c) (load_args lowest loads c1) _ (
      Post-weaken _ _ (load_args lowest loads c1)
        (λ c2 m2. Post-bind (Balanced c) (push_args (argc - 8) (padded c2)) _ (
          Post-weaken _ _ (push_args (argc - 8) (padded c2))
            (λ c3 m3. Post-bind (Balanced c) (emit_call callee c3) _ (
              Post-weaken _ _ (emit_call callee c3)
                (λ c4 m4. done c4 (
                  Moves-trans 0 0 _ 0 c c3 c4
                    (Moves-trans 0 0 _ _ c (padded c2) c3
                      (Moves-trans 0 0 _ _ c c2 (padded c2) (Moves-trans 0 0 _ 0 c c1 c2 first m2)
                        (lowered c2))
                      m3)
                    m4))
                (emit_call-Moves callee c3)))
            (push_args-Moves (argc - 8) (padded c2))))
        (load_args-Moves lowest loads c1))
  where
    aligned : Bool
    aligned = (frame.locals_count + spilled_count c.top + (argc - 8)) % 2 == 1

    lowest : ℕ
    lowest = add_arg opt_arg

    loads : ℕ
    loads = min argc 8 - lowest

    c1 : Compiler
    c1 = emit (call_prologue (spilled_count c.top) ++ load_opt_arg opt_arg) c

    first : Moves 0 (8 * spilled_count c.top + 128) c c1
    first = record {
      lines = _;
      written = refl;
      ups = (prologue_moves (spilled_count c.top) opt_arg).0;
      downs = (prologue_moves (spilled_count c.top) opt_arg).1;
    }

    padded : Compiler → Compiler
    padded c2 = emit (optional aligned (lower_sp 1)) c2

    lowered : (c2 : Compiler) → Moves 0 (pad aligned) c2 (padded c2)
    lowered c2 = record {
      lines = _;
      written = refl;
      ups = (optional_moves aligned).0;
      downs = (optional_moves aligned).1;
    }

    done :
        (c4 : Compiler)
        → Moves 0 (8 * spilled_count c.top + 128 + 0 + pad aligned + (argc - 8) * 8 + 0) c c4
        → Balanced c (
            emit
              (after_call argc aligned (alloc c4.top).0 (spilled_count (alloc c4.top).1))
              (record c4 { top = (alloc c4.top).1 }))
    done c4 m = record {
      code = m.lines ++ last;
      emitted = ap (λ o. o ++ last) m.written ∙ append_assoc c.out m.lines last;
      balance =
          rw
            (
              rises-append m.lines last,
              falls-append m.lines last,
              m.ups,
              m.downs,
              (after_call_moves argc aligned (alloc c4.top).0 s).0,
              (after_call_moves argc aligned (alloc c4.top).0 s).1,
            )
            (omega arith);
    }
      where
        s : ℕ
        s = spilled_count (alloc c4.top).1

        last : List Asm
        last = after_call argc aligned (alloc c4.top).0 s

count_args-Balanced :
    (frame : FrameInfo) (callee : Label) (argc : ℕ) (opt_arg : Option ℤ) (c : Compiler)
    → Post (Balanced c) (count_args frame callee argc opt_arg c)
unfolding count_args
count_args-Balanced frame callee argc opt_arg c =
    let total = (argc + add_arg opt_arg) % word_mod in
    Post-if (Balanced c) (ltb total (add_arg opt_arg)) fault _ tt
      (compile_call_in-Balanced frame callee total opt_arg c)

-- The code of a call raises and lowers the stack pointer such that it ends 8 bytes higher for each
-- place in memory that the symbolic stack has then more than before the call: where the call takes
-- spilled places away, the stack pointer stays below its old place.
pub compile_call-Balanced :
    (callee : Label) (argc : ℕ) (opt_arg : Option ℤ) (c : Compiler)
    → Post (Balanced c) (compile_call callee argc opt_arg c)
unfolding compile_call
compile_call-Balanced callee argc opt_arg c = go c.current_frame
  where
    go :
        (f : Option FrameInfo)
        → Post
            (Balanced c)
            (elim f [ none ↦ fault | some frame ↦ count_args frame callee argc opt_arg c ])
    go none = tt
    go (some frame) = count_args-Balanced frame callee argc opt_arg c
