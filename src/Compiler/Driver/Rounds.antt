-- ===== src/Compiler/Driver/Rounds.antt =====
-- The rounds of `emit` of comp/src/lama_rv.cpp.
use lama_rv_workshop.Base.{
  ℕ, ◌+◌, ◌≡◌, refl, Bool, true, if◌then◌else◌, [], ◌∷◌, length, arith, ◌⊎◌, inr,
}
use lama_rv_workshop.Base.Outcome.{Outcome, exited, Post, Post-bind, Post-weaken, Post-if}
use lama_rv_workshop.Compiler.Asm.{comment, printed, separator}
use lama_rv_workshop.Compiler.Instruction.{Inst, is_terminator, can_print}
use lama_rv_workshop.Compiler.State.{Compiler, emit, inst_begin}
use lama_rv_workshop.Compiler.Emit.{emit_code}
use lama_rv_workshop.Compiler.Extends.{has, Extends, Extends-plain, Extends-then}
use lama_rv_workshop.Compiler.CodeExtends.{emit_code-Extends}
use lama_rv_workshop.Compiler.Linked.{
  IsLinked, Extends-IsLinked, Advances, Extends-Advances, Advances-trans, Begun,
  inst_begin-IsLinked, IsLinked-weaken, Advances-weaken, Advances-refl,
}
use lama_rv_workshop.Compiler.Driver.{Program, emit_inst, emit_block}

-- What emission from an address comes to: it is done then.
abbrev pub Done : (Q : ℕ → Type 0) (k t : ℕ) (c c' : Compiler) → Type 0
Done Q k t c c' = IsLinked Q c' × (Advances k c c' × (has t c'.done ≡ true))

Done-then :
    (Q : ℕ → Type 0) (j k t : ℕ) (c c1 c2 : Compiler)
    → Done Q j t c c1
    → Extends k c1 c2
    → Done Q (j + k) t c c2
Done-then Q j k t c c1 c2 h e =
    (Extends-IsLinked Q k c1 c2 h.0 e, (Advances-trans j k c c1 c2 h.1.0 adv, adv.stays t h.1.1))
  where
    adv : Advances k c1 c2
    adv = Extends-Advances k c1 c2 e

module _ (peek_first : Bool) (Q : ℕ → Type 0) where
  emit_inst-Done :
      (t : ℕ) (inst : Inst) (c : Compiler)
      → IsLinked (λ u. (u ≡ t) ⊎ Q u) c
      → Post (Done Q 1 t c) (emit_inst peek_first t inst c)
  unfolding emit_inst
  emit_inst-Done t inst c p = Post-bind (Done Q 1 t c) (inst_begin t c) _ (
      Post-weaken (Begun Q t c) _ (inst_begin t c) (λ c1 h. coded c1 h)
        (inst_begin-IsLinked Q t c p))
    where
      coded :
          (c1 : Compiler)
          → Begun Q t c c1
          → Post (Done Q 1 t c) (
              if can_print inst
              then emit_code peek_first inst (emit (comment (printed t) ∷ []) c1)
              else exited)
      coded c1 h =
          Post-if (Done Q 1 t c) (can_print inst) _ _
            (Post-weaken (Extends 1 c1) (Done Q 1 t c) _ (λ c2 e. Done-then Q 0 1 t c c1 c2 h e)
              (Extends-then 0 1 c1 _ _
                (Extends-plain c1 _ _ (record { no_labels = refl; no_targets = refl }) refl refl
                  refl)
                (emit_code-Extends peek_first inst _)))
            tt

  -- What is emitted behind the first instruction.
  abbrev Follows : ℕ → Compiler → Compiler → Type 0
  Follows k c c' = IsLinked Q c' × Advances k c c'

  Done-Follows :
      (k t : ℕ) (c c1 : Compiler) (m : Outcome Compiler)
      → Done Q 1 t c c1
      → Post (Follows k c1) m
      → Post (Done Q (1 + k) t c) m
  Done-Follows k t c c1 m h =
      Post-weaken (Follows k c1) (Done Q (1 + k) t c) m
        (λ c2 f. (f.0, (Advances-trans 1 k c c1 c2 h.1.0 f.1, f.1.stays t h.1.1)))

  separated : (k : ℕ) (c : Compiler) → IsLinked Q c → Follows k c (emit (comment separator ∷ []) c)
  separated k c p = (
    Extends-IsLinked Q 0 c _ p e,
    Advances-weaken 0 k c _ (Extends-Advances 0 c _ e) (omega arith),
  )
    where
      e : Extends 0 c (emit (comment separator ∷ []) c)
      e = Extends-plain c _ _ (record { no_labels = refl; no_targets = refl }) refl refl refl

  -- A block from its first instruction.
  pub emit_block-Done :
      (t : ℕ) (inst : Inst) (rest : Program) (c : Compiler)
      → IsLinked (λ u. (u ≡ t) ⊎ Q u) c
      → Post (Done Q (1 + length rest) t c) (emit_block peek_first ((t, inst) ∷ rest) c)
  unfolding emit_block
  emit_block-Done t inst [] c p = Post-bind (Done Q 1 t c) (emit_inst peek_first t inst c) _ (
      Post-weaken (Done Q 1 t c) _ (emit_inst peek_first t inst c)
        (λ c1 h. Done-Follows 0 t c c1 _ h (
          Post-if (Follows 0 c1) (is_terminator inst) _ _ (separated 0 c1 h.0)
            (h.0, Advances-refl 0 c1)))
        (emit_inst-Done t inst c p))
  emit_block-Done t inst ((t', inst') ∷ rest) c p =
      Post-bind (Done Q (1 + length ((t', inst') ∷ rest)) t c) (emit_inst peek_first t inst c) _ (
        Post-weaken (Done Q 1 t c) _ (emit_inst peek_first t inst c)
          (λ c1 h. Done-Follows (length ((t', inst') ∷ rest)) t c c1 _ h (
            Post-if (Follows _ c1) (is_terminator inst) _ _ (separated _ c1 h.0) (
              Post-weaken (Done Q (1 + length rest) t' c1) (Follows _ c1) _
                (λ c2 d. (d.0, Advances-weaken _ _ c1 c2 d.1.0 (omega arith)))
                (emit_block-Done t' inst' rest c1 (IsLinked-weaken Q _ c1 (λ u q. inr q) h.0)))))
          (emit_inst-Done t inst c p))
