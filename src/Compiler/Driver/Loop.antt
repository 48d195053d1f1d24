-- ===== src/Compiler/Driver/Loop.antt =====
-- `emit` of comp/src/lama_rv.cpp comes to an end.
use lama_rv_workshop.Base.{
  ℕ, zero, suc, ◌+◌, ◌*◌, ◌≡◌, ◌≤◌, ◌<◌, refl, ◌==◌, if◌then◌else◌, Bool, true, false, [], ◌∷◌,
  length, arith, ◌⊎◌, inl, inr,
}
use native.Mathlib.Nat.{mul-le-mul_left}
use lama_rv_workshop.Base.Outcome.{ok, ◌>>=◌, Post, Post-bind, Post-weaken, Post-if}
use lama_rv_workshop.Compiler.State.{Heights, Compiler, should_emit}
use lama_rv_workshop.Compiler.Lines.{ip_targets}
use lama_rv_workshop.Compiler.Extends.{has, Known, find_cases, All-map}
use lama_rv_workshop.Compiler.Linked.{IsLinked, settle, IsLinked-weaken}
use lama_rv_workshop.Compiler.Driver.{
  Program, from_offset, take_nth, emit_block, emit_from, emit_loop,
}
use lama_rv_workshop.Compiler.Driver.Weight.{
  has_inst, undone, undone_lt, from_offset_cases, length-take_nth, take_nth-has,
}
use lama_rv_workshop.Compiler.Driver.Rounds.{Done, emit_block-Done}

should_emit-Post :
    (t : ℕ) (c : Compiler)
    → Post
        (λ wanted.
          ((wanted ≡ true) × (has t c.done ≡ false)) ⊎ ((wanted ≡ false) × (has t c.done ≡ true)))
        (should_emit t c)
unfolding should_emit
should_emit-Post t c = elim (find_cases t c.done) [
  | inl e ↦ rw (e, should_emit) (inl (refl, rw (e, has) refl))
  | inr (h, e) ↦ rw (e, should_emit) (Post-if _ (h == c.top) _ _ (inr (refl, rw (e, has) refl)) tt)
]

weight_drop :
    (n before after todo todo' : ℕ)
    → after < before
    → todo' ≤ todo + n
    → after * (n + 1) + todo' < before * (n + 1) + (todo + 1)
weight_drop n before after todo todo' less grows = omega (arith, mul-le-mul_left (n + 1) less)

module _ (peek_first : Bool) (program : Program) (pick : Heights → ℕ) where
  -- No instruction stands at the address.
  abbrev pub Absent : ℕ → Type 0
  Absent t = has_inst t program ≡ false

  abbrev pub Settled : Compiler → ℕ → Type 0
  Settled c t = Known c t ⊎ Absent t

  abbrev pub weight : Compiler → ℕ
  weight c = undone program c.done * (length program + 1) + length c.todo

  pub record Round (c c' : Compiler) : Type 0 where
    pub linked : IsLinked Absent c'
    pub lighter : weight c' < weight c
    pub settled : (t : ℕ) → Settled c t → Settled c' t

  -- One round, on an entry that was taken out.
  emit_from-Round :
      (start height : ℕ) (others : Heights) (c : Compiler)
      → IsLinked Absent c
      → ((t : ℕ) → has t c.todo ≡ true → (t ≡ start) ⊎ (has t others ≡ true))
      → length c.todo ≡ length others + 1
      → Post (Round c) (emit_from peek_first program pick (start, height) others c)
  unfolding emit_from emit_block
  emit_from-Round start height others c p taken size =
      Post-bind (Round c) (should_emit start c1) _ (
        Post-weaken _ _ (should_emit start c1) (λ wanted h. go wanted h)
          (should_emit-Post start c1))
    where
      c1 : Compiler
      c1 = record c { todo = others; top = height }

      known : (t : ℕ) → Known c t → (t ≡ start) ⊎ Known c1 t
      known t (inl done) = inr (inl done)
      known t (inr todo) = elim (taken t todo) [ inl e ↦ inl e | inr o ↦ inr (inr o) ]

      widen : (t : ℕ) → Known c t ⊎ Absent t → Known c1 t ⊎ ((t ≡ start) ⊎ Absent t)
      widen t (inl k) = elim (known t k) [ inl e ↦ inr (inl e) | inr k1 ↦ inl k1 ]
      widen t (inr a) = inr (inr a)

      p1 : IsLinked (λ u. (u ≡ start) ⊎ Absent u) c1
      p1 = record {
        counted = p.counted;
        aimed = All-map (λ t. Known c t ⊎ Absent t) _ (ip_targets c.out) (λ t. widen t) p.aimed;
      }

      at_start : Absent start → (u : ℕ) → (u ≡ start) ⊎ Absent u → Absent u
      at_start absent u (inl e) = rw e absent
      at_start absent u (inr a) = a

      keep :
          (c2 : Compiler)
          → Settled c2 start
          → ((t : ℕ) → Known c1 t → Known c2 t)
          → (t : ℕ) → Settled c t
          → Settled c2 t
      keep c2 s k t (inr a) = inr a
      keep c2 s k t (inl b) = elim (known t b) [ inl e ↦ rw e s | inr k1 ↦ inl (k t k1) ]

      stop : IsLinked Absent c1 → Settled c1 start → Round c c1
      stop q s = record {
        linked = q;
        lighter = omega (arith, size);
        settled = keep c1 s (λ t k. k);
      }

      block :
          has start c.done ≡ false
          → has_inst start program ≡ true
          → (rest : Program) → length rest < length program
          → (c2 : Compiler) → Done Absent (1 + length rest) start c1 c2
          → Round c c2
      block fresh present rest shorter c2 d = record {
        linked = d.0;
        lighter = rw size (
            weight_drop (length program) (undone program c.done) (undone program c2.done)
              (length others) (length c2.todo)
              (undone_lt program start c.done c2.done d.1.0.stays present fresh d.1.1)
              (omega (arith, d.1.0.grows, shorter)));
        settled = keep c2 (inl (inl d.1.1)) d.1.0.knows;
      }

      go :
          (wanted : Bool)
          → ((wanted ≡ true) × (has start c.done ≡ false))
            ⊎ ((wanted ≡ false) × (has start c.done ≡ true))
          → Post
              (Round c)
              (if wanted then emit_block peek_first (from_offset start program) c1 else ok c1)
      go wanted (inl (e, fresh)) = rw e (elim (from_offset_cases start program) [
        | inl (nothing, absent) ↦
            rw (nothing, emit_block)
              (stop (IsLinked-weaken _ Absent c1 (λ u. at_start absent u) p1) (inr absent))
        | inr (inst, rest, here, present, shorter) ↦ rw here (
            Post-weaken (Done Absent (1 + length rest) start c1) (Round c) _
              (λ c2 d. block fresh present rest shorter c2 d)
              (emit_block-Done peek_first Absent start inst rest c1 p1))
      ])
      go wanted (inr (e, done)) = rw e (stop (settle Absent start c1 p1 done) (inl (inl done)))

  -- Nothing is to do, and what was settled before is.
  abbrev pub Ended : Compiler → Compiler → Type 0
  Ended c c' = IsLinked Absent c' × ((c'.todo ≡ []) × ((t : ℕ) → Settled c t → Settled c' t))

  pub emit_loop-Ended :
      (fuel : ℕ) (c : Compiler)
      → weight c < fuel
      → IsLinked Absent c
      → Post (Ended c) (emit_loop peek_first program pick fuel c)
  unfolding emit_loop
  emit_loop-Ended zero c enough p = omega (arith, enough)
  emit_loop-Ended (suc fuel) c enough p =
      go
        (λ c1 r.
          Post-weaken (Ended c1) (Ended c) _
            (λ c2 e. (e.0, (e.1.0, λ t s. e.1.1 t (r.settled t s))))
            (emit_loop-Ended fuel c1 (omega (arith, r.lighter, enough)) r.linked))
        c.todo refl
    where
      go :
          ((c1 : Compiler)
            → Round c c1
            → Post (Ended c) (emit_loop peek_first program pick fuel c1))
          → (m : Heights) → c.todo ≡ m
          → Post (Ended c) (elim m [
            | [] ↦ ok c
            | entry ∷ others ↦
                let taken = take_nth (pick (entry ∷ others)) entry others in
                (emit_from peek_first program pick taken.0 taken.1 c
                  >>= emit_loop peek_first program pick fuel)
          ])
      go next [] e = (p, (e, λ t s. s))
      go next (entry ∷ others) e =
          Post-bind (Ended c) (emit_from peek_first program pick taken.0 taken.1 c) _ (
            Post-weaken (Round c) _ _ next (
              emit_from-Round taken.0.0 taken.0.1 taken.1 c p
                (λ t h. take_nth-has n entry others t (rw (← e) h))
                (rw (e, length-take_nth n entry others) (omega arith))))
        where
          n : ℕ
          n = pick (entry ∷ others)

          taken : (ℕ × ℕ) × Heights
          taken = take_nth n entry others
