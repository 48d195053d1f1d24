-- ===== src/Compiler/Driver/Total.antt =====
-- What `emit` of comp/src/lama_rv.cpp wrote is linked.
use lama_rv_workshop.Base.{
  ℕ, ◌+◌, ◌*◌, ◌≡◌, ◌≤◌, ◌<◌, refl, Bool, true, false, List, [], ◌∷◌, length, arith, ◌⊎◌, inl, inr,
  sym, ap, ◌∙◌, All,
}
use native.Mathlib.Nat.{mul-le-mul_left}
use lama_rv_workshop.Base.Outcome.{Post, Post-bind, Post-weaken}
use lama_rv_workshop.Compiler.State.{Heights, Compiler, add_jump_target}
use lama_rv_workshop.Compiler.Lines.{ip_labels, ip_targets}
use lama_rv_workshop.Compiler.Extends.{
  has, Known, Extends, All-map, Extends-refl, Extends-weaken, Extends-trans, Known-Extends,
  add_jump_target-Known,
}
use lama_rv_workshop.Compiler.Linked.{IsLinked, Extends-IsLinked, count, bit}
use lama_rv_workshop.Compiler.Driver.{Program, emit_loop, add_publics, initial, emit_program}
use lama_rv_workshop.Compiler.Driver.Weight.{has_inst, undone-length}
use lama_rv_workshop.Compiler.Driver.Loop.{Absent, weight, Ended, emit_loop-Ended}

add_publics-Known :
    (offsets : List ℕ) (c : Compiler)
    → Post (λ c'. Extends (length offsets) c c' × All (Known c') offsets) (add_publics offsets c)
unfolding add_publics
add_publics-Known [] c = (Extends-refl c, tt)
add_publics-Known (t ∷ offsets) c = Post-bind _ (add_jump_target t 0 c) _ (
    Post-weaken (λ c1. Extends 1 c c1 × Known c1 t) _ (add_jump_target t 0 c)
      (λ c1 h.
        Post-weaken (λ c'. Extends (length offsets) c1 c' × All (Known c') offsets) _
          (add_publics offsets c1)
          (λ c2 k. (
            Extends-weaken _ _ c c2 (Extends-trans 1 _ c c1 c2 h.0 k.0) (omega arith),
            (Known-Extends _ c1 c2 k.0 t h.1, k.1),
          ))
          (add_publics-Known offsets c1))
      (add_jump_target-Known t 0 c))

-- The addresses of `ts` have one label each, or no instruction.
abbrev pub Placed : Program → List ℕ → List ℕ → Type 0
Placed program labels ts = All (λ t. (count t labels ≡ 1) ⊎ (has_inst t program ≡ false)) ts

abbrev pub IsCompiled : Program → List ℕ → Compiler → Type 0
IsCompiled program publics c =
    ((t : ℕ) → count t (ip_labels c.out) ≤ 1)
    × (Placed program (ip_labels c.out) (ip_targets c.out)
        × Placed program (ip_labels c.out) publics)

-- A compiler at its end has a label for what is known.
Ended-IsCompiled :
    (peek_first : Bool) (program : Program) (pick : Heights → ℕ) (publics : List ℕ)
    (c c' : Compiler)
    → All (Known c) publics
    → Ended peek_first program pick c c'
    → IsCompiled program publics c'
Ended-IsCompiled peek_first program pick publics c c' known (p, (nothing, settled)) = (
  once,
  (
    All-map (λ t. Known c' t ⊎ Missing t) (λ t. One t ⊎ Missing t) (ip_targets c'.out)
        (λ t. place t) p.aimed,
    All-map (Known c) (λ t. One t ⊎ Missing t) publics (λ t k. place t (settled t (inl k))) known,
  ),
)
  where
    Missing : ℕ → Type 0
    Missing t = has_inst t program ≡ false

    One : ℕ → Type 0
    One t = count t (ip_labels c'.out) ≡ 1

    bit_small : (b : Bool) → bit b ≤ 1
    bit_small true = omega arith
    bit_small false = omega arith

    once : (t : ℕ) → count t (ip_labels c'.out) ≤ 1
    once t = rw (p.counted t) (bit_small (has t c'.done))

    none_left : (t : ℕ) → has t c'.todo ≡ true → ⊥
    none_left t h = let never : false ≡ true = ap (has t) (sym nothing) ∙ h in cc

    place : (t : ℕ) → Known c' t ⊎ Missing t → One t ⊎ Missing t
    place t (inl (inl done)) = inl (p.counted t ∙ ap bit done)
    place t (inl (inr todo)) = absurd (none_left t todo)
    place t (inr missing) = inr missing

-- With more fuel than n * (n + 1) and the public functions, for a program of n instructions and
-- any order in which entries to do are taken, emission ends; and if it gives a result, no address
-- has two labels in it, and every address that a jump or a call goes to and every public function
-- has exactly one, unless no instruction stands there.
pub emit_program-IsCompiled :
    (peek_first : Bool) (pick : Heights → ℕ) (fuel : ℕ) (program : Program) (publics : List ℕ)
    (globals : ℕ)
    → length program * (length program + 1) + length publics < fuel
    → Post (IsCompiled program publics) (emit_program peek_first pick fuel program publics globals)
unfolding emit_program
emit_program-IsCompiled peek_first pick fuel [] publics globals enough = tt
emit_program-IsCompiled peek_first pick fuel (entry ∷ rest) publics globals enough =
    Post-bind (IsCompiled program publics) (add_publics publics (initial globals)) _ (
      Post-weaken _ _ (add_publics publics (initial globals)) (λ c h. loop c h.0 h.1)
        (add_publics-Known publics (initial globals)))
  where
    program : Program
    program = entry ∷ rest

    empty : IsLinked (Absent peek_first program pick) (initial globals)
    empty = record { counted = λ t. refl; aimed = tt }

    loop :
        (c : Compiler)
        → Extends (length publics) (initial globals) c
        → All (Known c) publics
        → Post (IsCompiled program publics) (emit_loop peek_first program pick fuel c)
    loop c e known =
        Post-weaken (Ended peek_first program pick c) (IsCompiled program publics) _
          (λ c' end. Ended-IsCompiled peek_first program pick publics c c' known end)
          (emit_loop-Ended peek_first program pick fuel c small
            (Extends-IsLinked _ _ (initial globals) c empty e))
      where
        small : weight peek_first program pick c < fuel
        small = omega (
          arith,
          enough,
          e.grows,
          mul-le-mul_left (length program + 1) (undone-length program c.done),
        )
