-- ===== src/Compiler/Extends.antt =====
-- What the emission of an instruction leaves as it was, and where its jumps go.
use lama_rv_workshop.Base.{
  ℕ, ◌+◌, ◌≤◌, ◌≡◌, refl, ◌==◌, Bool, true, false, Bool-cases, Option, none, some, List, [], ◌∷◌,
  ◌++◌, length, All, arith, ◌⊎◌, inl, inr, ◌∙◌, ap, sym, ==_refl,
}
use mathlib.Core.List.{append_assoc, append-nil}
use lama_rv_workshop.Base.Outcome.{Outcome, ◌>>=◌, Post, Post-bind, Post-weaken}
use lama_rv_workshop.Compiler.Asm.{Asm, comment, expecting}
use lama_rv_workshop.Compiler.Lines.{
  ip_labels, ip_targets, ip_labels-append, ip_targets-append, IsPlain,
}
use lama_rv_workshop.Compiler.State.{
  Heights, find, Compiler, emit, check_eq, add_jump_target, emplace_todo,
}

abbrev pub has : ℕ → Heights → Bool
has t m = elim (find t m) [ none ↦ false | some h ↦ true ]

-- An address that has its label or will get it.
abbrev pub Known : Compiler → ℕ → Type 0
Known c t = (has t c.done ≡ true) ⊎ (has t c.todo ≡ true)

pub All-map {ℓ} :
    {A : Type ℓ} (P Q : A → Type 0) (xs : List A) → ((x : A) → P x → Q x) → All P xs → All Q xs
All-map P Q [] f h = tt
All-map P Q (x ∷ xs) f h = (f x h.0, All-map P Q xs f h.1)

pub All-append {ℓ} :
    {A : Type ℓ} (P : A → Type 0) (xs ys : List A) → All P xs → All P ys → All P (xs ++ ys)
All-append P [] ys h k = k
All-append P (x ∷ xs) ys h k = (h.0, All-append P xs ys h.1 k)

-- From `c` to `c'` lines are written that define no label of an address and go to known ones only,
-- and at most `k` addresses are added to do.
pub record Extends (k : ℕ) (c c' : Compiler) : Type 0 where
  pub lines : List Asm
  pub written : c'.out ≡ c.out ++ lines
  pub same_done : c'.done ≡ c.done
  pub unlabelled : ip_labels lines ≡ []
  pub grows : length c'.todo ≤ length c.todo + k
  pub keeps : (t : ℕ) → has t c.todo ≡ true → has t c'.todo ≡ true
  pub aims : All (Known c') (ip_targets lines)

pub Known-Extends : (k : ℕ) (c c' : Compiler) → Extends k c c' → (t : ℕ) → Known c t → Known c' t
Known-Extends k c c' e t (inl d) = inl (rw (e.same_done) d)
Known-Extends k c c' e t (inr w) = inr (e.keeps t w)

pub Extends-lines :
    (c c' : Compiler) (lines : List Asm)
    → ip_labels lines ≡ []
    → All (Known c') (ip_targets lines)
    → c'.out ≡ c.out ++ lines
    → c'.done ≡ c.done
    → c'.todo ≡ c.todo
    → Extends 0 c c'
Extends-lines c c' lines labels aims written same_done same_todo = record {
  lines = lines;
  written = written;
  same_done = same_done;
  unlabelled = labels;
  grows = rw same_todo (omega arith);
  keeps = λ t h. (rw same_todo h);
  aims = aims;
}

pub Extends-plain :
    (c c' : Compiler) (lines : List Asm)
    → IsPlain lines
    → c'.out ≡ c.out ++ lines
    → c'.done ≡ c.done
    → c'.todo ≡ c.todo
    → Extends 0 c c'
Extends-plain c c' lines p = Extends-lines c c' lines p.no_labels (rw (p.no_targets) tt)

pub Extends-refl : (c : Compiler) → Extends 0 c c
Extends-refl c =
    Extends-plain c c [] (record { no_labels = refl; no_targets = refl }) (sym (append-nil c.out))
      refl refl

pub Extends-weaken : (a b : ℕ) (c c' : Compiler) → Extends a c c' → a ≤ b → Extends b c c'
Extends-weaken a b c c' e le = record {
  lines = e.lines;
  written = e.written;
  same_done = e.same_done;
  unlabelled = e.unlabelled;
  grows = omega (arith, e.grows);
  keeps = e.keeps;
  aims = e.aims;
}

pub Extends-trans :
    (a b : ℕ) (c c1 c2 : Compiler) → Extends a c c1 → Extends b c1 c2 → Extends (a + b) c c2
Extends-trans a b c c1 c2 e f = record {
  lines = e.lines ++ f.lines;
  written = f.written ∙ ap (λ o. o ++ f.lines) e.written ∙ append_assoc c.out e.lines f.lines;
  same_done = f.same_done ∙ e.same_done;
  unlabelled = rw (ip_labels-append e.lines f.lines, e.unlabelled) f.unlabelled;
  grows = omega (arith, e.grows, f.grows);
  keeps = λ t h. f.keeps t (e.keeps t h);
  aims = rw (ip_targets-append e.lines f.lines) (
      All-append (Known c2) (ip_targets e.lines) (ip_targets f.lines)
        (All-map (Known c1) (Known c2) (ip_targets e.lines) (Known-Extends b c1 c2 f) e.aims)
        f.aims);
}

-- Steps one after the other.
pub Extends-then :
    (a b : ℕ) (c c1 : Compiler) (m : Outcome Compiler)
    → Extends a c c1
    → Post (Extends b c1) m
    → Post (Extends (a + b) c) m
Extends-then a b c c1 m e =
    Post-weaken (Extends b c1) (Extends (a + b) c) m (λ c2 f. Extends-trans a b c c1 c2 e f)

pub Extends-bind :
    (a b : ℕ) (c : Compiler) (m : Outcome Compiler) (next : Compiler → Outcome Compiler)
    → Post (Extends a c) m
    → ((c1 : Compiler) → Post (Extends b c1) (next c1))
    → Post (Extends (a + b) c) (m >>= next)
Extends-bind a b c m next h k = Post-bind (Extends (a + b) c) m next (
    Post-weaken (Extends a c) (λ c1. Post (Extends (a + b) c) (next c1)) m
      (λ c1 e. Extends-then a b c c1 (next c1) e (k c1)) h)

-- What `add_jump_target` does after lines that go to its target.
abbrev Aimed : ℕ → Compiler → Compiler → Type 0
Aimed t c c' = Extends 1 c c' × Known c' t

pub has_self : (t h : ℕ) (m : Heights) → has t ((t, h) ∷ m) ≡ true
has_self t h m = rw (==_refl t, has, find) refl

pub has-cons : (t u h : ℕ) (m : Heights) → has t m ≡ true → has t ((u, h) ∷ m) ≡ true
has-cons t u h m e = elim (Bool-cases (u == t)) [
  | inl p ↦ rw (p, has, find) refl
  | inr p ↦ rw (p, has, find) e
]

pub find_cases : (t : ℕ) (m : Heights) → (find t m ≡ none) ⊎ ((h : ℕ) × (find t m ≡ some h))
find_cases t m = go (find t m) refl
  where
    go : (r : Option ℕ) → find t m ≡ r → (find t m ≡ none) ⊎ ((h : ℕ) × (find t m ≡ some h))
    go none e = inl e
    go (some h) e = inr (h, e)

check_eq-Post : (P : Compiler → Type 0) (a b : ℕ) (c : Compiler) → P c → Post P (check_eq a b c)
check_eq-Post P a b c h = elim (Bool-cases (a == b)) [
  | inl e ↦ rw (e, check_eq) h
  | inr e ↦ rw (e, check_eq) tt
]

Extends-todo :
    (c c' : Compiler)
    → c'.out ≡ c.out
    → c'.done ≡ c.done
    → length c'.todo ≤ length c.todo + 1
    → ((u : ℕ) → has u c.todo ≡ true → has u c'.todo ≡ true)
    → Extends 1 c c'
Extends-todo c c' written same_done grows keeps = record {
  lines = [];
  written = written ∙ sym (append-nil c.out);
  same_done = same_done;
  unlabelled = refl;
  grows = grows;
  keeps = keeps;
  aims = tt;
}

-- An address that is put on the list of what is to do.
emplace_todo-Post :
    (t height : ℕ) (c : Compiler)
    → Post (λ c'. Extends 1 c c' × (has t c'.todo ≡ true)) (emplace_todo t height c)
unfolding emplace_todo
emplace_todo-Post t height c = elim (find_cases t c.todo) [
  | inr (h, e) ↦
      let here : has t c.todo ≡ true = rw (e, has) refl in
      rw (e, emplace_todo)
        (check_eq-Post (λ c'. Extends 1 c c' × (has t c'.todo ≡ true)) h height c
          (Extends-todo c (record c { todo = c.todo }) refl refl (omega arith) (λ u k. k), here))
  | inl e ↦
      rw (e, emplace_todo)
        (
          Extends-todo c (record c { todo = (t, height) ∷ c.todo }) refl refl (omega arith)
              (λ u k. has-cons u t height c.todo k),
          has_self t height c.todo,
        )
]

-- An address is known once it is made a jump target.
pub add_jump_target-Known :
    (t height : ℕ) (c : Compiler)
    → Post (λ c'. Extends 1 c c' × Known c' t) (add_jump_target t height c)
unfolding add_jump_target
add_jump_target-Known t height c = elim (find_cases t c.done) [
  | inr (h, e) ↦
      let here : has t c.done ≡ true = rw (e, has) refl in
      rw (e, add_jump_target)
        (check_eq-Post (λ c'. Extends 1 c c' × Known c' t) h height c
          (Extends-weaken 0 1 c c (Extends-refl c) (omega arith), inl here))
  | inl e ↦
      rw (e, add_jump_target)
        (Post-weaken (λ c'. Extends 1 c1 c' × (has t c'.todo ≡ true))
          (λ c'. Extends 1 c c' × Known c' t) (emplace_todo t height c1)
          (λ c' h. (Extends-trans 0 1 c c1 c' noted h.0, inr h.1)) (emplace_todo-Post t height c1))
]
  where
    c1 : Compiler
    c1 = emit (comment (expecting height t) ∷ []) c

    noted : Extends 0 c c1
    noted = Extends-plain c c1 _ (record { no_labels = refl; no_targets = refl }) refl refl refl

-- Lines that go to known addresses of what follows.
pub Extends-after :
    (k : ℕ) (c c0 c' : Compiler) (lines : List Asm)
    → ip_labels lines ≡ []
    → c0.out ≡ c.out ++ lines
    → c0.done ≡ c.done
    → c0.todo ≡ c.todo
    → Extends k c0 c'
    → All (Known c') (ip_targets lines)
    → Extends k c c'
Extends-after k c c0 c' lines labels written same_done same_todo e aims = record {
  lines = lines ++ e.lines;
  written = e.written ∙ ap (λ o. o ++ e.lines) written ∙ append_assoc c.out lines e.lines;
  same_done = e.same_done ∙ same_done;
  unlabelled = rw (ip_labels-append lines e.lines, labels) e.unlabelled;
  grows = rw (← same_todo) e.grows;
  keeps = λ t h. e.keeps t (rw same_todo h);
  aims =
      rw (ip_targets-append lines e.lines)
        (All-append (Known c') (ip_targets lines) (ip_targets e.lines) aims e.aims);
}

-- Lines that go to one address, which then becomes a jump target.
pub jump-Extends :
    (t height : ℕ) (c c0 : Compiler) (lines : List Asm)
    → ip_labels lines ≡ []
    → ip_targets lines ≡ t ∷ []
    → c0.out ≡ c.out ++ lines
    → c0.done ≡ c.done
    → c0.todo ≡ c.todo
    → Post (Extends 1 c) (add_jump_target t height c0)
jump-Extends t height c c0 lines labels targets written same_done same_todo =
    Post-weaken (λ c'. Extends 1 c0 c' × Known c' t) (Extends 1 c) (add_jump_target t height c0)
      (λ c' h.
        Extends-after 1 c c0 c' lines labels written same_done same_todo h.0 (rw targets (h.1, tt)))
      (add_jump_target-Known t height c0)
