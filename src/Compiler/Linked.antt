-- ===== src/Compiler/Linked.antt =====
-- Each label of an address is emitted once, and jumps go to addresses that are known.
use lama_rv_workshop.Base.{
  ℕ, ◌+◌, ◌≡◌, refl, ◌==◌, Bool, true, false, Bool-cases, List, [], ◌∷◌, ◌++◌, length, All, arith,
  ◌⊎◌, inl, inr, ==_iff, ◌≤◌,
}
use mathlib.Core.List.{append-nil}
use lama_rv_workshop.Base.Outcome.{Post, Post-if}
use lama_rv_workshop.Compiler.Asm.{Label, label, comment, label_again}
use lama_rv_workshop.Compiler.Lines.{ip_labels, ip_targets, ip_labels-append, ip_targets-append}
use lama_rv_workshop.Compiler.State.{find, Compiler, emit, inst_begin}
use lama_rv_workshop.Compiler.Extends.{
  has, Known, Known-Extends, All-map, All-append, Extends, find_cases, has_self, has-cons,
  Extends-plain,
}

abbrev pub bit : Bool → ℕ
bit true = 1
bit false = 0

abbrev pub count : ℕ → List ℕ → ℕ
count t [] = 0
count t (x ∷ xs) = bit (x == t) + count t xs

count-append : (t : ℕ) (xs ys : List ℕ) → count t (xs ++ ys) ≡ count t xs + count t ys
count-append t [] ys = omega arith
count-append t (x ∷ xs) ys = rw (count-append t xs ys) (omega arith)

-- `Q` holds of the addresses that need no label yet.
pub record IsLinked (Q : ℕ → Type 0) (c : Compiler) : Type 0 where
  pub counted : (t : ℕ) → count t (ip_labels c.out) ≡ bit (has t c.done)
  pub aimed : All (λ t. Known c t ⊎ Q t) (ip_targets c.out)

pub Extends-IsLinked :
    (Q : ℕ → Type 0) (k : ℕ) (c c' : Compiler) → IsLinked Q c → Extends k c c' → IsLinked Q c'
Extends-IsLinked Q k c c' p e = record {
  counted = λ t.
      rw
        (
          e.written,
          e.same_done,
          ip_labels-append c.out e.lines,
          e.unlabelled,
          count-append t (ip_labels c.out) [],
          p.counted t,
        )
        (omega arith);
  aimed =
      rw (e.written, ip_targets-append c.out e.lines)
        (All-append (λ t. Known c' t ⊎ Q t) (ip_targets c.out) (ip_targets e.lines)
          (All-map (λ t. Known c t ⊎ Q t) (λ t. Known c' t ⊎ Q t) (ip_targets c.out) (λ t. widen t)
            p.aimed)
          (All-map (Known c') (λ t. Known c' t ⊎ Q t) (ip_targets e.lines) (λ t k. inl k) e.aims));
}
  where
    widen : (t : ℕ) → Known c t ⊎ Q t → Known c' t ⊎ Q t
    widen t (inl known) = inl (Known-Extends k c c' e t known)
    widen t (inr q) = inr q

-- From one emission to the next: what is done stays done, what is known stays known, and the list of
-- what is to do grows by at most `k`.
pub record Advances (k : ℕ) (c c' : Compiler) : Type 0 where
  pub stays : (t : ℕ) → has t c.done ≡ true → has t c'.done ≡ true
  pub grows : length c'.todo ≤ length c.todo + k
  pub knows : (t : ℕ) → Known c t → Known c' t

pub Extends-Advances : (k : ℕ) (c c' : Compiler) → Extends k c c' → Advances k c c'
Extends-Advances k c c' e = record {
  stays = λ t h. rw (e.same_done) h;
  grows = e.grows;
  knows = Known-Extends k c c' e;
}

pub Advances-trans :
    (a b : ℕ) (c c1 c2 : Compiler) → Advances a c c1 → Advances b c1 c2 → Advances (a + b) c c2
Advances-trans a b c c1 c2 e f = record {
  stays = λ t h. f.stays t (e.stays t h);
  grows = omega (arith, e.grows, f.grows);
  knows = λ t h. f.knows t (e.knows t h);
}

pub Advances-weaken : (a b : ℕ) (c c' : Compiler) → Advances a c c' → a ≤ b → Advances b c c'
Advances-weaken a b c c' e le = record {
  stays = e.stays;
  grows = omega (arith, e.grows);
  knows = e.knows;
}

pub Advances-refl : (k : ℕ) (c : Compiler) → Advances k c c
Advances-refl k c = record { stays = λ t h. h; grows = omega arith; knows = λ t h. h }

-- The label of an instruction: what it begins needs none any more.
abbrev pub Begun : (Q : ℕ → Type 0) (t : ℕ) (c c' : Compiler) → Type 0
Begun Q t c c' = IsLinked Q c' × (Advances 0 c c' × (has t c'.done ≡ true))

pub IsLinked-weaken :
    (Q R : ℕ → Type 0) (c : Compiler) → ((t : ℕ) → Q t → R t) → IsLinked Q c → IsLinked R c
IsLinked-weaken Q R c step p = record {
  counted = p.counted;
  aimed =
      All-map (λ t. Known c t ⊎ Q t) (λ t. Known c t ⊎ R t) (ip_targets c.out) (λ t. widen t)
        p.aimed;
}
  where
    widen : (t : ℕ) → Known c t ⊎ Q t → Known c t ⊎ R t
    widen t (inl known) = inl known
    widen t (inr q) = inr (step t q)

-- An address that is done needs no exception.
pub settle :
    (Q : ℕ → Type 0) (t : ℕ) (c : Compiler)
    → IsLinked (λ u. (u ≡ t) ⊎ Q u) c
    → has t c.done ≡ true
    → IsLinked Q c
settle Q t c p here = record {
  counted = p.counted;
  aimed =
      All-map (λ u. Known c u ⊎ ((u ≡ t) ⊎ Q u)) (λ u. Known c u ⊎ Q u) (ip_targets c.out)
        (λ u. narrow u) p.aimed;
}
  where
    narrow : (u : ℕ) → Known c u ⊎ ((u ≡ t) ⊎ Q u) → Known c u ⊎ Q u
    narrow u (inl known) = inl known
    narrow u (inr (inl e)) = inl (inl (rw e here))
    narrow u (inr (inr q)) = inr q

label-IsLinked :
    (Q : ℕ → Type 0) (t : ℕ) (c : Compiler)
    → IsLinked Q c
    → has t c.done ≡ false
    → IsLinked Q (emit (label (Label.ip t) ∷ []) (record c { done = (t, c.top) ∷ c.done }))
label-IsLinked Q t c p absent = record {
  counted = λ u.
      rw
        (
          ip_labels-append c.out (label (Label.ip t) ∷ []),
          count-append u (ip_labels c.out) (t ∷ []),
          p.counted u,
        )
        (new u);
  aimed =
      rw (ip_targets-append c.out (label (Label.ip t) ∷ []), append-nil (ip_targets c.out))
        (All-map (λ u. Known c u ⊎ Q u) _ (ip_targets c.out) (λ u. widen u) p.aimed);
}
  where
    new : (u : ℕ) → bit (has u c.done) + (bit (t == u) + 0) ≡ bit (has u ((t, c.top) ∷ c.done))
    new u = elim (Bool-cases (t == u)) [
      | inl e ↦
          let gone : has u c.done ≡ false = rw (← (==_iff t u).0 e) absent in
          rw (gone, e, has, find) refl
      | inr e ↦ rw (e, has, find) (omega arith)
    ]

    widen :
        (u : ℕ)
        → Known c u ⊎ Q u
        → Known (emit (label (Label.ip t) ∷ []) (record c { done = (t, c.top) ∷ c.done })) u ⊎ Q u
    widen u (inl (inl done)) = inl (inl (has-cons u t c.top c.done done))
    widen u (inl (inr todo)) = inl (inr todo)
    widen u (inr q) = inr q

pub inst_begin-IsLinked :
    (Q : ℕ → Type 0) (t : ℕ) (c : Compiler)
    → IsLinked (λ u. (u ≡ t) ⊎ Q u) c
    → Post (Begun Q t c) (inst_begin t c)
unfolding inst_begin
inst_begin-IsLinked Q t c p = elim (find_cases t c.done) [
  | inr (h, e) ↦
      let here : has t c.done ≡ true = rw (e, has) refl in
      rw (e, inst_begin)
        (Post-if (Begun Q t c) (h == c.top) _ _
          (
            Extends-IsLinked Q 0 c c1 (settle Q t c p here) noted,
            (Extends-Advances 0 c c1 noted, here),
          )
          tt)
  | inl e ↦
      rw (e, inst_begin)
        (
          settle Q t c2 (label-IsLinked _ t c p (rw (e, has) refl)) (has_self t c.top c.done),
          (advanced, has_self t c.top c.done),
        )
]
  where
    c1 : Compiler
    c1 = emit (comment (label_again (Label.ip t)) ∷ []) c

    c2 : Compiler
    c2 = emit (label (Label.ip t) ∷ []) (record c { done = (t, c.top) ∷ c.done })

    noted : Extends 0 c c1
    noted = Extends-plain c c1 _ (record { no_labels = refl; no_targets = refl }) refl refl refl

    knows : (u : ℕ) → Known c u → Known c2 u
    knows u (inl h) = inl (has-cons u t c.top c.done h)
    knows u (inr h) = inr h

    advanced : Advances 0 c c2
    advanced = record {
      stays = λ u h. has-cons u t c.top c.done h;
      grows = omega arith;
      knows = knows;
    }
