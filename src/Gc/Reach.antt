-- ===== src/Gc/Reach.antt =====
-- The objects that a program can reach, and the mark phase of runtime/gc.c.
use lama_rv_workshop.Base.{
  ℕ, ◌+◌, ◌-◌, ◌≡◌, ◌↔◌, refl, true, false, arith, List, [], ◌∷◌, inl, inr, true-false, sym, ◌∙◌,
}
use lama_rv_workshop.Base.Outcome.{ok, ok-injective}
use lama_rv_workshop.Gc.State.{State}
use lama_rv_workshop.Gc.Object.{obj_size_header_ptr, is_valid_heap_pointer}
use lama_rv_workshop.Gc.Layout.{marked_at}
use lama_rv_workshop.Gc.Compact.Relocate.{When}
use lama_rv_workshop.Gc.Compact.Fields.{in_words}
use lama_rv_workshop.Gc.Compact.Objects.{fields_from}
use lama_rv_workshop.Gc.Mark.{mark_phase}
use lama_rv_workshop.Gc.Mark.Row.{At}
use lama_rv_workshop.Gc.Mark.Queue.{IsContent}
use lama_rv_workshop.Gc.Mark.Loop.{Spread, at_entry, by_field}
use lama_rv_workshop.Gc.Mark.Phase.{IsMarked, MarkedFrom, is_mark_root, mark_phase_lem}
use lama_rv_workshop.Gc.Collect.{Collectable, field-IsMarked}

-- The word at `b` leads to the object at `o`.
abbrev pub LeadsTo : State → ℕ → ℕ → Type 0
LeadsTo s b o = (is_valid_heap_pointer s.heap (s.mem b) ≡ true) × (s.mem b ≡ o + 16)

-- The objects that roots lead to, and those that fields of such objects lead to.
pub data Reachable (s : State) : ℕ → Type 0 where
  root : {o b : ℕ} → is_mark_root s b ≡ true → LeadsTo s b o → Reachable s o
  field :
      {o p n b : ℕ}
      → Reachable s o
      → obj_size_header_ptr s.mem o ≡ ok n
      → in_words (fields_from s.mem o n) (o + n) b ≡ true
      → LeadsTo s b p
      → Reachable s p

module _ (s : State) (ns : List ℕ) (c : Collectable s ns) where
  lead :
      (b o : ℕ)
      → LeadsTo s b o
      → When (is_valid_heap_pointer s.heap (s.mem b)) (IsContent s.heap s.mem ns (s.mem b))
      → At s.heap.begin ns o
  lead b o leads object =
      let x : IsContent s.heap s.mem ns (s.mem b) = rw leads.0 at object in
      let same : o ≡ x.0 = omega (arith, leads.1, x.2) in rw same x.1

  -- A reachable object is one of the row.
  Reachable-At : {o : ℕ} → Reachable s o → At s.heap.begin ns o
  Reachable-At (root {o} {b} e leads) = lead b o leads (c.roots b e).1
  Reachable-At (field {o} {p} {n} {b} r sized h leads) =
      lead b p leads (c.wf o n b (Reachable-At r) sized h)

  led :
      (m' : ℕ → ℕ) (b o : ℕ)
      → LeadsTo s b o
      → IsMarked s.heap s.mem ns c.row c.aligned c.wf m' (s.mem b)
      → marked_at m' o ≡ true
  led m' b o leads marked =
      let f : marked_at m' (s.mem b - 16) ≡ true = rw leads.0 at marked in
      let same : o ≡ s.mem b - 16 = omega (arith, leads.1) in rw same f

  Reachable-marked :
      (m' : ℕ → ℕ) {o : ℕ}
      → MarkedFrom s ns c.row c.aligned c.wf m'
      → Reachable s o
      → marked_at m' o ≡ true
  Reachable-marked m' done (root {o} {b} e leads) = led m' b o leads (done.roots b e)
  Reachable-marked m' done (field {o} {p} {n} {b} r sized h leads) = led m' b p leads (
      field-IsMarked s ns c.row c.aligned c.wf m' done o n b (Reachable-At r) sized
        (Reachable-marked m' done r) h)

-- What is reached is marked by the mark phase.
mark_phase-marked :
    (s s1 : State) (ns : List ℕ) (o : ℕ)
    → Collectable s ns
    → mark_phase s ≡ ok s1
    → Reachable s o
    → marked_at s1.mem o ≡ true
mark_phase-marked s s1 ns o c marked r =
    let e = mark_phase_lem s ns c.row c.aligned c.wf c.clean c.roots in
    let same : record s { mem = e.0 } ≡ s1 = ok-injective _ _ (sym e.1 ∙ marked) in
    rw (← same) (Reachable-marked s ns c e.0 e.2 r)

-- What a root leads to is reached.
Spread-Reachable :
    (s : State) (ns : List ℕ) (c : Collectable s ns) (b : ℕ)
    → is_mark_root s b ≡ true
    → is_valid_heap_pointer s.heap (s.mem b) ≡ true
    → (x o : ℕ) → Spread s.heap s.mem ns c.row c.aligned (s.mem b ∷ []) x
    → x ≡ o + 16
    → Reachable s o
Spread-Reachable s ns c b source valid x o (at_entry (inl e)) at =
    root {o = o} {b = b} source (valid, sym e ∙ at)
Spread-Reachable s ns c b source valid x o (at_entry (inr none)) at = elim none [ ]
Spread-Reachable s ns c b source valid x o (by_field p n f spread sized h leads e) at =
    field {o = p} {p = o} {n = n} {b = f}
      (Spread-Reachable s ns c b source valid (p + 16) p spread refl) sized h (leads, sym e ∙ at)

-- What the mark phase marks is reached.
marked-Reachable :
    (s s1 : State) (ns : List ℕ) (o : ℕ)
    → Collectable s ns
    → mark_phase s ≡ ok s1
    → marked_at s.mem o ≡ false
    → marked_at s1.mem o ≡ true
    → Reachable s o
marked-Reachable s s1 ns o c marked before after =
    let r = mark_phase_lem s ns c.row c.aligned c.wf c.clean c.roots in
    let same : record s { mem = r.0 } ≡ s1 = ok-injective _ _ (sym r.1 ∙ marked) in
    let now : marked_at r.0 o ≡ true = rw (← same) at after in
    elim (r.2.only o now) [
      | inl e ↦ absurd (true-false _ e before)
      | inr (b, source, valid, spread) ↦
          Spread-Reachable s ns c b source valid (o + 16) o spread refl
    ]

-- On a heap that is a row of objects with no queue and with no marks, or marks that are closed
-- under references, with all references of objects and of roots into it leading to objects, an
-- object that was not marked is marked after the mark phase if and only if a root leads to it, or
-- a field of such an object does, over any number of steps.
pub mark_phase-Reachable :
    (s s1 : State) (ns : List ℕ) (o : ℕ)
    → Collectable s ns
    → mark_phase s ≡ ok s1
    → marked_at s.mem o ≡ false
    → (marked_at s1.mem o ≡ true) ↔ Reachable s o
mark_phase-Reachable s s1 ns o c marked before =
    (marked-Reachable s s1 ns o c marked before, mark_phase-marked s s1 ns o c marked)
