-- ===== src/Gc/Mark/Visit.antt =====
-- One reference is visited in the mark phase of runtime/gc.c.
use lama_rv_workshop.Base.{
  ℕ, ◌+◌, ◌-◌, ◌%◌, ◌≤◌, ◌≡◌, refl, ◌⊎◌, true, false, not, ◌==◌, arith, List, [], ◌∷◌, ◌++◌, inl,
  inr, Bool-cases, and_false, sym, ◌∙◌,
}
use lama_rv_workshop.Base.Outcome.{Outcome, ok}
use lama_rv_workshop.Gc.State.{Mem, Chunk}
use lama_rv_workshop.Gc.Object.{
  obj_size_header_ptr, is_marked, is_enqueued, is_valid_heap_pointer, set_forward_address,
  make_enqueued,
}
use lama_rv_workshop.Gc.Object.Laws.{
  block, obj_size_of_header, content_of_size, next_of_size, slot_of_content,
}
use lama_rv_workshop.Gc.Layout.{Layout, marked_at, block_ge}
use lama_rv_workshop.Gc.Compact.Locations.{OffSlots, OffSlots-below}
use lama_rv_workshop.Gc.Mark.{queue_enqueue, visit}
use lama_rv_workshop.Gc.Compact.Relocate.{When}
use lama_rv_workshop.Gc.Mark.Row.{
  At, At-ge, At-aligned, OffSlots-At, enqueued_at, is_white, whites, whites_less, whites_some,
  count,
}
use lama_rv_workshop.Gc.Mark.Queue.{
  QueueOf, QueueOf-snoc, Within, Within-snoc, Within-last, Within-unsnoc, IsContent, Inv, Enqueues,
  enqueued, enqueued-Enqueues,
}

-- Headers are no forward addresses.
pub OffSlots-head :
    (m : Mem) (a : ℕ) (ns : List ℕ) (end o : ℕ) → Layout m a ns end → At a ns o → OffSlots a ns o
OffSlots-head m a [] end o l at = elim at [ ]
OffSlots-head m a (n ∷ ns) end o l (inl e) =
    (λ f. omega arith, OffSlots-below (a + block n) ns o (omega arith))
OffSlots-head m a (n ∷ ns) end o l (inr at) =
    let far = At-ge (a + block n) ns o at in
    let size = block_ge n l.1 l.2 in
    (λ f. omega arith, OffSlots-head m (a + block n) ns end o l.3 at)

-- What the objects at the tail are.
tail_of :
    (m₀ m : Mem) (head : ℕ) (ks : List ℕ) (tail : ℕ) (rest q : List ℕ) (end : ℕ)
    → Layout m₀ head ks end
    → QueueOf m head ks tail rest q
    → Layout m₀ tail rest end × ((o : ℕ) → At tail rest o → At head ks o)
tail_of m₀ m head ks tail rest [] end l q = (rw (← q.0, ← q.1) l, λ o at. rw (q.0, q.1) at)
tail_of m₀ m head [] tail rest (x ∷ xs) end l q = elim q [ ]
tail_of m₀ m head (k ∷ ks) tail rest (x ∷ xs) end l q =
    let r = tail_of m₀ m (head + block k) ks tail rest xs end l.3 q.1 in
    (r.0, λ o at. inr (r.1 o at))

-- The marks are the same, and what was queued still is.
pub record Keeps (m m' : Mem) : Type 0 where
  pub marks : (o : ℕ) → marked_at m' o ≡ marked_at m o
  pub queues : (o : ℕ) → enqueued_at m o ≡ true → enqueued_at m' o ≡ true

-- Marked or queued.
abbrev pub Seen : Mem → ℕ → Type 0
Seen m o = (marked_at m o ≡ true) ⊎ (enqueued_at m o ≡ true)

pub Keeps-refl : (m : Mem) → Keeps m m
Keeps-refl m = record { marks = λ o. refl; queues = λ o e. e }

pub Keeps-trans : (m1 m2 m3 : Mem) → Keeps m1 m2 → Keeps m2 m3 → Keeps m1 m3
Keeps-trans m1 m2 m3 k l = record {
  marks = λ o. l.marks o ∙ k.marks o;
  queues = λ o e. l.queues o (k.queues o e);
}

pub Seen-Keeps : (m m' : Mem) (o : ℕ) → Keeps m m' → Seen m o → Seen m' o
Seen-Keeps m m' o k (inl e) = inl (k.marks o ∙ e)
Seen-Keeps m m' o k (inr e) = inr (k.queues o e)

pub is_marked_content : (m : Mem) (o : ℕ) → is_marked m (o + 16) ≡ marked_at m o
unfolding is_marked
is_marked_content m o = rw (slot_of_content o) refl

is_enqueued_content : (m : Mem) (o : ℕ) → is_enqueued m (o + 16) ≡ enqueued_at m o
unfolding is_enqueued
is_enqueued_content m o = rw (slot_of_content o) refl

module _ (heap : Chunk) (m₀ : Mem) (ns : List ℕ) (row : Layout m₀ heap.begin ns heap.current)
    (aligned : heap.begin % 8 ≡ 0) where
  -- What is at the tail.
  tail_object :
      (m : Mem) (head : ℕ) (ks : List ℕ) (tail r : ℕ) (rest q : List ℕ)
      → Inv heap m₀ ns m head ks tail (r ∷ rest) q
      → At heap.begin ns tail × OffSlots heap.begin ns tail × (obj_size_header_ptr m tail ≡ ok r)
  tail_object m head ks tail r rest q inv =
      let t = tail_of m₀ m head ks tail (r ∷ rest) q heap.current inv.suffix inv.queue in
      let at = inv.inside tail (t.1 tail (inl refl)) in
      let off = OffSlots-head m₀ heap.begin ns heap.current tail row at in
      (at, off, obj_size_of_header m₀ m tail (inv.frame tail off) ∙ t.0.0)

  queue_enqueue_lem :
      (m : Mem) (tail r o : ℕ)
      → obj_size_header_ptr m tail ≡ ok r
      → obj_size_header_ptr (enqueued m tail o) tail ≡ ok r
      → queue_enqueue m tail (o + 16) ≡ ok (enqueued m tail o, tail + block r)
  unfolding queue_enqueue set_forward_address make_enqueued
  queue_enqueue_lem m tail r o sized sized' =
      rw
        (
          content_of_size m tail r sized,
          slot_of_content tail,
          slot_of_content o,
          next_of_size (enqueued m tail o) tail r sized',
        )
        refl

  enqueue_lem :
      (m : Mem) (head : ℕ) (ks : List ℕ) (tail r : ℕ) (rest q : List ℕ) (o : ℕ)
      → Inv heap m₀ ns m head ks tail (r ∷ rest) q
      → At heap.begin ns o
      → is_white m o ≡ true
      → (queue_enqueue m tail (o + 16) ≡ ok (enqueued m tail o, tail + block r))
        × Inv heap m₀ ns (enqueued m tail o) head ks (tail + block r) rest (q ++ (o + 16) ∷ [])
        × Keeps m (enqueued m tail o)
        × Seen (enqueued m tail o) o
  enqueue_lem m head ks tail r rest q o inv at white = (
    queue_enqueue_lem m tail r o there.2 sized',
    record {
      frame = λ b off.
          step.words b (OffSlots-At heap.begin ns b tail off there.0)
            (OffSlots-At heap.begin ns b o off at)
          ∙ inv.frame b off;
      suffix = inv.suffix;
      inside = inv.inside;
      queue = QueueOf-snoc m m' head ks tail r rest q (o + 16) inv.queue step.keeps step.entry;
      entries = λ x w. elim (Within-unsnoc x (o + 16) q w) [
        | inl old ↦ inv.entries x old
        | inr new ↦ (o, at, new)
      ];
      queued = queued';
      room = room';
    },
    record { marks = step.marks; queues = queues' },
    inr step.this,
  )
    where
      m' : Mem
      m' = enqueued m tail o

      step : Enqueues m m' tail o
      step = enqueued-Enqueues m tail o (At-aligned heap.begin ns o aligned at)

      there :
          At heap.begin ns tail × OffSlots heap.begin ns tail × (obj_size_header_ptr m tail ≡ ok r)
      there = tail_object m head ks tail r rest q inv

      sized' : obj_size_header_ptr m' tail ≡ ok r
      sized' =
          obj_size_of_header m m' tail
            (step.words tail (λ e. omega arith) (OffSlots-At heap.begin ns tail o there.1 at))
          ∙ there.2

      queues' : (p : ℕ) → enqueued_at m p ≡ true → enqueued_at m' p ≡ true
      queues' p e = elim (Bool-cases (p == o)) [
        | inl same ↦ let f : p ≡ o = ground arith in rw f step.this
        | inr other ↦ step.others p (λ f. absurd (ground arith)) ∙ e
      ]

      queued' :
          (p : ℕ)
          → At heap.begin ns p
          → enqueued_at m' p ≡ true
          → Within (p + 16) (q ++ (o + 16) ∷ [])
      queued' p here e = elim (Bool-cases (p == o)) [
        | inl same ↦ let f : p ≡ o = ground arith in rw f (Within-last (o + 16) q)
        | inr other ↦
            let f : enqueued_at m' p ≡ enqueued_at m p =
              step.others p (λ g. absurd (ground arith)) in
            Within-snoc (p + 16) (o + 16) q (inv.queued p here (sym f ∙ e))
      ]

      dark : is_white m' o ≡ false
      dark = rw step.this (and_false (not (marked_at m' o)))

      whiter : (p : ℕ) → At heap.begin ns p → is_white m' p ≡ true → is_white m p ≡ true
      whiter p here e = elim (Bool-cases (p == o)) [
        | inl same ↦ let f : p ≡ o = ground arith in rw f white
        | inr other ↦
            let f : enqueued_at m' p ≡ enqueued_at m p =
              step.others p (λ g. absurd (ground arith)) in
            rw (step.marks p, f) at e
      ]

      room' : whites m' heap.begin ns ≤ count rest
      room' = omega (arith, whites_less m m' heap.begin ns o whiter at white dark, inv.room)

  -- A result of marking: the invariant, with the queue longer and marks as before.
  pub record Progress (m : Mem) (head : ℕ) (ks : List ℕ) (out : Outcome (Mem × ℕ)) : Type 0 where
    pub m' : Mem
    pub tail : ℕ
    pub returns : out ≡ ok (m', tail)
    pub rest : List ℕ
    pub q : List ℕ
    pub inv : Inv heap m₀ ns m' head ks tail rest q
    pub keeps : Keeps m m'

  abbrev pub stays :
      (m : Mem) (head : ℕ) (ks : List ℕ) (tail : ℕ) (rest q : List ℕ)
      → Inv heap m₀ ns m head ks tail rest q
      → Progress m head ks (ok (m, tail))
  stays m head ks tail rest q inv = record {
    m' = m;
    tail = tail;
    returns = refl;
    rest = rest;
    q = q;
    inv = inv;
    keeps = Keeps-refl m;
  }

  -- What is new in a queue leads to where `v` does.
  abbrev News : List ℕ → List ℕ → ℕ → Type 0
  News q q' v = (x : ℕ) → Within x q' → Within x q ⊎ (x ≡ v)

  -- The object at `o`, white, is put into the queue, since there is a place for it.
  pub enqueue_white :
      (m : Mem) (head : ℕ) (ks : List ℕ) (tail : ℕ) (rest q : List ℕ) (o : ℕ)
      → Inv heap m₀ ns m head ks tail rest q
      → At heap.begin ns o
      → is_white m o ≡ true
      → (p : Progress m head ks (queue_enqueue m tail (o + 16))) × Seen p.m' o × News q p.q (o + 16)
  enqueue_white m head ks tail [] q o inv at white =
      absurd (omega (arith, whites_some m heap.begin ns o at white, inv.room))
  enqueue_white m head ks tail (r ∷ rest) q o inv at white =
      let e = enqueue_lem m head ks tail r rest q o inv at white in
      (
        record {
          m' = enqueued m tail o;
          tail = tail + block r;
          returns = e.0;
          rest = rest;
          q = q ++ (o + 16) ∷ [];
          inv = e.1;
          keeps = e.2;
        },
        e.3,
        λ x w. Within-unsnoc x (o + 16) q w,
      )

  visit_content :
      (m : Mem) (head : ℕ) (ks : List ℕ) (tail : ℕ) (rest q : List ℕ) (o : ℕ)
      → Inv heap m₀ ns m head ks tail rest q
      → At heap.begin ns o
      → is_valid_heap_pointer heap (o + 16) ≡ true
      → (p : Progress m head ks (visit heap m tail (o + 16))) × Seen p.m' o × News q p.q (o + 16)
  unfolding visit
  visit_content m head ks tail rest q o inv at valid = elim (Bool-cases (marked_at m o)) [
    | inl e ↦
        rw (valid, is_marked_content m o, e) (stays m head ks tail rest q inv, inl e, λ x w. inl w)
    | inr e ↦ elim (Bool-cases (enqueued_at m o)) [
      | inl f ↦
          rw (valid, is_marked_content m o, e, is_enqueued_content m o, f)
            (stays m head ks tail rest q inv, inr f, λ x w. inl w)
      | inr f ↦
          let white : is_white m o ≡ true = rw (e, f) refl in
          rw (valid, is_marked_content m o, e, is_enqueued_content m o, f)
            (enqueue_white m head ks tail rest q o inv at white)
    ]
  ]

  visit_valid :
      (m : Mem) (head : ℕ) (ks : List ℕ) (tail : ℕ) (rest q : List ℕ) (v o : ℕ)
      → Inv heap m₀ ns m head ks tail rest q
      → At heap.begin ns o
      → v ≡ o + 16
      → is_valid_heap_pointer heap v ≡ true
      → (p : Progress m head ks (visit heap m tail v)) × Seen p.m' (v - 16) × News q p.q v
  visit_valid m head ks tail rest q v o inv at e valid =
      let back : o + 16 - 16 ≡ o = omega arith in
      rw (e, back) (visit_content m head ks tail rest q o inv at (rw (← e) valid))

  visit_none :
      (m : Mem) (tail v : ℕ)
      → is_valid_heap_pointer heap v ≡ false
      → visit heap m tail v ≡ ok (m, tail)
  unfolding visit
  visit_none m tail v e = rw e refl

  -- A reference into the heap is marked or queued when it has been visited.
  pub visit_lem :
      (m : Mem) (head : ℕ) (ks : List ℕ) (tail : ℕ) (rest q : List ℕ) (v : ℕ)
      → Inv heap m₀ ns m head ks tail rest q
      → When (is_valid_heap_pointer heap v) (IsContent heap m₀ ns v)
      → (p : Progress m head ks (visit heap m tail v)) × When
          (is_valid_heap_pointer heap v)
          (Seen p.m' (v - 16))
        × ((x : ℕ) → Within x p.q → Within x q ⊎ ((is_valid_heap_pointer heap v ≡ true) × (x ≡ v)))
  visit_lem m head ks tail rest q v inv ref = elim (Bool-cases (is_valid_heap_pointer heap v)) [
    | inl valid ↦
        let c : IsContent heap m₀ ns v = rw valid at ref in
        let r = visit_valid m head ks tail rest q v c.0 inv c.1 c.2 valid in
        (
          r.0,
          rw valid r.1,
          λ x w. elim (r.2 x w) [ inl old ↦ inl old | inr new ↦ inr (valid, new) ],
        )
    | inr none ↦
        rw (visit_none m tail v none) (stays m head ks tail rest q inv, rw none tt, λ x w. inl w)
  ]
