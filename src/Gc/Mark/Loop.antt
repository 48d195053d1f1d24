-- ===== src/Gc/Mark/Loop.antt =====
-- The loop over the queue in `mark` of runtime/gc.c.
use lama_rv_workshop.Base.{
  ℕ, zero, suc, ◌+◌, ◌-◌, ◌%◌, ◌≤◌, ◌<◌, ◌≡◌, refl, ◌≢◌, ◌⊎◌, true, false, ◌==◌, arith, List, [],
  ◌∷◌, inl, inr, Bool-cases, ==_refl, ne→==_false, sym, ◌∙◌,
}
use lama_rv_workshop.Base.Word.{word_mod}
use lama_rv_workshop.Base.Outcome.{Outcome, ok, ◌>>=◌, >>=-run}
use lama_rv_workshop.Gc.State.{Mem, Chunk}
use lama_rv_workshop.Gc.Object.{
  obj_size_header_ptr, forward_part, is_valid_pointer, is_valid_heap_pointer,
}
use lama_rv_workshop.Gc.Object.Laws.{block, obj_size_of_header}
use lama_rv_workshop.Gc.Layout.{Layout, marked_at, Layout-le, block_ge}
use lama_rv_workshop.Gc.Field.{field_begin_iterator, ptr_field_begin_iterator}
use lama_rv_workshop.Gc.Compact.Locations.{OffSlots, OffSlots-below}
use lama_rv_workshop.Gc.Compact.Relocate.{When, When-map}
use lama_rv_workshop.Gc.Compact.Fields.{in_words, in_words_skipped}
use lama_rv_workshop.Gc.Compact.Objects.{
  fields_from, fields_from_ge, begin_lem, ptr_field_begin_iterator_lem, in_words_first,
  in_words_bounds,
}
use lama_rv_workshop.Gc.Mark.{rounds, mark_fields, mark_loop}
use lama_rv_workshop.Gc.Mark.Row.{At, At-ge, At-sized, OffSlots-At, enqueued_at}
use lama_rv_workshop.Gc.Mark.Queue.{QueueOf-le, Within, IsContent, Inv}
use lama_rv_workshop.Gc.Mark.Visit.{OffSlots-head, Progress, Keeps, Seen, Seen-Keeps}
use lama_rv_workshop.Gc.Mark.Scan.{
  FromField, Reference, Reference-Keeps, odd_no_reference, mark_fields_lem,
}
use lama_rv_workshop.Gc.Mark.Dequeue.{
  marked, dequeued, Takes, marked-Takes, Inv-marked, Seen-marked, queue_dequeue_lem,
  mark_object_lem, header_lem,
}

-- The contents of an object are no forward addresses.
pub OffSlots-contents :
    (m : Mem) (a : ℕ) (ns : List ℕ) (end o n b : ℕ)
    → Layout m a ns end
    → At a ns o
    → obj_size_header_ptr m o ≡ ok n
    → o + 16 ≤ b
    → b < o + n
    → OffSlots a ns b
OffSlots-contents m a [] end o n b l at sized lo hi = elim at [ ]
OffSlots-contents m a (k ∷ ns) end o n b l (inl e) sized lo hi =
    let same : n ≡ k = let s = rw e at sized in let t = l.0 in cc in
    let size = block_ge k l.1 l.2 in
    (λ f. omega arith, OffSlots-below (a + block k) ns b (omega arith))
OffSlots-contents m a (k ∷ ns) end o n b l (inr at) sized lo hi =
    let far = At-ge (a + block k) ns o at in
    let size = block_ge k l.1 l.2 in
    (λ f. omega arith, OffSlots-contents m (a + block k) ns end o n b l.3 at sized lo hi)

words_before : (c end b : ℕ) → in_words (c + 8) end b ≡ true → (in_words c end b ≡ true) × (b ≢ c)
words_before c end b e = ground arith

module _ (heap : Chunk) (m₀ : Mem) (ns : List ℕ) (row : Layout m₀ heap.begin ns heap.current)
    (aligned : heap.begin % 8 ≡ 0) where
  -- The references of the object at `o`.
  abbrev pub FieldsSeen : Mem → ℕ → Type 0
  FieldsSeen m o =
      (n b : ℕ)
      → obj_size_header_ptr m₀ o ≡ ok n
      → in_words (fields_from m₀ o n) (o + n) b ≡ true
      → Reference heap m₀ ns row aligned m (m₀ b)

  -- All references of marked objects are to marked or to queued ones.
  abbrev pub Closed : Mem → Type 0
  Closed m = (o : ℕ) → At heap.begin ns o → marked_at m o ≡ true → FieldsSeen m o

  -- All references of objects into the heap are to objects.
  abbrev pub WellFormed : Type 0
  WellFormed =
      (o n b : ℕ)
      → At heap.begin ns o
      → obj_size_header_ptr m₀ o ≡ ok n
      → in_words (fields_from m₀ o n) (o + n) b ≡ true
      → When (is_valid_heap_pointer heap (m₀ b)) (IsContent heap m₀ ns (m₀ b))

  -- What a queue's entries lead to, by fields over any number of steps.
  pub data Spread (q : List ℕ) : ℕ → Type 0 where
    at_entry : {x : ℕ} → Within x q → Spread q x
    by_field :
        {x : ℕ} (p n b : ℕ)
        → Spread q (p + 16)
        → obj_size_header_ptr m₀ p ≡ ok n
        → in_words (fields_from m₀ p n) (p + n) b ≡ true
        → is_valid_heap_pointer heap (m₀ b) ≡ true
        → x ≡ m₀ b
        → Spread q x

  pub Spread-map :
      (q q' : List ℕ) {x : ℕ} → ((y : ℕ) → Within y q → Spread q' y) → Spread q x → Spread q' x
  Spread-map q q' into (at_entry w) = into _ w
  Spread-map q q' into (by_field p n b s sized h valid e) =
      by_field p n b (Spread-map q q' into s) sized h valid e

  -- A result of `mark_loop`: the queue is empty, and what was marked or queued is marked.
  pub record Done (m : Mem) (q : List ℕ) (out : Outcome Mem) : Type 0 where
    pub m' : Mem
    pub returns : out ≡ ok m'
    pub frame : (b : ℕ) → OffSlots heap.begin ns b → m' b ≡ m₀ b
    pub closed : Closed m'
    pub clear : (o : ℕ) → At heap.begin ns o → enqueued_at m' o ≡ false
    pub seen : (o : ℕ) → Seen m o → Seen m' o
    pub only : (o : ℕ) → marked_at m' o ≡ true → (marked_at m o ≡ true) ⊎ Spread q (o + 16)

  -- The fields of the object at `o` are visited.
  module _ (wf : WellFormed) (m : Mem) (head : ℕ) (ks : List ℕ) (tail : ℕ) (rest q : List ℕ)
      (o n : ℕ) (inv : Inv heap m₀ ns m head ks tail rest q) (at : At heap.begin ns o)
      (sized : obj_size_header_ptr m₀ o ≡ ok n) (big : 16 ≤ n) (lt : n < rounds heap) where
    abbrev ScanDone : ℕ → Type 0
    ScanDone start =
        (p : Progress heap m₀ ns row aligned m head ks
          (ptr_field_begin_iterator (rounds heap) m o >>= mark_fields heap (rounds heap) m tail))
        × ((b : ℕ) → in_words start (o + n) b ≡ true → Reference heap m₀ ns row aligned p.m' (m₀ b))
        × ((x : ℕ) → Within x p.q → Within x q ⊎ FromField heap m₀ ns row aligned start (o + n) x)

    scan_at :
        (c : ℕ)
        → field_begin_iterator m o ≡ ok (record { obj_ptr = o; cur_field = c + 8 })
        → o + 16 ≤ c + 8
        → ((b : ℕ)
            → in_words (c + 8) (o + n) b ≡ true
            → When (is_valid_heap_pointer heap (m₀ b)) (IsContent heap m₀ ns (m₀ b)))
        → ScanDone (c + 8)
    scan_at c begun from refs =
        let off : (b : ℕ) → o + 16 ≤ b → b < o + n → OffSlots heap.begin ns b =
          λ b h k. OffSlots-contents m₀ heap.begin ns heap.current o n b row at sized h k in
        let offo = OffSlots-head m₀ heap.begin ns heap.current o row at in
        let sized1 : obj_size_header_ptr m o ≡ ok n =
          obj_size_of_header m₀ m o (inv.frame o offo) ∙ sized in
        let first = ptr_field_begin_iterator_lem (rounds heap) m o n c sized1 begun (omega arith) in
        let inner : (b : ℕ)
            → in_words first.0 (o + n) b ≡ true
            → in_words (c + 8) (o + n) b ≡ true =
          λ b h. in_words_first c first.0 first.2.steps (o + n) b first.2.there h in
        let r =
          mark_fields_lem heap m₀ ns row aligned (rounds heap) m head ks tail rest q o n first.0 inv
            sized off offo
            (lt, omega (arith, first.2.there), omega arith, omega (arith, first.2.there))
            (λ b h. refs b (inner b h)) in
        (
          record {
            m' = r.0.m';
            tail = r.0.tail;
            returns = rw first.1 r.0.returns;
            rest = r.0.rest;
            q = r.0.q;
            inv = r.0.inv;
            keeps = r.0.keeps;
          },
          λ b e. elim (Bool-cases (in_words first.0 (o + n) b)) [
            | inl f ↦ r.1 b f
            | inr f ↦
                let bounds = in_words_bounds (c + 8) (o + n) b e in
                let k : (in_words c (o + n) b ≡ true) × (b ≢ c) = words_before c (o + n) b e in
                elim (in_words_skipped c first.0 first.2.steps (o + n) b first.2.there f k.0) [
                  | inl here ↦ absurd (k.1 here)
                  | inr (i, less, where_b) ↦
                      let same : m b ≡ m₀ b =
                        inv.frame b (off b (omega (arith, bounds)) bounds.1) in
                      let odd : is_valid_pointer (m₀ b) ≡ false =
                        rw (← same, where_b) (first.2.skipped i less) in
                      rw (odd_no_reference heap (m₀ b) odd) tt
                ]
          ],
          λ x w. elim (r.2 x w) [
            | inl old ↦ inl old
            | inr new ↦ inr (new.0, inner new.0 new.1, new.2, new.3)
          ],
        )

    scan_from :
        (start c : ℕ)
        → start ≡ c + 8
        → field_begin_iterator m o ≡ ok (record { obj_ptr = o; cur_field = start })
        → o + 16 ≤ start
        → ((b : ℕ)
            → in_words start (o + n) b ≡ true
            → When (is_valid_heap_pointer heap (m₀ b)) (IsContent heap m₀ ns (m₀ b)))
        → ScanDone start
    scan_from start c e = rw e (scan_at c)

    scan_lem : ScanDone (fields_from m₀ o n)
    scan_lem =
        let offo = OffSlots-head m₀ heap.begin ns heap.current o row at in
        let head_same = inv.frame o offo in
        let sized1 : obj_size_header_ptr m o ≡ ok n = obj_size_of_header m₀ m o head_same ∙ sized in
        let from = fields_from_ge m₀ o n big in
        let begun : field_begin_iterator m o
            ≡ ok (record { obj_ptr = o; cur_field = fields_from m₀ o n }) =
          begin_lem m o n sized1 ∙ rw head_same refl in
        scan_from (fields_from m₀ o n) (fields_from m₀ o n - 8) (omega arith) begun from
          (λ b e. wf o n b at sized e)

  loop_end : (fuel : ℕ) (m : Mem) (tail : ℕ) → mark_loop heap (suc fuel) m tail tail ≡ ok m
  unfolding mark_loop
  loop_end fuel m tail = rw (==_refl tail) refl

  loop_step :
      (fuel : ℕ) (m m3 : Mem) (head tail tail' k o n : ℕ) (out : Outcome Mem)
      → head < tail
      → obj_size_header_ptr m head ≡ ok k
      → obj_size_header_ptr (dequeued m o) head ≡ ok k
      → forward_part (m (head + 8)) ≡ o + 16
      → obj_size_header_ptr (marked m o) o ≡ ok n
      → (ptr_field_begin_iterator (rounds heap) (marked m o) o
          >>= mark_fields heap (rounds heap) (marked m o) tail)
        ≡ ok (m3, tail')
      → mark_loop heap fuel m3 (head + block k) tail' ≡ out
      → mark_loop heap (suc fuel) m head tail ≡ out
  unfolding mark_loop
  loop_step fuel m m3 head tail tail' k o n out lt sized sized' e sized2 scanned rest =
      let going : (head == tail) ≡ false = ground arith in
      rw
        (
          going,
          queue_dequeue_lem m head k o sized sized' e,
          mark_object_lem m o,
          header_lem (marked m o) o n sized2,
        )
        (>>=-run (ptr_field_begin_iterator (rounds heap) (marked m o) o)
          (mark_fields heap (rounds heap) (marked m o) tail)
          (λ x. mark_loop heap fuel x.0 (head + block k) x.1) (m3, tail') out scanned rest)

  -- One round takes the first entry, and marks it and visits its fields.
  record Round (m : Mem) (head : ℕ) (k : ℕ) (ks : List ℕ) (tail : ℕ) (q : List ℕ) : Type 0 where
    m' : Mem
    tail' : ℕ
    rest' : List ℕ
    q' : List ℕ
    inv : Inv heap m₀ ns m' (head + block k) ks tail' rest' q'
    closed : Closed m'
    seen : (o : ℕ) → Seen m o → Seen m' o
    news : (x : ℕ) → Within x q' → Spread q x
    marks : (p : ℕ) → marked_at m' p ≡ true → (marked_at m p ≡ true) ⊎ Spread q (p + 16)
    run :
        (fuel : ℕ) (out : Outcome Mem)
        → mark_loop heap fuel m' (head + block k) tail' ≡ out
        → mark_loop heap (suc fuel) m head tail ≡ out

  still-Closed :
      (m m' : Mem) (o : ℕ)
      → Closed m
      → Takes m (marked m o) o
      → Keeps (marked m o) m'
      → FieldsSeen m' o
      → Closed m'
  still-Closed m m' o closed takes keeps here p at e = elim (Bool-cases (p == o)) [
    | inl f ↦ let same : p ≡ o = ground arith in rw same here
    | inr f ↦
        let other : p ≢ o = λ g. absurd (ground arith) in
        let was : marked_at m p ≡ true = sym (takes.marks p other) ∙ sym (keeps.marks p) ∙ e in
        λ n b sized h. Reference-Keeps heap m₀ ns row aligned (marked m o) m' (m₀ b) keeps (
          When-map (is_valid_heap_pointer heap (m₀ b)) _ _
            (Seen-marked heap m₀ ns row m o (m₀ b - 16) takes) (closed p at was n b sized h))
  ]

  round_lem :
      (wf : WellFormed) (m : Mem) (head k : ℕ) (ks : List ℕ) (tail : ℕ) (rest xs : List ℕ) (o : ℕ)
      → Inv heap m₀ ns m head (k ∷ ks) tail rest ((o + 16) ∷ xs)
      → Closed m
      → At heap.begin ns o
      → heap.begin ≤ head
      → Round m head k ks tail ((o + 16) ∷ xs)
  round_lem wf m head k ks tail rest xs o inv closed at from = record {
    m' = scan.0.m';
    tail' = scan.0.tail;
    rest' = scan.0.rest;
    q' = scan.0.q;
    inv = scan.0.inv;
    closed = still-Closed m scan.0.m' o closed takes scan.0.keeps fields_seen;
    seen = λ p s.
        Seen-Keeps (marked m o) scan.0.m' p scan.0.keeps (Seen-marked heap m₀ ns row m o p takes s);
    news = λ x w. elim (scan.2 x w) [
      | inl old ↦ at_entry (inr old)
      | inr new ↦ by_field o object.0 new.0 (at_entry (inl refl)) object.1 new.1 new.2 new.3
    ];
    marks = λ p e. elim (Bool-cases (p == o)) [
      | inl f ↦ let same : p ≡ o = ground arith in inr (rw same (at_entry (inl refl)))
      | inr f ↦
          let other : p ≢ o = λ g. absurd (ground arith) in
          inl (sym (takes.marks p other) ∙ sym (scan.0.keeps.marks p) ∙ e)
    ];
    run = λ fuel out rest_run.
        loop_step fuel m scan.0.m' head tail scan.0.tail k o object.0 out (omega (arith, behind))
          sized sized' inv.queue.0 sized2 scan.0.returns rest_run;
  }
    where
      takes : Takes m (marked m o) o
      takes = marked-Takes m o

      inv2 : Inv heap m₀ ns (marked m o) (head + block k) ks tail rest xs
      inv2 = Inv-marked heap m₀ ns row m head k ks tail rest xs o inv at takes

      object :
          (n : ℕ) × (obj_size_header_ptr m₀ o ≡ ok n)
          × (16 ≤ n)
          × (n < word_mod)
          × (o + block n ≤ heap.current)
      object = At-sized m₀ heap.begin ns heap.current o row at

      fits : object.0 < rounds heap
      fits = omega (arith, At-ge heap.begin ns o at, object.4, block_ge object.0 object.2 object.3)

      scan :
          ScanDone wf
            (marked m o)
            (head + block k)
            ks
            tail
            rest
            xs
            o
            object.0
            inv2
            at
            object.1
            object.2
            fits
            (fields_from m₀ o object.0)
      scan =
          scan_lem wf (marked m o) (head + block k) ks tail rest xs o object.0 inv2 at object.1
            object.2 fits

      fields_seen : FieldsSeen scan.0.m' o
      fields_seen n b e h =
          let same : object.0 ≡ n = let f = object.1 in let g = e in cc in scan.1 b (rw same h)

      behind : head + block k ≤ tail
      behind = QueueOf-le m (head + block k) ks tail rest xs inv.queue.1

      head_at : At heap.begin ns head
      head_at = inv.inside head (inl refl)

      head_off : OffSlots heap.begin ns head
      head_off = OffSlots-head m₀ heap.begin ns heap.current head row head_at

      sized : obj_size_header_ptr m head ≡ ok k
      sized = obj_size_of_header m₀ m head (inv.frame head head_off) ∙ inv.suffix.0

      sized' : obj_size_header_ptr (dequeued m o) head ≡ ok k
      sized' =
          let other : (o + 8 == head) ≡ false =
            ne→==_false (o + 8) head (λ e. OffSlots-At heap.begin ns head o head_off at (sym e)) in
          obj_size_of_header m (dequeued m o) head (rw other refl) ∙ sized

      sized2 : obj_size_header_ptr (marked m o) o ≡ ok object.0
      sized2 =
          obj_size_of_header m₀ (marked m o) o
            (inv2.frame o (OffSlots-head m₀ heap.begin ns heap.current o row at))
          ∙ object.1

  pub mark_loop_lem :
      (wf : WellFormed) (fuel : ℕ) (m : Mem) (head : ℕ) (ks : List ℕ) (tail : ℕ) (rest q : List ℕ)
      → Inv heap m₀ ns m head ks tail rest q
      → Closed m
      → (heap.begin ≤ head) × (heap.current < head + fuel)
      → Done m q (mark_loop heap fuel m head tail)
  mark_loop_lem wf zero m head ks tail rest q inv closed lt =
      absurd (omega (arith, lt, Layout-le m₀ head ks heap.current inv.suffix))
  mark_loop_lem wf (suc fuel) m head ks tail rest [] inv closed lt = record {
    m' = m;
    returns = rw inv.queue.0 (loop_end fuel m tail);
    frame = inv.frame;
    closed = closed;
    clear = λ o at. elim (Bool-cases (enqueued_at m o)) [
      | inl e ↦ absurd (inv.queued o at e)
      | inr e ↦ e
    ];
    seen = λ o s. s;
    only = λ o e. inl e;
  }
  mark_loop_lem wf (suc fuel) m head [] tail rest (x ∷ xs) inv closed lt = elim inv.queue [ ]
  mark_loop_lem wf (suc fuel) m head (k ∷ ks) tail rest (x ∷ xs) inv closed lt =
      let entry = inv.entries x (inl refl) in
      let inv' : Inv heap m₀ ns m head (k ∷ ks) tail rest ((entry.0 + 16) ∷ xs) =
        rw entry.2 at inv in
      let r = round_lem wf m head k ks tail rest xs entry.0 inv' closed entry.1 lt.0 in
      let d =
        mark_loop_lem wf fuel r.m' (head + block k) ks r.tail' r.rest' r.q' r.inv r.closed
          (omega (arith, lt), omega (arith, lt)) in
      record {
        m' = d.m';
        returns = r.run fuel (ok d.m') d.returns;
        frame = d.frame;
        closed = d.closed;
        clear = d.clear;
        seen = λ o s. d.seen o (r.seen o s);
        only = λ o e.
            let into : (y : ℕ) → Within y r.q' → Spread (x ∷ xs) y =
              λ y w. let s = r.news y w in rw entry.2 s in
            elim (d.only o e) [
              | inl f ↦ elim (r.marks o f) [ inl g ↦ inl g | inr s ↦ inr (rw entry.2 s) ]
              | inr s ↦ inr (Spread-map r.q' (x ∷ xs) into s)
            ];
      }
