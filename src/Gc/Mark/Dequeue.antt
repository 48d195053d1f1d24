-- ===== src/Gc/Mark/Dequeue.antt =====
-- The object at the head of the queue is taken out and marked, in runtime/gc.c.
use lama_rv_workshop.Base.{
  ℕ, ◌+◌, ◌-◌, ◌≡◌, refl, ◌≢◌, ◌⊎◌, true, false, ◌==◌, arith, List, [], ◌∷◌, inl, inr, Bool-cases,
  ==_refl, true-false, sym, ◌∙◌,
}
use lama_rv_workshop.Base.Outcome.{ok}
use lama_rv_workshop.Gc.State.{Mem, Chunk, write}
use lama_rv_workshop.Gc.Object.{
  obj_size_header_ptr, forward_part, dequeue_bit, set_mark_bit, make_dequeued, mark_object,
  get_forward_address, get_obj_header_ptr, get_type_row_ptr, get_mark_bit, enqueued_bit,
}
use lama_rv_workshop.Gc.Object.Laws.{
  block, content_of_size, next_of_size, slot_of_content, forward_word_laws,
}
use lama_rv_workshop.Gc.Layout.{Layout, marked_at}
use lama_rv_workshop.Gc.Compact.Redirect.{type_of_size}
use lama_rv_workshop.Gc.Mark.{queue_dequeue}
use lama_rv_workshop.Gc.Mark.Row.{At, OffSlots-At, enqueued_at, is_white, whites-le}
use lama_rv_workshop.Gc.Mark.Queue.{QueueOf, Within, Inv}
use lama_rv_workshop.Gc.Mark.Visit.{Seen}

-- The memory after `make_dequeued` and `mark_object` of the object at `o`.
abbrev pub dequeued : Mem → ℕ → Mem
dequeued m o = write m (o + 8) (dequeue_bit (m (o + 8)))

abbrev pub marked : Mem → ℕ → Mem
marked m o = let m1 = dequeued m o in write m1 (o + 8) (set_mark_bit (m1 (o + 8)))

-- The bits and the forward addresses of `m'`, by those of `m`.
pub record Takes (m m' : Mem) (o : ℕ) : Type 0 where
  pub this : marked_at m' o ≡ true
  pub out : enqueued_at m' o ≡ false
  pub marks : (p : ℕ) → p ≢ o → marked_at m' p ≡ marked_at m p
  pub others : (p : ℕ) → p ≢ o → enqueued_at m' p ≡ enqueued_at m p
  pub keeps : (p : ℕ) → forward_part (m' (p + 8)) ≡ forward_part (m (p + 8))
  pub words : (b : ℕ) → b ≢ o + 8 → m' b ≡ m b

-- Dequeuing and marking, on one word.
take_bit : ℕ → ℕ
take_bit w = set_mark_bit (dequeue_bit w)

take_bits :
    (w : ℕ)
    → (get_mark_bit (take_bit w) ≡ true)
      × (enqueued_bit (take_bit w) ≡ false)
      × (forward_part (take_bit w) ≡ forward_part w)
unfolding take_bit
take_bits w =
    let first = (forward_word_laws w 0 refl).2 in
    let laws = (forward_word_laws (dequeue_bit w) 0 refl).1 in
    (laws.1, laws.2 ∙ first.5, laws.0 ∙ first.3)

pub marked-Takes : (m : Mem) (o : ℕ) → Takes m (marked m o) o
unfolding take_bit
marked-Takes m o =
    let at = ==_refl (o + 8) in
    let bits = take_bits (m (o + 8)) in
    record {
      this = rw at bits.0;
      out = rw at bits.1;
      marks = λ p ne. let e : (o + 8 == p + 8) ≡ false = ground arith in rw e refl;
      others = λ p ne. let e : (o + 8 == p + 8) ≡ false = ground arith in rw e refl;
      keeps = λ p. elim (Bool-cases (o + 8 == p + 8)) [
        | inl e ↦ let same : p ≡ o = ground arith in rw (same, at) bits.2
        | inr e ↦ rw e refl
      ];
      words = λ b ne. let e : (o + 8 == b) ≡ false = ground arith in rw e refl;
    }

QueueOf-keeps :
    (m m' : Mem) (head : ℕ) (ks : List ℕ) (tail : ℕ) (rest xs : List ℕ)
    → ((p : ℕ) → forward_part (m' (p + 8)) ≡ forward_part (m (p + 8)))
    → QueueOf m head ks tail rest xs
    → QueueOf m' head ks tail rest xs
QueueOf-keeps m m' head ks tail rest [] same q = q
QueueOf-keeps m m' head [] tail rest (x ∷ xs) same q = elim q [ ]
QueueOf-keeps m m' head (k ∷ ks) tail rest (x ∷ xs) same q =
    (same head ∙ q.0, QueueOf-keeps m m' (head + block k) ks tail rest xs same q.1)

module _ (heap : Chunk) (m₀ : Mem) (ns : List ℕ) (row : Layout m₀ heap.begin ns heap.current) where
  pub Inv-marked :
      (m : Mem) (head k : ℕ) (ks : List ℕ) (tail : ℕ) (rest xs : List ℕ) (o : ℕ)
      → Inv heap m₀ ns m head (k ∷ ks) tail rest ((o + 16) ∷ xs)
      → At heap.begin ns o
      → Takes m (marked m o) o
      → Inv heap m₀ ns (marked m o) (head + block k) ks tail rest xs
  Inv-marked m head k ks tail rest xs o inv at takes = record {
    frame = λ b off. takes.words b (OffSlots-At heap.begin ns b o off at) ∙ inv.frame b off;
    suffix = inv.suffix.3;
    inside = λ p here. inv.inside p (inr here);
    queue = QueueOf-keeps m m' (head + block k) ks tail rest xs takes.keeps inv.queue.1;
    entries = λ x w. inv.entries x (inr w);
    queued = queued';
    room = omega (arith, whites-le m m' heap.begin ns whiter, inv.room);
  }
    where
      m' : Mem
      m' = marked m o

      same_or_other : (p : ℕ) → (p ≡ o) ⊎ (p ≢ o)
      same_or_other p = elim (Bool-cases (p == o)) [
        | inl e ↦ inl (ground arith)
        | inr e ↦ inr (λ f. absurd (ground arith))
      ]

      queued' : (p : ℕ) → At heap.begin ns p → enqueued_at m' p ≡ true → Within (p + 16) xs
      queued' p here e = elim (same_or_other p) [
        | inl same ↦
            let gone : enqueued_at m' p ≡ false = rw same takes.out in absurd (true-false _ e gone)
        | inr other ↦ elim (inv.queued p here (sym (takes.others p other) ∙ e)) [
          | inl f ↦ absurd (other (omega arith))
          | inr w ↦ w
        ]
      ]

      whiter : (p : ℕ) → At heap.begin ns p → is_white m' p ≡ true → is_white m p ≡ true
      whiter p here e = elim (same_or_other p) [
        | inl same ↦
            let dark : is_white m' p ≡ false = rw (same, takes.this) refl in
            absurd (true-false _ e dark)
        | inr other ↦ rw (takes.marks p other, takes.others p other) at e
      ]

  pub Seen-marked : (m : Mem) (o p : ℕ) → Takes m (marked m o) o → Seen m p → Seen (marked m o) p
  Seen-marked m o p takes seen = elim (Bool-cases (p == o)) [
    | inl e ↦ let same : p ≡ o = ground arith in inl (rw same takes.this)
    | inr e ↦
        let other : p ≢ o = λ f. absurd (ground arith) in
        elim seen [ inl f ↦ inl (takes.marks p other ∙ f) | inr f ↦ inr (takes.others p other ∙ f) ]
  ]

pub queue_dequeue_lem :
    (m : Mem) (head k o : ℕ)
    → obj_size_header_ptr m head ≡ ok k
    → obj_size_header_ptr (dequeued m o) head ≡ ok k
    → forward_part (m (head + 8)) ≡ o + 16
    → queue_dequeue m head ≡ ok (dequeued m o, head + block k, o + 16)
unfolding queue_dequeue get_forward_address make_dequeued
queue_dequeue_lem m head k o sized sized' e =
    rw
      (
        content_of_size m head k sized,
        slot_of_content head,
        e,
        slot_of_content o,
        next_of_size (dequeued m o) head k sized',
      )
      refl

pub mark_object_lem : (m : Mem) (o : ℕ) → mark_object (dequeued m o) (o + 16) ≡ marked m o
unfolding mark_object
mark_object_lem m o = rw (slot_of_content o) refl

pub header_lem :
    (m : Mem) (o n : ℕ) → obj_size_header_ptr m o ≡ ok n → get_obj_header_ptr m (o + 16) ≡ ok o
unfolding get_obj_header_ptr get_type_row_ptr
header_lem m o n sized =
    let t = type_of_size m o n sized in
    let back : o + 16 - 16 ≡ o = omega arith in rw (back, t.1) refl
