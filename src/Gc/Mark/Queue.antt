-- ===== src/Gc/Mark/Queue.antt =====
-- The queue of the mark phase, kept in the forward addresses of the heap's objects, and its
-- invariant (runtime/gc.c).
use lama_rv_workshop.Base.{
  ℕ, ◌+◌, ◌%◌, ◌≤◌, ◌≡◌, refl, ◌≢◌, ◌⊎◌, true, false, ◌==◌, arith, List, [], ◌∷◌, ◌++◌, inl, inr,
  Bool-cases, ==_refl, ◌∙◌,
}
use lama_rv_workshop.Gc.State.{Mem, write, Chunk}
use lama_rv_workshop.Gc.Object.{forward_part, set_forward_part, enqueue_bit}
use lama_rv_workshop.Gc.Object.Laws.{block, forward_word_laws}
use lama_rv_workshop.Gc.Layout.{Layout, marked_at}
use lama_rv_workshop.Gc.Compact.Locations.{OffSlots}
use lama_rv_workshop.Gc.Mark.Row.{At, enqueued_at, whites, count}

abbrev pub Within : ℕ → List ℕ → Type 0
Within x [] = ⊥
Within x (y ∷ ys) = (x ≡ y) ⊎ Within x ys

-- The entries of a queue, read from the objects of the sizes `ks` at `head`, as far as `tail`, where
-- the objects of the sizes `rest` are.
abbrev pub QueueOf : Mem → ℕ → List ℕ → ℕ → List ℕ → List ℕ → Type 0
QueueOf m head ks tail rest [] = (head ≡ tail) × (ks ≡ rest)
QueueOf m head [] tail rest (x ∷ xs) = ⊥
QueueOf m head (k ∷ ks) tail rest (x ∷ xs) =
    (forward_part (m (head + 8)) ≡ x) × QueueOf m (head + block k) ks tail rest xs

pub QueueOf-le :
    (m : Mem) (head : ℕ) (ks : List ℕ) (tail : ℕ) (rest xs : List ℕ)
    → QueueOf m head ks tail rest xs
    → head ≤ tail
QueueOf-le m head ks tail rest [] q = omega (arith, q.0)
QueueOf-le m head [] tail rest (x ∷ xs) q = elim q [ ]
QueueOf-le m head (k ∷ ks) tail rest (x ∷ xs) q =
    omega (arith, QueueOf-le m (head + block k) ks tail rest xs q.1)

-- A new entry, in the object at the tail.
pub QueueOf-snoc :
    (m m' : Mem) (head : ℕ) (ks : List ℕ) (tail r : ℕ) (rest xs : List ℕ) (x : ℕ)
    → QueueOf m head ks tail (r ∷ rest) xs
    → ((p : ℕ) → p ≢ tail → forward_part (m' (p + 8)) ≡ forward_part (m (p + 8)))
    → forward_part (m' (tail + 8)) ≡ x
    → QueueOf m' head ks (tail + block r) rest (xs ++ x ∷ [])
QueueOf-snoc m m' head [] tail r rest [] x q same there = absurd (let e = q.1 in cc)
QueueOf-snoc m m' head (k ∷ ks) tail r rest [] x q same there =
    let e : k ≡ r = let f = q.1 in cc in
    let f : ks ≡ rest = let g = q.1 in cc in (rw q.0 there, (rw (q.0, e) refl, f))
QueueOf-snoc m m' head [] tail r rest (y ∷ xs) x q same there = elim q [ ]
QueueOf-snoc m m' head (k ∷ ks) tail r rest (y ∷ xs) x q same there =
    let le = QueueOf-le m (head + block k) ks tail (r ∷ rest) xs q.1 in
    (
      same head (λ e. omega arith) ∙ q.0,
      QueueOf-snoc m m' (head + block k) ks tail r rest xs x q.1 same there,
    )

pub Within-snoc : (x y : ℕ) (ys : List ℕ) → Within x ys → Within x (ys ++ y ∷ [])
Within-snoc x y [] w = elim w [ ]
Within-snoc x y (z ∷ ys) (inl e) = inl e
Within-snoc x y (z ∷ ys) (inr w) = inr (Within-snoc x y ys w)

pub Within-last : (y : ℕ) (ys : List ℕ) → Within y (ys ++ y ∷ [])
Within-last y [] = inl refl
Within-last y (z ∷ ys) = inr (Within-last y ys)

pub Within-unsnoc : (x y : ℕ) (ys : List ℕ) → Within x (ys ++ y ∷ []) → Within x ys ⊎ (x ≡ y)
Within-unsnoc x y [] (inl e) = inr e
Within-unsnoc x y [] (inr w) = elim w [ ]
Within-unsnoc x y (z ∷ ys) (inl e) = inl (inl e)
Within-unsnoc x y (z ∷ ys) (inr w) = elim (Within-unsnoc x y ys w) [
  | inl v ↦ inl (inr v)
  | inr e ↦ inr e
]

-- The memory after `queue_enqueue` of the object at `o`, with the tail at `t`.
abbrev pub enqueued : Mem → ℕ → ℕ → Mem
enqueued m t o =
    let m1 = write m (t + 8) (set_forward_part (m (t + 8)) (o + 16)) in
    write m1 (o + 8) (enqueue_bit (m1 (o + 8)))

-- The bits and the forward addresses of a memory `m'`, by those of `m`.
pub record Enqueues (m m' : Mem) (t o : ℕ) : Type 0 where
  pub marks : (p : ℕ) → marked_at m' p ≡ marked_at m p
  pub others : (p : ℕ) → p ≢ o → enqueued_at m' p ≡ enqueued_at m p
  pub this : enqueued_at m' o ≡ true
  pub keeps : (p : ℕ) → p ≢ t → forward_part (m' (p + 8)) ≡ forward_part (m (p + 8))
  pub entry : forward_part (m' (t + 8)) ≡ o + 16
  pub words : (b : ℕ) → b ≢ t + 8 → b ≢ o + 8 → m' b ≡ m b

-- Two writes to forward words, of which the first keeps bits and the second keeps the rest.
first_write :
    (m : Mem) (t x : ℕ)
    → x % 4 ≡ 0
    → ((p : ℕ) → marked_at (write m (t + 8) (set_forward_part (m (t + 8)) x)) p ≡ marked_at m p)
      × ((p : ℕ)
          → enqueued_at (write m (t + 8) (set_forward_part (m (t + 8)) x)) p ≡ enqueued_at m p)
      × ((p : ℕ)
          → p ≢ t
          → forward_part (write m (t + 8) (set_forward_part (m (t + 8)) x) (p + 8))
            ≡ forward_part (m (p + 8)))
      × (forward_part (write m (t + 8) (set_forward_part (m (t + 8)) x) (t + 8)) ≡ x)
first_write m t x even =
    let laws = (forward_word_laws (m (t + 8)) x even).0 in
    let at = ==_refl (t + 8) in
    (
      λ p. elim (Bool-cases (t + 8 == p + 8)) [
        | inl e ↦ let same : p ≡ t = ground arith in rw (same, at) laws.1
        | inr e ↦ rw e refl
      ],
      λ p. elim (Bool-cases (t + 8 == p + 8)) [
        | inl e ↦ let same : p ≡ t = ground arith in rw (same, at) laws.2
        | inr e ↦ rw e refl
      ],
      λ p ne. let e : (t + 8 == p + 8) ≡ false = ground arith in rw e refl,
      rw at laws.0,
    )

second_write :
    (m : Mem) (o : ℕ)
    → ((p : ℕ) → marked_at (write m (o + 8) (enqueue_bit (m (o + 8)))) p ≡ marked_at m p)
      × ((p : ℕ)
          → p ≢ o
          → enqueued_at (write m (o + 8) (enqueue_bit (m (o + 8)))) p ≡ enqueued_at m p)
      × (enqueued_at (write m (o + 8) (enqueue_bit (m (o + 8)))) o ≡ true)
      × ((p : ℕ)
          → forward_part (write m (o + 8) (enqueue_bit (m (o + 8))) (p + 8))
            ≡ forward_part (m (p + 8)))
second_write m o =
    let laws = (forward_word_laws (m (o + 8)) 0 refl).2 in
    let at = ==_refl (o + 8) in
    (
      λ p. elim (Bool-cases (o + 8 == p + 8)) [
        | inl e ↦ let same : p ≡ o = ground arith in rw (same, at) laws.1
        | inr e ↦ rw e refl
      ],
      λ p ne. let e : (o + 8 == p + 8) ≡ false = ground arith in rw e refl,
      rw at laws.2,
      λ p. elim (Bool-cases (o + 8 == p + 8)) [
        | inl e ↦ let same : p ≡ o = ground arith in rw (same, at) laws.0
        | inr e ↦ rw e refl
      ],
    )

pub enqueued-Enqueues : (m : Mem) (t o : ℕ) → o % 8 ≡ 0 → Enqueues m (enqueued m t o) t o
enqueued-Enqueues m t o even =
    let a = first_write m t (o + 16) (omega arith) in
    let m1 : Mem = write m (t + 8) (set_forward_part (m (t + 8)) (o + 16)) in
    let b = second_write m1 o in
    record {
      marks = λ p. b.0 p ∙ a.0 p;
      others = λ p ne. b.1 p ne ∙ a.1 p;
      this = b.2;
      keeps = λ p ne. b.3 p ∙ a.2 p ne;
      entry = b.3 t ∙ a.3;
      words = λ c h k. ground arith;
    }

module _ (heap : Chunk) (m₀ : Mem) (ns : List ℕ) where
  abbrev pub IsContent : ℕ → Type 0
  IsContent x = (o : ℕ) × At heap.begin ns o × (x ≡ o + 16)

  -- Nothing but forward addresses has changed; the queue's entries are objects of the heap; all
  -- objects that are marked as queued are in it; and there are as many places behind its tail as
  -- objects that may still come.
  pub record Inv (m : Mem) (head : ℕ) (ks : List ℕ) (tail : ℕ) (rest q : List ℕ) : Type 0 where
    pub frame : (b : ℕ) → OffSlots heap.begin ns b → m b ≡ m₀ b
    pub suffix : Layout m₀ head ks heap.current
    pub inside : (o : ℕ) → At head ks o → At heap.begin ns o
    pub queue : QueueOf m head ks tail rest q
    pub entries : (x : ℕ) → Within x q → IsContent x
    pub queued : (o : ℕ) → At heap.begin ns o → enqueued_at m o ≡ true → Within (o + 16) q
    pub room : whites m heap.begin ns ≤ count rest
