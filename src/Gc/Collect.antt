-- ===== src/Gc/Collect.antt =====
-- The two phases of a collection together, in `gc_alloc` of runtime/gc.c.
use lama_rv_workshop.Base.{
  ℕ, ◌+◌, ◌-◌, ◌*◌, ◌%◌, ◌≤◌, ◌<◌, ◌≡◌, refl, ◌⊎◌, true, false, arith, List, [], ◌∷◌, inl, inr,
  Bool-cases, and_or_true, true-false, sym, ◌∙◌, some,
}
use lama_rv_workshop.Base.Word.{word_mod}
use lama_rv_workshop.Base.Outcome.{ok, ok-injective}
use lama_rv_workshop.Gc.State.{Mem, Chunk, State}
use lama_rv_workshop.Gc.Object.{obj_size_header_ptr, is_valid_heap_pointer, is_valid_pointer}
use lama_rv_workshop.Gc.Object.Laws.{block, obj_size_of_header}
use lama_rv_workshop.Gc.Layout.{Layout, marked_at}
use lama_rv_workshop.Gc.Mark.{mark_phase}
use lama_rv_workshop.Gc.Mark.Row.{At, At-sized}
use lama_rv_workshop.Gc.Mark.Queue.{IsContent}
use lama_rv_workshop.Gc.Mark.Visit.{OffSlots-head, Seen}
use lama_rv_workshop.Gc.Mark.Loop.{WellFormed, OffSlots-contents}
use lama_rv_workshop.Gc.Mark.Phase.{
  Clean, IsRoot, IsMarked, MarkedFrom, is_mark_root, mark_phase_lem, Seen-marked,
}
use lama_rv_workshop.Gc.Compact.{compact_phase}
use lama_rv_workshop.Gc.Compact.Redirect.{Live, is_reference}
use lama_rv_workshop.Gc.Compact.Fields.{in_words}
use lama_rv_workshop.Gc.Compact.Objects.{
  fields_from, fields_from_ge, is_live_field, in_words_bounds,
}
use lama_rv_workshop.Gc.Compact.References.{is_root}
use lama_rv_workshop.Gc.Compact.Preserved.{PointsLive}
use lama_rv_workshop.Gc.Compact.Places.{OffSlots-outside}
use lama_rv_workshop.Gc.Compact.Spec.{Compactable, Compacts}
use lama_rv_workshop.Gc.Compact.Phase.{next_heap, compact_phase_lem}

Live-At : (m : Mem) (a : ℕ) (ns : List ℕ) (o : ℕ) → At a ns o → marked_at m o ≡ true → Live m a ns o
Live-At m a [] o at e = elim at [ ]
Live-At m a (n ∷ ns) o (inl same) e = inl (same, rw (← same) e)
Live-At m a (n ∷ ns) o (inr at) e = inr (Live-At m (a + block n) ns o at e)

-- A live field is a field of a marked object.
field_of :
    (m : Mem) (a : ℕ) (ns : List ℕ) (end b : ℕ)
    → Layout m a ns end
    → is_live_field m a ns b ≡ true
    → (o n : ℕ) × At a ns o
      × (obj_size_header_ptr m o ≡ ok n)
      × (marked_at m o ≡ true)
      × (in_words (fields_from m o n) (o + n) b ≡ true)
field_of m a [] end b l e = absurd (true-false _ e refl)
field_of m a (n ∷ ns) end b l e = elim (Bool-cases (is_live_field m (a + block n) ns b)) [
  | inl later ↦
      let r = field_of m (a + block n) ns end b l.3 later in (r.0, r.1, inr r.2, r.3, r.4, r.5)
  | inr now ↦ let it = and_or_true (marked_at m a) _ _ e now in (a, n, inl refl, l.0, it.0, it.1)
]

Layout-heads :
    (m m' : Mem) (a : ℕ) (ns : List ℕ) (end : ℕ)
    → ((o : ℕ) → At a ns o → m' o ≡ m o)
    → Layout m a ns end
    → Layout m' a ns end
Layout-heads m m' a [] end same l = l
Layout-heads m m' a (n ∷ ns) end same l = (
  obj_size_of_header m m' a (same a (inl refl)) ∙ l.0,
  l.1,
  l.2,
  Layout-heads m m' (a + block n) ns end (λ o at. same o (inr at)) l.3,
)

-- The two tests for a reference into the heap agree.
same_test : (old heap : Chunk) (w : ℕ) → is_reference old heap w ≡ is_valid_heap_pointer old w
unfolding is_valid_pointer is_valid_heap_pointer
same_test old heap w = refl

same_size :
    (m : Mem) (o n k : ℕ)
    → obj_size_header_ptr m o ≡ ok n
    → obj_size_header_ptr m o ≡ ok k
    → 16 ≤ k
    → 16 ≤ n
same_size m o n k e f h = let same : k ≡ n = cc in rw (← same) h

module _ (s : State) (ns : List ℕ) (row : Layout s.mem s.heap.begin ns s.heap.current)
    (aligned : s.heap.begin % 8 ≡ 0) (wf : WellFormed s.heap s.mem ns row aligned) (m' : Mem)
    (done : MarkedFrom s ns row aligned wf m') where
  head_same : (o : ℕ) → At s.heap.begin ns o → m' o ≡ s.mem o
  head_same o at = done.clean.frame o (OffSlots-head s.mem s.heap.begin ns s.heap.current o row at)

  row' : Layout m' s.heap.begin ns s.heap.current
  row' = Layout-heads s.mem m' s.heap.begin ns s.heap.current head_same row

  root_points :
      (heap : Chunk) (b : ℕ)
      → IsRoot s.heap s.mem ns row aligned wf b
      → IsMarked s.heap s.mem ns row aligned wf m' (s.mem b)
      → PointsLive s.heap heap m' ns (m' b)
  root_points heap b root marked = elim (Bool-cases (is_valid_heap_pointer s.heap (s.mem b))) [
    | inl e ↦
        let c : IsContent s.heap s.mem ns (s.mem b) = rw e at root.1 in
        let f : marked_at m' (s.mem b - 16) ≡ true = rw e at marked in
        let at : s.mem b - 16 ≡ c.0 = omega (arith, c.2) in
        let same = done.clean.frame b root.0 in
        let test : is_reference s.heap heap (s.mem b) ≡ true =
          same_test s.heap heap (s.mem b) ∙ e in
        rw (same, test) (Live-At m' s.heap.begin ns (s.mem b - 16) (rw at c.1) f)
    | inr e ↦
        let same = done.clean.frame b root.0 in
        let test : is_reference s.heap heap (s.mem b) ≡ false =
          same_test s.heap heap (s.mem b) ∙ e in
        rw (same, test) tt
  ]

  pub field-IsMarked :
      (o n b : ℕ)
      → At s.heap.begin ns o
      → obj_size_header_ptr s.mem o ≡ ok n
      → marked_at m' o ≡ true
      → in_words (fields_from s.mem o n) (o + n) b ≡ true
      → IsMarked s.heap s.mem ns row aligned wf m' (s.mem b)
  field-IsMarked o n b at sized marked h =
      let object = wf o n b at sized h in
      let seen = done.clean.closed o at marked n b sized h in
      elim (Bool-cases (is_valid_heap_pointer s.heap (s.mem b))) [
        | inl e ↦
            let c : IsContent s.heap s.mem ns (s.mem b) = rw e at object in
            let f : Seen m' (s.mem b - 16) = rw e at seen in
            let there : s.mem b - 16 ≡ c.0 = omega (arith, c.2) in
            rw e (
              Seen-marked s.heap s.mem ns row aligned wf m' (s.mem b - 16) done.clean (rw there c.1)
                f)
        | inr e ↦ rw e tt
      ]

  field_points :
      (heap : Chunk) (b : ℕ)
      → is_live_field m' s.heap.begin ns b ≡ true
      → PointsLive s.heap heap m' ns (m' b)
  field_points heap b e =
      let (o, n, at, sized', marked, h') = field_of m' s.heap.begin ns s.heap.current b row' e in
      let same = head_same o at in
      let sized : obj_size_header_ptr s.mem o ≡ ok n =
        obj_size_of_header m' s.mem o (sym same) ∙ sized' in
      let h : in_words (fields_from s.mem o n) (o + n) b ≡ true = rw same at h' in
      let size = At-sized s.mem s.heap.begin ns s.heap.current o row at in
      let big : 16 ≤ n = same_size s.mem o n size.0 sized size.1 size.2 in
      let bounds = in_words_bounds (fields_from s.mem o n) (o + n) b h in
      let from = fields_from_ge s.mem o n big in
      let off =
        OffSlots-contents s.mem s.heap.begin ns s.heap.current o n b row at sized (omega arith)
          bounds.1 in
      root_points heap b (off, wf o n b at sized h) (field-IsMarked o n b at sized marked h)

-- What a collection is given: a heap that is a row of objects, without a queue, with no marks or marks
-- that are closed under references, where all references of objects and of roots into the heap lead to objects.
pub record Collectable (s : State) (ns : List ℕ) : Type 0 where
  pub row : Layout s.mem s.heap.begin ns s.heap.current
  pub aligned : s.heap.begin % 8 ≡ 0
  pub wf : WellFormed s.heap s.mem ns row aligned
  pub clean : Clean s.heap s.mem ns row aligned wf s.mem
  pub roots : (b : ℕ) → is_mark_root s b ≡ true → IsRoot s.heap s.mem ns row aligned wf b

-- The mapping that `mmap` gives lies apart from the old heap and from the roots, and what is
-- redirected is a root of the mark phase or no reference.
pub record Mapped (s : State) (heap : Chunk) : Type 0 where
  pub fits : s.heap.current ≤ s.heap.begin + s.heap.size * 8
  pub positive : 0 < s.heap.begin
  pub words : (s.heap.begin < word_mod) × (heap.begin + heap.size * 8 < word_mod)
  pub apart :
      (s.heap.begin + s.heap.size * 8 ≤ heap.begin) ⊎ (heap.begin + heap.size * 8 < s.heap.begin)
  pub old_roots :
      (b : ℕ) → is_root s.heap heap s b ≡ true → (b < s.heap.begin) ⊎ (s.heap.current ≤ b)
  pub new_roots :
      (b : ℕ) → is_root s.heap heap s b ≡ true → (b < heap.begin) ⊎ (heap.begin + heap.size * 8 ≤ b)
  pub marked_roots :
      (b : ℕ)
      → is_root s.heap heap s b ≡ true
      → (is_mark_root s b ≡ true) ⊎ (is_reference s.heap heap (s.mem b) ≡ false)

compactable :
    (s : State) (ns : List ℕ) (c : Collectable s ns) (m' : Mem) (heap : Chunk)
    → MarkedFrom s ns c.row c.aligned c.wf m'
    → Mapped s heap
    → Compactable (record s { mem = m' }) ns s.heap heap
compactable s ns c m' heap done mapped = record {
  row = row' s ns c.row c.aligned c.wf m' done;
  fits = mapped.fits;
  aligned = c.aligned;
  positive = mapped.positive;
  words = mapped.words;
  apart = mapped.apart;
  old_roots = mapped.old_roots;
  new_roots = mapped.new_roots;
  fields = field_points s ns c.row c.aligned c.wf m' done heap;
  roots = λ b e. elim (mapped.marked_roots b e) [
    | inl root ↦
        root_points s ns c.row c.aligned c.wf m' done heap b (c.roots b root) (done.roots b root)
    | inr none ↦
        let off =
          OffSlots-outside s.mem s.heap.begin ns s.heap.current b c.row (mapped.old_roots b e) in
        let same = done.clean.frame b off in rw (same, none) tt
  ];
}

-- What is shown of a state after marking.
abbrev Ends : State → List ℕ → ℕ → ℕ → State → Type 0
Ends s ns begin additional_size s1 =
    Mapped s (next_heap s1 ns begin additional_size)
    → (s2 : State) × (compact_phase (some begin) additional_size s1 ≡ ok s2)
      × Compacts s1 ns s.heap (next_heap s1 ns begin additional_size) s2

-- On such a heap, for the state that the mark phase results in and a mapping as above, compact_phase
-- ends; every marked object survives with its header and contents, its references led to the new
-- places; the new heap is the row of these objects, the roots are led to them, and no other word
-- outside the two heaps has changed.
pub collect_lem :
    (s s1 : State) (ns : List ℕ) (begin additional_size : ℕ)
    → Collectable s ns
    → mark_phase s ≡ ok s1
    → Mapped s (next_heap s1 ns begin additional_size)
    → (s2 : State) × (compact_phase (some begin) additional_size s1 ≡ ok s2)
      × Compacts s1 ns s.heap (next_heap s1 ns begin additional_size) s2
collect_lem s s1 ns begin additional_size c marked mapped =
    let r = mark_phase_lem s ns c.row c.aligned c.wf c.clean c.roots in
    let same : record s { mem = r.0 } ≡ s1 = ok-injective _ _ (sym r.1 ∙ marked) in
    let base : Ends s ns begin additional_size (record s { mem = r.0 }) = λ fit.
      compact_phase_lem (record s { mem = r.0 }) ns begin additional_size
        (compactable s ns c r.0 _ r.2 fit) in
    let moved : Ends s ns begin additional_size s1 = rw (← same) base in moved mapped

-- The heap after marking is the same row of objects.
pub marked-Layout :
    (s s1 : State) (ns : List ℕ)
    → Collectable s ns
    → mark_phase s ≡ ok s1
    → Layout s1.mem s1.heap.begin ns s1.heap.current
marked-Layout s s1 ns c marked =
    let r = mark_phase_lem s ns c.row c.aligned c.wf c.clean c.roots in
    let same : record s { mem = r.0 } ≡ s1 = ok-injective _ _ (sym r.1 ∙ marked) in
    rw (← same) (row' s ns c.row c.aligned c.wf r.0 r.2)
