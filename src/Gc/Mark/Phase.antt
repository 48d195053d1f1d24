-- ===== src/Gc/Mark/Phase.antt =====
-- `mark`, and the whole mark phase of runtime/gc.c.
use lama_rv_workshop.Base.{
  ℕ, zero, suc, ◌+◌, ◌-◌, ◌%◌, ◌≡◌, refl, ◌⊎◌, Bool, true, false, not, ◌||◌, ◌==◌, arith, List, [],
  ◌∷◌, inl, inr, Bool-cases, ==_refl, or_true, or_false, or_cases, true-false, ==_iff, sym, ◌∙◌,
}
use mathlib.Core.List.{reverse}
use lama_rv_workshop.Base.Outcome.{Outcome, ok, ◌>>=◌}
use lama_rv_workshop.Gc.State.{Mem, Chunk, State}
use lama_rv_workshop.Gc.Object.{is_valid_heap_pointer, is_marked, heap_begin_iterator}
use lama_rv_workshop.Gc.Layout.{Layout, marked_at, Layout-le}
use lama_rv_workshop.Gc.Compact.Locations.{OffSlots}
use lama_rv_workshop.Gc.Compact.Relocate.{When}
use lama_rv_workshop.Gc.Compact.References.{in_region}
use lama_rv_workshop.Gc.Mark.{
  rounds, queue_enqueue, mark_loop, mark, gc_test_and_mark_root, mark_words, mark_roots,
  words_between, gc_root_scan_stack, scan_extra_roots, scan_global_area, mark_phase,
}
use lama_rv_workshop.Gc.Mark.Row.{At, enqueued_at, is_white, whites-count}
use lama_rv_workshop.Gc.Mark.Queue.{IsContent, Inv}
use lama_rv_workshop.Gc.Mark.Visit.{Seen, enqueue_white, is_marked_content}
use lama_rv_workshop.Gc.Mark.Scan.{Reference-Keeps}
use lama_rv_workshop.Gc.Mark.Loop.{Closed, WellFormed, Spread, at_entry, Spread-map, mark_loop_lem}

abbrev pub among : List ℕ → ℕ → Bool
among [] b = false
among (root ∷ roots) b = (b == root) || among roots b

module _ (heap : Chunk) (m₀ : Mem) (ns : List ℕ) (row : Layout m₀ heap.begin ns heap.current)
    (aligned : heap.begin % 8 ≡ 0) (wf : WellFormed heap m₀ ns row aligned) where
  -- Between two calls of `mark`: only forward addresses have changed, all references of marked
  -- objects are to marked ones, and none is in the queue.
  pub record Clean (m : Mem) : Type 0 where
    pub frame : (b : ℕ) → OffSlots heap.begin ns b → m b ≡ m₀ b
    pub closed : Closed heap m₀ ns row aligned m
    pub clear : (o : ℕ) → At heap.begin ns o → enqueued_at m o ≡ false

  -- The object that `v` leads to, if it leads into the heap, is marked.
  abbrev pub IsMarked : Mem → ℕ → Type 0
  IsMarked m v = When (is_valid_heap_pointer heap v) (marked_at m (v - 16) ≡ true)

  abbrev pub IsObject : ℕ → Type 0
  IsObject v = When (is_valid_heap_pointer heap v) (IsContent heap m₀ ns v)

  pub record Marks (m : Mem) (out : Outcome Mem) : Type 0 where
    pub m' : Mem
    pub returns : out ≡ ok m'
    pub clean : Clean m'
    pub grows : (o : ℕ) → At heap.begin ns o → marked_at m o ≡ true → marked_at m' o ≡ true

  -- What is marked in `m'` is marked in `m`, or `v` leads to it.
  abbrev pub Only : Mem → Mem → ℕ → Type 0
  Only m m' v =
      (p : ℕ)
      → marked_at m' p ≡ true
      → (marked_at m p ≡ true) ⊎ Spread heap m₀ ns row aligned (v ∷ []) (p + 16)

  -- A word of those that `source` tells leads to the object at `p`.
  abbrev pub SpreadFrom : (ℕ → Bool) → ℕ → Type 0
  SpreadFrom source p =
      (b : ℕ) × (source b ≡ true)
      × (is_valid_heap_pointer heap (m₀ b) ≡ true)
      × Spread heap m₀ ns row aligned (m₀ b ∷ []) (p + 16)

  abbrev pub OnlyFrom : Mem → Mem → (ℕ → Bool) → Type 0
  OnlyFrom m m' source =
      (p : ℕ) → marked_at m' p ≡ true → (marked_at m p ≡ true) ⊎ SpreadFrom source p

  abbrev idle : (m : Mem) → Clean m → Marks m (ok m)
  idle m clean = record { m' = m; returns = refl; clean = clean; grows = λ o at e. e }

  empty_queue : (m : Mem) → Clean m → Inv heap m₀ ns m heap.begin ns heap.begin ns []
  empty_queue m clean = record {
    frame = clean.frame;
    suffix = row;
    inside = λ o at. at;
    queue = (refl, refl);
    entries = λ x w. elim w [ ];
    queued = λ o at e. absurd (true-false _ e (clean.clear o at));
    room = whites-count m heap.begin ns;
  }

  mark_run :
      (m m1 : Mem) (tail o : ℕ) (out : Outcome Mem)
      → is_valid_heap_pointer heap (o + 16) ≡ true
      → marked_at m o ≡ false
      → queue_enqueue m heap.begin (o + 16) ≡ ok (m1, tail)
      → mark_loop heap (rounds heap) m1 heap.begin tail ≡ out
      → mark heap m (o + 16) ≡ out
  unfolding mark heap_begin_iterator
  mark_run m m1 tail o out valid white queued run =
      rw (valid, is_marked_content m o, white, queued) run

  pub Seen-marked :
      (m : Mem) (o : ℕ) → Clean m → At heap.begin ns o → Seen m o → marked_at m o ≡ true
  Seen-marked m o clean at (inl e) = e
  Seen-marked m o clean at (inr e) = absurd (true-false _ e (clean.clear o at))

  mark_white :
      (m : Mem) (o : ℕ)
      → Clean m
      → At heap.begin ns o
      → is_valid_heap_pointer heap (o + 16) ≡ true
      → marked_at m o ≡ false
      → (r : Marks m (mark heap m (o + 16))) × (marked_at r.m' o ≡ true) × Only m r.m' (o + 16)
  mark_white m o clean at valid white =
      let e : is_white m o ≡ true = rw (white, clean.clear o at) refl in
      let le = Layout-le m₀ heap.begin ns heap.current row in
      let p =
        enqueue_white heap m₀ ns row aligned m heap.begin ns heap.begin ns [] o
          (empty_queue m clean) at e in
      let closed1 : Closed heap m₀ ns row aligned p.0.m' = λ q here f n b sized h.
        Reference-Keeps heap m₀ ns row aligned m p.0.m' (m₀ b) p.0.keeps
          (clean.closed q here (sym (p.0.keeps.marks q) ∙ f) n b sized h) in
      let d =
        mark_loop_lem heap m₀ ns row aligned wf (rounds heap) p.0.m' heap.begin ns p.0.tail p.0.rest
          p.0.q p.0.inv closed1 (omega arith, omega arith) in
      let clean2 : Clean d.m' = record { frame = d.frame; closed = d.closed; clear = d.clear } in
      (
        record {
          m' = d.m';
          returns = mark_run m p.0.m' p.0.tail o (ok d.m') valid white p.0.returns d.returns;
          clean = clean2;
          grows =
              λ q here f. Seen-marked d.m' q clean2 here (d.seen q (inl (p.0.keeps.marks q ∙ f)));
        },
        Seen-marked d.m' o clean2 at (d.seen o p.1),
        λ q f. elim (d.only q f) [
          | inl g ↦ inl (sym (p.0.keeps.marks q) ∙ g)
          | inr s ↦ inr (
              Spread-map heap m₀ ns row aligned p.0.q ((o + 16) ∷ [])
                (λ y w. at_entry (elim (p.2 y w) [ inl none ↦ elim none [ ] | inr g ↦ inl g ])) s)
        ],
      )

  mark_idle :
      (m : Mem) (v : ℕ)
      → (is_valid_heap_pointer heap v ≡ false) ⊎ (is_marked m v ≡ true)
      → mark heap m v ≡ ok m
  unfolding mark
  mark_idle m v (inl e) = rw e refl
  mark_idle m v (inr e) = rw (e, or_true (not (is_valid_heap_pointer heap v))) refl

  mark_valid :
      (m : Mem) (v o : ℕ)
      → Clean m
      → At heap.begin ns o
      → v ≡ o + 16
      → is_valid_heap_pointer heap v ≡ true
      → (r : Marks m (mark heap m v)) × (marked_at r.m' (v - 16) ≡ true) × Only m r.m' v
  mark_valid m v o clean at e valid =
      let back : o + 16 - 16 ≡ o = omega arith in
      rw (e, back)
        (elim (Bool-cases (marked_at m o)) [
          | inl f ↦
              rw (mark_idle m (o + 16) (inr (is_marked_content m o ∙ f)))
                (idle m clean, f, λ p g. inl g)
          | inr f ↦ mark_white m o clean at (rw (← e) valid) f
        ])

  pub mark_lem :
      (m : Mem) (v : ℕ)
      → Clean m
      → IsObject v
      → (r : Marks m (mark heap m v)) × IsMarked r.m' v
        × ((p : ℕ)
            → marked_at r.m' p ≡ true
            → (marked_at m p ≡ true)
              ⊎ ((is_valid_heap_pointer heap v ≡ true)
                  × Spread heap m₀ ns row aligned (v ∷ []) (p + 16)))
  mark_lem m v clean object = elim (Bool-cases (is_valid_heap_pointer heap v)) [
    | inl valid ↦
        let c : IsContent heap m₀ ns v = rw valid at object in
        let r = mark_valid m v c.0 clean c.1 c.2 valid in
        (r.0, rw valid r.1, λ p e. elim (r.2 p e) [ inl f ↦ inl f | inr s ↦ inr (valid, s) ])
    | inr none ↦ rw (mark_idle m v (inl none)) (idle m clean, rw none tt, λ p e. inl e)
  ]

  -- A word that holds a root.
  abbrev pub IsRoot : ℕ → Type 0
  IsRoot b = OffSlots heap.begin ns b × IsObject (m₀ b)

  pub IsMarked-grows :
      (m : Mem) (out : Outcome Mem) (v : ℕ)
      → (r : Marks m out) → IsObject v
      → IsMarked m v
      → IsMarked r.m' v
  IsMarked-grows m out v r object marked = elim (Bool-cases (is_valid_heap_pointer heap v)) [
    | inl valid ↦
        let c : IsContent heap m₀ ns v = rw valid at object in
        let was : marked_at m (v - 16) ≡ true = rw valid at marked in
        let at : v - 16 ≡ c.0 = omega (arith, c.2) in rw valid (r.grows (v - 16) (rw at c.1) was)
    | inr none ↦ rw none tt
  ]

  abbrev follow_by :
      (m : Mem) (first : Outcome Mem) (next : Mem → Outcome Mem)
      → (r : Marks m first) → Marks r.m' (next r.m')
      → Marks m (first >>= next)
  follow_by m first next r q = record {
    m' = q.m';
    returns = rw r.returns q.returns;
    clean = q.clean;
    grows = λ o at e. q.grows o at (r.grows o at e);
  }

  pub mark_words_lem :
      (left p : ℕ) (m : Mem)
      → Clean m
      → ((b : ℕ) → in_region left p b ≡ true → IsRoot b)
      → (r : Marks m (mark_words heap left p m)) × ((b : ℕ)
          → in_region left p b ≡ true
          → IsMarked r.m' (m₀ b))
        × OnlyFrom m r.m' (in_region left p)
  unfolding mark_words gc_test_and_mark_root
  mark_words_lem zero p m clean roots =
      (idle m clean, λ b e. absurd (true-false _ e refl), λ p e. inl e)
  mark_words_lem (suc left) p m clean roots =
      let here = roots p (rw (==_refl p) refl) in
      let word : m p ≡ m₀ p = clean.frame p here.0 in
      let first = mark_lem m (m p) clean (rw word here.1) in
      let rest =
        mark_words_lem left (p + 8) first.0.m' first.0.clean
          (λ b e. roots b (rw e (or_true (b == p)))) in
      (
        follow_by m (mark heap m (m p)) (mark_words heap left (p + 8)) first.0 rest.0,
        λ b e. elim (Bool-cases (in_region left (p + 8) b)) [
          | inl f ↦ rest.1 b f
          | inr f ↦
              let same : b ≡ p = (==_iff b p).0 (sym (or_false (b == p)) ∙ rw f at e) in
              rw same (
                IsMarked-grows first.0.m' (mark_words heap left (p + 8) first.0.m') (m₀ p) rest.0
                  here.1 (rw word at first.1))
        ],
        λ o e. elim (rest.2 o e) [
          | inl f ↦ elim (first.2 o f) [
            | inl g ↦ inl g
            | inr s ↦ let v = rw word at s in inr (p, rw (==_refl p) refl, v.0, v.1)
          ]
          | inr (b, f, valid, s) ↦ inr (b, rw f (or_true (b == p)), valid, s)
        ],
      )

  pub mark_roots_lem :
      (roots : List ℕ) (m : Mem)
      → Clean m
      → ((b : ℕ) → among roots b ≡ true → IsRoot b)
      → (r : Marks m (mark_roots heap roots m)) × ((b : ℕ)
          → among roots b ≡ true
          → IsMarked r.m' (m₀ b))
        × OnlyFrom m r.m' (among roots)
  unfolding mark_roots
  mark_roots_lem [] m clean good = (idle m clean, λ b e. absurd (true-false _ e refl), λ p e. inl e)
  mark_roots_lem (p ∷ roots) m clean good =
      let here = good p (rw (==_refl p) refl) in
      let word : m p ≡ m₀ p = clean.frame p here.0 in
      let first = mark_lem m (m p) clean (rw word here.1) in
      let rest =
        mark_roots_lem roots first.0.m' first.0.clean (λ b e. good b (rw e (or_true (b == p)))) in
      (
        follow_by m (mark heap m (m p)) (mark_roots heap roots) first.0 rest.0,
        λ b e. elim (Bool-cases (among roots b)) [
          | inl f ↦ rest.1 b f
          | inr f ↦
              let same : b ≡ p = (==_iff b p).0 (sym (or_false (b == p)) ∙ rw f at e) in
              rw same (
                IsMarked-grows first.0.m' (mark_roots heap roots first.0.m') (m₀ p) rest.0 here.1
                  (rw word at first.1))
        ],
        λ o e. elim (rest.2 o e) [
          | inl f ↦ elim (first.2 o f) [
            | inl g ↦ inl g
            | inr s ↦ let v = rw word at s in inr (p, rw (==_refl p) refl, v.0, v.1)
          ]
          | inr (b, f, valid, s) ↦ inr (b, rw f (or_true (b == p)), valid, s)
        ],
      )

-- The words whose values the mark phase starts from.
abbrev pub on_marked_stack : State → ℕ → Bool
on_marked_stack s b = in_region (words_between (s.stack_top + 8) s.stack_bottom) (s.stack_top + 8) b

abbrev pub is_mark_root : State → ℕ → Bool
is_mark_root s b =
    (on_marked_stack s b || among (reverse s.roots) b)
    || in_region (words_between s.globals_start s.globals_stop) s.globals_start b

-- What the mark phase leads to.
pub record MarkedFrom (s : State) (ns : List ℕ) (row : Layout s.mem s.heap.begin ns s.heap.current)
    (aligned : s.heap.begin % 8 ≡ 0) (wf : WellFormed s.heap s.mem ns row aligned) (m' : Mem)
    : Type 0 where
  pub clean : Clean s.heap s.mem ns row aligned wf m'
  pub roots :
      (b : ℕ) → is_mark_root s b ≡ true → IsMarked s.heap s.mem ns row aligned wf m' (s.mem b)
  pub only : OnlyFrom s.heap s.mem ns row aligned wf s.mem m' (is_mark_root s)

module _ (s : State) (ns : List ℕ) (row : Layout s.mem s.heap.begin ns s.heap.current)
    (aligned : s.heap.begin % 8 ≡ 0) (wf : WellFormed s.heap s.mem ns row aligned) where
  -- On a heap that is a row of objects with no queue and with no marks, or marks that are closed
  -- under references, with all references of objects and of roots into it leading to objects,
  -- mark_phase ends. It changes forward addresses alone; the objects that roots lead to are
  -- marked, and so are those that the fields of marked objects lead to, and no other object
  -- becomes marked than those that roots lead to over any number of fields; and no object is left
  -- in the queue.
  pub mark_phase_lem :
      Clean s.heap s.mem ns row aligned wf s.mem
      → ((b : ℕ) → is_mark_root s b ≡ true → IsRoot s.heap s.mem ns row aligned wf b)
      → (m' : Mem) × (mark_phase s ≡ ok (record s { mem = m' })) × MarkedFrom s ns row aligned wf m'
  unfolding mark_phase gc_root_scan_stack scan_extra_roots scan_global_area
  mark_phase_lem clean roots =
      let stack =
        mark_words_lem s.heap s.mem ns row aligned wf
          (words_between (s.stack_top + 8) s.stack_bottom) (s.stack_top + 8) s.mem clean
          (λ b e. roots b (rw e refl)) in
      let extra =
        mark_roots_lem s.heap s.mem ns row aligned wf (reverse s.roots) stack.0.m' stack.0.clean
          (λ b e. roots b (rw (e, or_true (on_marked_stack s b)) refl)) in
      let globals =
        mark_words_lem s.heap s.mem ns row aligned wf (words_between s.globals_start s.globals_stop)
          s.globals_start extra.0.m' extra.0.clean (λ b e. roots b (rw e (or_true _))) in
      (
        globals.0.m',
        rw (stack.0.returns, extra.0.returns, globals.0.returns) refl,
        record {
          clean = globals.0.clean;
          roots = λ b e.
              let v = s.mem b in
              let object = (roots b e).1 in
              let keep1 =
                IsMarked-grows s.heap s.mem ns row aligned wf stack.0.m'
                  (scan_extra_roots s stack.0.m') v extra.0 object in
              let keep2 =
                IsMarked-grows s.heap s.mem ns row aligned wf extra.0.m'
                  (scan_global_area s extra.0.m') v globals.0 object in
              elim (or_cases (on_marked_stack s b || among (reverse s.roots) b) _ e) [
                | inl f ↦ elim (or_cases (on_marked_stack s b) (among (reverse s.roots) b) f) [
                  | inl g ↦ keep2 (keep1 (stack.1 b g))
                  | inr g ↦ keep2 (extra.1 b g)
                ]
                | inr f ↦ globals.1 b f
              ];
          only = λ p e. elim (globals.2 p e) [
            | inl f ↦ elim (extra.2 p f) [
              | inl g ↦ elim (stack.2 p g) [
                | inl h ↦ inl h
                | inr (b, k, valid, spread) ↦ inr (b, rw k refl, valid, spread)
              ]
              | inr (b, k, valid, spread) ↦
                  inr (b, rw (k, or_true (on_marked_stack s b)) refl, valid, spread)
            ]
            | inr (b, k, valid, spread) ↦ inr (b, rw k (or_true _), valid, spread)
          ];
        },
      )
