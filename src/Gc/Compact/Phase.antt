-- ===== src/Gc/Compact/Phase.antt =====
-- The whole of `compact_phase` in runtime/gc.c.
use lama_rv_workshop.Base.{
  ℕ, ◌+◌, ◌-◌, ◌*◌, ◌/◌, ◌≤◌, ◌<◌, ◌≡◌, refl, ◌⊎◌, true, false, arith, List, if◌then◌else◌, inl,
  inr, Bool-cases, or_false, sym, ◌∙◌, some,
}
use lama_rv_workshop.Base.Outcome.{ok}
use lama_rv_workshop.Gc.State.{Mem, Chunk, State, clear}
use lama_rv_workshop.Gc.State.Laws.{clear_outside, move_outside, move_inside}
use lama_rv_workshop.Gc.Layout.{Layout, live_bytes}
use lama_rv_workshop.Gc.Compact.{
  compact_phase, compact_to, compact_into, next_heap_pseudo_size, next_chunk, copy_heap,
  update_references, physically_relocate, in_old_heap,
}
use lama_rv_workshop.Gc.Compact.Locations.{compute_locations_lem, Computed, live_bytes_words}
use lama_rv_workshop.Gc.Compact.Relocate.{live_sizes, place, Compacted, physically_relocate_lem}
use lama_rv_workshop.Gc.Compact.Redirect.{Live, Live-ge, Live-sized, Resolves, is_reference, target}
use lama_rv_workshop.Gc.Compact.Objects.{is_live_field, is_live_field_ge}
use lama_rv_workshop.Gc.Compact.References.{is_root, is_updated, Fixed, update_references_lem}
use lama_rv_workshop.Gc.Compact.Twin.{
  Twin, Twin-Layout, Twin-Placed, Twin-live_bytes, Twin-live_sizes, Twin-Live, Twin-is_live_field,
}
use lama_rv_workshop.Gc.Compact.Copy.{
  Contents, Located-Twin, located-Contents, Twin-SameHeads, SameHeads, same_heads,
}
use lama_rv_workshop.Gc.Compact.Preserved.{follow, PointsLive, Preserved, assemble, redirect-follow}
use lama_rv_workshop.Gc.Compact.Places.{
  not_inside, not_between, OffSlots-outside, field_word, Placed-Live, live_bytes-le,
}
use lama_rv_workshop.Gc.Compact.Spec.{Compactable, Compacts}

module _ (s : State) (ns : List ℕ) (old heap : Chunk) (c : Compactable s ns old heap)
    (shift : heap.current ≡ heap.begin + (old.current - old.begin)) (room : old.size ≤ heap.size)
    (m1 : Mem) (computed : Computed s.mem old.begin ns old.begin m1) where
  m2 : Mem
  m2 = copy_heap m1 heap.begin (heap.size * 8) old.begin (old.size * 8)

  begins_same : heap.begin + (old.begin - old.begin) ≡ heap.begin
  begins_same = omega arith

  copied : (b : ℕ) → old.begin ≤ b → b + 8 ≤ old.current → m2 (heap.begin + (b - old.begin)) ≡ m1 b
  unfolding m2
  copied b h k =
      move_inside (clear m1 heap.begin (heap.size * 8)) heap.begin old.begin (old.size * 8) b h
        (omega (arith, c.fits))
      ∙ clear_outside m1 heap.begin (heap.size * 8) b (elim c.apart [
        | inl behind ↦ inl (omega (arith, c.fits))
        | inr before ↦ inr (omega arith)
      ])

  kept : (b : ℕ) → (b < heap.begin) ⊎ (heap.begin + heap.size * 8 ≤ b) → m2 b ≡ m1 b
  unfolding m2
  kept b h =
      move_outside (clear m1 heap.begin (heap.size * 8)) heap.begin old.begin (old.size * 8) b
        (elim h [ inl lo ↦ inl lo | inr hi ↦ inr (omega arith) ])
      ∙ clear_outside m1 heap.begin (heap.size * 8) b h

  twin2 : Twin old heap s.mem m2 old.begin heap.begin ns heap.begin
  twin2 = rw begins_same at (
      Located-Twin old heap s.mem m1 m2 old.current copied old.begin ns old.begin c.row computed.0
        (λ b h off. computed.1 b off) (omega arith)
        (c.aligned, c.words.0, omega (arith, c.fits, c.words)))

  row2 : Layout m2 heap.begin ns heap.current
  row2 =
      rw shift
        (Twin-Layout old heap s.mem m2 old.begin heap.begin ns heap.begin old.current twin2 c.row)

  contents2 : Contents s.mem m2 old.begin heap.begin ns
  contents2 = rw begins_same at (
      located-Contents old heap s.mem m1 m2 old.current copied old.begin ns c.row
        (λ b h off. computed.1 b off) (omega arith))

  current_fits : heap.current ≤ heap.begin + heap.size * 8
  current_fits = rw shift (omega (arith, c.fits))

  apart2 :
      (o : ℕ) → Live m2 heap.begin ns o → in_old_heap old heap (place old heap m2 o + 16) ≡ false
  apart2 o live =
      let placed = Twin-Placed old heap s.mem m2 old.begin heap.begin ns heap.begin twin2 in
      let there = Placed-Live old heap m2 heap.begin ns heap.begin o placed live in
      let sized = Live-sized m2 heap.begin ns heap.current o row2 live in
      not_between old.begin old.current (place old heap m2 o + 16) (elim c.apart [
        | inl behind ↦ inr (omega (arith, there.0, c.fits))
        | inr before ↦ inl (omega (arith, there.1, sized.2, current_fits))
      ])

  -- Words of fields and of roots are those that they were.
  field_same :
      (b : ℕ)
      → is_live_field m2 heap.begin ns b ≡ true
      → (is_live_field s.mem old.begin ns (old.begin + (b - heap.begin)) ≡ true)
        × (m2 b ≡ s.mem (old.begin + (b - heap.begin)))
  field_same b e =
      let lo = is_live_field_ge m2 heap.begin ns heap.current b row2 e in
      let k : ℕ = b - heap.begin in
      let at : heap.begin + k ≡ b = omega (arith, lo) in
      let was : is_live_field s.mem old.begin ns (old.begin + k) ≡ true =
        sym (
          Twin-is_live_field old heap s.mem m2 old.begin heap.begin ns heap.begin old.current k
            twin2 c.row)
        ∙ rw at e in
      let word = field_word s.mem old.begin ns old.current (old.begin + k) c.row was in
      let from : old.begin + k - old.begin ≡ k = omega arith in
      let copy = rw (from, at) at (copied (old.begin + k) (omega arith) word.1) in
      (was, copy ∙ computed.1 (old.begin + k) word.0)

  root_same : (b : ℕ) → is_root old heap s b ≡ true → m2 b ≡ s.mem b
  root_same b e =
      kept b (c.new_roots b e)
      ∙ computed.1 b (OffSlots-outside s.mem old.begin ns old.current b c.row (c.old_roots b e))

  resolves2 : (w : ℕ) → PointsLive old heap s.mem ns w → Resolves old heap m2 ns w
  resolves2 w points = elim (Bool-cases (is_reference old heap w)) [
    | inl e ↦
        let live : Live s.mem old.begin ns (w - 16) = rw e at points in
        let far = Live-ge s.mem old.begin ns (w - 16) live in
        let there : target old heap w ≡ heap.begin + (w - 16 - old.begin) =
          omega (arith, c.positive) in
        let r =
          Twin-Live old heap s.mem m2 old.begin heap.begin ns heap.begin (w - 16) twin2 live in
        rw (e, there) r.0
    | inr e ↦ rw e tt
  ]

  updated-Resolves : (b : ℕ) → is_updated old heap m2 ns s b ≡ true → Resolves old heap m2 ns (m2 b)
  updated-Resolves b e = elim (Bool-cases (is_live_field m2 heap.begin ns b)) [
    | inl field ↦
        let same = field_same b field in
        rw same.1 (resolves2 (s.mem (old.begin + (b - heap.begin))) (c.fields _ same.0))
    | inr other ↦
        let root : is_root old heap s b ≡ true = rw other at e in
        rw (root_same b root) (resolves2 (s.mem b) (c.roots b root))
  ]

  roots_outside : (b : ℕ) → is_root old heap s b ≡ true → (b < heap.begin) ⊎ (heap.current ≤ b)
  roots_outside b e = elim (c.new_roots b e) [
    | inl lo ↦ inl lo
    | inr hi ↦ inr (omega (arith, current_fits))
  ]

  no_root_inside : (b : ℕ) → heap.begin ≤ b → b < heap.current → is_root old heap s b ≡ false
  no_root_inside b h k = elim (Bool-cases (is_root old heap s b)) [
    | inl e ↦ elim (roots_outside b e) [
      | inl lo ↦ absurd (omega arith)
      | inr hi ↦ absurd (omega arith)
    ]
    | inr e ↦ e
  ]

  redirected :
      (m3 : Mem) × (update_references old heap s m2 ≡ ok m3)
      × Fixed old heap m2 ns row2 (is_updated old heap m2 ns s) m3
  redirected = update_references_lem old heap m2 ns row2 apart2 s roots_outside updated-Resolves

  -- The last step, on the memory `m3` in which references are redirected.
  module _ (m3 : Mem) (fixed : Fixed old heap m2 ns row2 (is_updated old heap m2 ns s) m3) where
    heads3 : SameHeads old heap s.mem m2 m3 heap.begin ns
    heads3 =
        same_heads old heap s.mem m2 m3 heap.begin ns heap.current (is_updated old heap m2 ns s)
          row2 (λ b e. fixed b ∙ rw e refl)
          (λ b h k. rw (no_root_inside b h k) (or_false (is_live_field m2 heap.begin ns b)))

    twin3 : Twin old heap s.mem m3 old.begin heap.begin ns heap.begin
    twin3 = Twin-SameHeads old heap s.mem m2 m3 old.begin heap.begin ns heap.begin heads3 twin2

    row3 : Layout m3 heap.begin ns heap.current
    row3 =
        rw shift
          (Twin-Layout old heap s.mem m3 old.begin heap.begin ns heap.begin old.current twin3 c.row)

    relocated :
        (m4 : Mem) × (physically_relocate old heap m3 ≡ ok m4)
        × Compacted old heap m3 heap.begin ns heap.begin m4
    relocated =
        physically_relocate_lem old heap m3 ns row3
          (Twin-Placed old heap s.mem m3 old.begin heap.begin ns heap.begin twin3)

    module _ (m4 : Mem) (done : Compacted old heap m3 heap.begin ns heap.begin m4) where
      survivors4 : Preserved old heap s.mem ns m4 old.begin ns heap.begin
      survivors4 =
          assemble old heap s.mem ns m2 m3 m4 (is_root old heap s) heap.current twin2 c.positive
            fixed no_root_inside old.begin heap.begin ns heap.begin old.current c.row twin2 twin3
            contents2 done.moved (λ b h. refl) (omega arith, omega (arith, shift)) c.fields

      row4 :
          Layout m4 heap.begin
            (live_sizes s.mem old.begin ns)
            (heap.begin + live_bytes s.mem old.begin ns)
      row4 =
          rw
            (
              Twin-live_sizes old heap s.mem m3 old.begin heap.begin ns heap.begin twin3,
              Twin-live_bytes old heap s.mem m3 old.begin heap.begin ns heap.begin twin3,
            )
            at done.row

      elsewhere4 :
          (b : ℕ)
          → (b < old.begin) ⊎ (old.current ≤ b)
          → (b < heap.begin) ⊎ (heap.begin + heap.size * 8 ≤ b)
          → m4 b ≡ (if is_root old heap s b then follow old heap s.mem ns (s.mem b) else s.mem b)
      elsewhere4 b h k =
          let le = live_bytes-le m3 heap.begin ns heap.current row3 in
          let unmoved : m4 b ≡ m3 b = elim k [
            | inl lo ↦ done.below b lo
            | inr hi ↦ done.above b (omega (arith, current_fits))
          ] in
          let word : m2 b ≡ s.mem b =
            kept b k ∙ computed.1 b (OffSlots-outside s.mem old.begin ns old.current b c.row h) in
          let no_field : is_live_field m2 heap.begin ns b ≡ false =
            not_inside m2 heap.begin ns heap.current b row2
              (elim k [ inl lo ↦ inl lo | inr hi ↦ inr (omega (arith, current_fits)) ]) in
          elim (Bool-cases (is_root old heap s b)) [
            | inl e ↦
                unmoved
                ∙ fixed b
                ∙ rw (no_field, e, word)
                    (redirect-follow old heap s.mem ns m2 (s.mem b) twin2 c.positive (c.roots b e))
            | inr e ↦ unmoved ∙ fixed b ∙ rw (no_field, e) word
          ]

-- The heap's chunk after a collection that is given a mapping at `begin`.
abbrev pub next_heap : State → List ℕ → ℕ → ℕ → Chunk
next_heap s ns begin additional_size =
    let live_size = live_bytes s.mem s.heap.begin ns / 8 in
    next_chunk s.heap begin (next_heap_pseudo_size s.heap live_size additional_size)

next_size :
    (old : Chunk) (live additional : ℕ) → old.size ≤ next_heap_pseudo_size old live additional
next_size old live additional = ground arith

-- On a heap that is a row of objects, with a new mapping apart from the old one, with roots
-- outside both, and where the references of marked objects and of roots into the heap lead to
-- marked objects, compact_phase ends. Every marked object survives at its new place, in order and
-- with no gaps, with its header and its contents, its references led to the new places; it is no
-- longer marked; the new heap is exactly the row of these objects; the roots are led to the new
-- places too; and no other word outside the two heaps has changed.
pub compact_phase_lem :
    (s : State) (ns : List ℕ) (begin additional_size : ℕ)
    → Compactable s ns s.heap (next_heap s ns begin additional_size)
    → (s' : State) × (compact_phase (some begin) additional_size s ≡ ok s')
      × Compacts s ns s.heap (next_heap s ns begin additional_size) s'
unfolding compact_phase compact_to compact_into m2
compact_phase_lem s ns begin additional_size c =
    let old = s.heap in
    let heap = next_heap s ns begin additional_size in
    let located = compute_locations_lem old s.mem ns c.row in
    let room = next_size old (live_bytes s.mem old.begin ns / 8) additional_size in
    let r3 = redirected s ns old heap c refl room located.0 located.2 in
    let r4 = relocated s ns old heap c refl room located.0 located.2 r3.0 r3.2 in
    let words = live_bytes_words s.mem old.begin ns in
    (
      record s {
        mem = r4.0;
        heap = record heap { current = begin + live_bytes s.mem old.begin ns / 8 * 8 };
      },
      rw (located.1, r3.1, r4.1) refl,
      record {
        survivors = survivors4 s ns old heap c refl room located.0 located.2 r3.0 r3.2 r4.0 r4.2;
        row = rw words (row4 s ns old heap c refl room located.0 located.2 r3.0 r3.2 r4.0 r4.2);
        begins = refl;
        elsewhere = elsewhere4 s ns old heap c refl room located.0 located.2 r3.0 r3.2 r4.0 r4.2;
      },
    )
