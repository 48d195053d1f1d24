-- ===== src/Gc/Compact/Copy.antt =====
-- What `compute_locations` and the copy of the heap make of a row, in `compact_phase` of
-- runtime/gc.c, and what redirecting references leaves of it.
use lama_rv_workshop.Base.{
  ℕ, ◌+◌, ◌-◌, ◌%◌, ◌≤◌, ◌<◌, ◌≡◌, refl, Bool, true, false, arith, List, [], ◌∷◌, if◌then◌else◌,
  inl, and_false, ◌∙◌,
}
use lama_rv_workshop.Base.Word.{word_mod, sub_word}
use lama_rv_workshop.Gc.State.{Mem, Chunk}
use lama_rv_workshop.Gc.Object.{forward_part, set_forward_part, get_mark_bit}
use lama_rv_workshop.Gc.Object.Laws.{block, forward_word_laws}
use lama_rv_workshop.Gc.Layout.{Layout, marked_at, live_block, Layout-le, block_ge}
use lama_rv_workshop.Gc.Compact.Locations.{Located, OffSlots, OffSlots-below}
use lama_rv_workshop.Gc.Compact.Relocate.{When}
use lama_rv_workshop.Gc.Compact.Objects.{fields_from, fields_from_ge, is_live_field}
use lama_rv_workshop.Gc.Compact.Row.{out_of_words}
use lama_rv_workshop.Gc.Compact.Twin.{Twin, is_live_field_below, field_behind}

live_block_words : (m : Mem) (a n : ℕ) → live_block m a n % 8 ≡ 0
live_block_words m a n = ground arith

head_off : (a n : ℕ) (ns : List ℕ) → OffSlots a (n ∷ ns) a
head_off a n ns = (λ e. omega arith, OffSlots-below (a + block n) ns a (omega arith))

-- The objects' words behind header and forward address.
abbrev pub Contents : Mem → Mem → ℕ → ℕ → List ℕ → Type 0
Contents m m' a a' [] = Unit
Contents m m' a a' (n ∷ ns) =
    ((k : ℕ) → 16 ≤ k → k + 8 ≤ block n → m' (a' + k) ≡ m (a + k))
    × Contents m m' (a + block n) (a' + block n) ns

-- `compute_locations` leaves contents and headers alone, and what it computes is, in a copy of the
-- heap, a twin of the row.
module _ (old_heap heap : Chunk) (m m1 m2 : Mem) (end : ℕ)
    (copied : (b : ℕ)
      → old_heap.begin ≤ b
      → b + 8 ≤ end
      → m2 (heap.begin + (b - old_heap.begin)) ≡ m1 b) where
  forward_twin :
      (x y free : ℕ) (marked : Bool)
      → get_mark_bit x ≡ marked
      → y ≡ (if marked then set_forward_part x free else x)
      → (old_heap.begin ≤ free) × (free ≤ end)
      → (free % 8 ≡ 0)
        × (old_heap.begin < word_mod)
        × (heap.begin + (end - old_heap.begin) < word_mod)
      → (get_mark_bit y ≡ marked)
        × When marked (
            sub_word (heap.begin + forward_part y) old_heap.begin
            ≡ heap.begin + (free - old_heap.begin))
  forward_twin x y free true e word lo small =
      let laws = (forward_word_laws x free (omega (arith, small.0))).0 in
      (rw word laws.1 ∙ e, rw (word, laws.0) (omega arith))
  forward_twin x y free false e word lo small = (rw word e, tt)

  pub Located-Twin :
      (a : ℕ) (ns : List ℕ) (free : ℕ)
      → Layout m a ns end
      → Located m m1 a ns free
      → ((b : ℕ) → a ≤ b → OffSlots a ns b → m1 b ≡ m b)
      → old_heap.begin ≤ free
      → (free % 8 ≡ 0)
        × (old_heap.begin < word_mod)
        × (heap.begin + (end - old_heap.begin) < word_mod)
      → Twin old_heap heap m m2 a
          (heap.begin + (a - old_heap.begin))
          ns
          (heap.begin + (free - old_heap.begin))
  Located-Twin a [] free l loc same lo small = tt
  Located-Twin a (n ∷ ns) free l loc same lo small =
      let le = Layout-le m (a + block n) ns end l.3 in
      let sizes = block_ge n l.1 l.2 in
      let head : m2 (heap.begin + (a - old_heap.begin)) ≡ m a =
        copied a (omega (arith, loc.1)) (omega arith) ∙ same a (omega arith) (head_off a n ns) in
      let e : heap.begin + (a - old_heap.begin) + 8 ≡ heap.begin + (a + 8 - old_heap.begin) =
        omega (arith, loc.1) in
      let word = copied (a + 8) (omega (arith, loc.1)) (omega arith) ∙ loc.0 in
      let both =
        forward_twin (m (a + 8)) _ free (marked_at m a) refl word (lo, omega (arith, loc.1))
          small in
      let r =
        Located-Twin (a + block n) ns (free + live_block m a n) l.3 loc.2
          (λ b h off. same b (omega arith) (λ at. omega arith, off)) (omega arith)
          (omega (arith, small.0, live_block_words m a n), small.1, small.2) in
      let from : heap.begin + (a + block n - old_heap.begin)
          ≡ heap.begin + (a - old_heap.begin) + block n =
        omega (arith, loc.1) in
      let to : heap.begin + (free + live_block m a n - old_heap.begin)
          ≡ heap.begin + (free - old_heap.begin) + live_block m a n =
        omega arith in
      (head, rw e both.0, rw e both.1, omega (arith, loc.1), rw (from, to) at r)

  pub located-Contents :
      (a : ℕ) (ns : List ℕ)
      → Layout m a ns end
      → ((b : ℕ) → a ≤ b → OffSlots a ns b → m1 b ≡ m b)
      → old_heap.begin ≤ a
      → Contents m m2 a (heap.begin + (a - old_heap.begin)) ns
  located-Contents a [] l same lo = tt
  located-Contents a (n ∷ ns) l same lo =
      let le = Layout-le m (a + block n) ns end l.3 in
      let r =
        located-Contents (a + block n) ns l.3
          (λ b h off. same b (omega arith) (λ at. omega arith, off)) (omega arith) in
      let from : heap.begin + (a + block n - old_heap.begin)
          ≡ heap.begin + (a - old_heap.begin) + block n =
        omega arith in
      (
        λ k h i.
            let e : heap.begin + (a - old_heap.begin) + k ≡ heap.begin + (a + k - old_heap.begin) =
              omega arith in
            rw e (copied (a + k) (omega arith) (omega arith))
            ∙ same (a + k) (omega arith)
                (λ at. omega arith, OffSlots-below (a + block n) ns (a + k) (omega arith)),
        rw from at r,
      )

-- Only words of fields and words outside the row have changed, so a twin stays one.
module _ (old_heap heap : Chunk) (m m2 m3 : Mem) where
  -- Headers and forward addresses of all objects of a row are the same.
  abbrev pub SameHeads : ℕ → List ℕ → Type 0
  SameHeads a [] = Unit
  SameHeads a (n ∷ ns) = (m3 a ≡ m2 a) × (m3 (a + 8) ≡ m2 (a + 8)) × SameHeads (a + block n) ns

  pub Twin-SameHeads :
      (a a' : ℕ) (ns : List ℕ) (free : ℕ)
      → SameHeads a' ns
      → Twin old_heap heap m m2 a a' ns free
      → Twin old_heap heap m m3 a a' ns free
  Twin-SameHeads a a' [] free same t = tt
  Twin-SameHeads a a' (n ∷ ns) free same t = (
    same.0 ∙ t.0,
    rw same.1 t.1,
    rw same.1 t.2,
    t.3,
    Twin-SameHeads (a + block n) (a' + block n) ns (free + live_block m a n) same.2 t.4,
  )

  -- In a row where only live fields have changed the heads are the same.
  pub same_heads :
      (a : ℕ) (ns : List ℕ) (end : ℕ) (test : ℕ → Bool)
      → Layout m2 a ns end
      → ((b : ℕ) → test b ≡ false → m3 b ≡ m2 b)
      → ((b : ℕ) → a ≤ b → b < end → test b ≡ is_live_field m2 a ns b)
      → SameHeads a ns
  same_heads a [] end test l same link = tt
  same_heads a (n ∷ ns) end test l same link =
      let le = Layout-le m2 (a + block n) ns end l.3 in
      let size = block_ge n l.1 l.2 in
      let from = fields_from_ge m2 a n l.1 in
      let off : (b : ℕ) → b < a + 16 → is_live_field m2 a (n ∷ ns) b ≡ false = λ b h.
        let out = out_of_words (fields_from m2 a n) (a + n) b (inl (omega arith)) in
        let none = is_live_field_below m2 (a + block n) ns end b l.3 (omega arith) in
        rw (out, none, and_false (marked_at m2 a)) refl in
      (
        same a (link a (omega arith) (omega arith) ∙ off a (omega arith)),
        same (a + 8) (link (a + 8) (omega arith) (omega arith) ∙ off (a + 8) (omega arith)),
        same_heads (a + block n) ns end test l.3 same
            (λ b h i. link b (omega arith) i ∙ field_behind m2 a n ns b size.1 h),
      )
