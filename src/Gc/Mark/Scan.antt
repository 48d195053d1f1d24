-- ===== src/Gc/Mark/Scan.antt =====
-- The fields of one object are visited in the mark phase of runtime/gc.c.
use lama_rv_workshop.Base.{
  ℕ, zero, suc, ◌+◌, ◌-◌, ◌%◌, ◌≤◌, ◌<◌, ◌≡◌, refl, ◌≢◌, ◌⊎◌, true, false, leb, arith, List, inl,
  inr, Bool-cases, ◌∙◌,
}
use lama_rv_workshop.Base.Outcome.{Outcome, ok}
use lama_rv_workshop.Gc.State.{Mem, Chunk}
use lama_rv_workshop.Gc.Object.{obj_size_header_ptr, is_valid_pointer, is_valid_heap_pointer}
use lama_rv_workshop.Gc.Object.Laws.{obj_size_of_header}
use lama_rv_workshop.Gc.Layout.{Layout}
use lama_rv_workshop.Gc.Field.{obj_next_ptr_field_iterator}
use lama_rv_workshop.Gc.Field.Laws.{NextPointer, done_test, obj_next_ptr_field_iterator_lem}
use lama_rv_workshop.Gc.Compact.Locations.{OffSlots}
use lama_rv_workshop.Gc.Compact.Relocate.{When, When-map}
use lama_rv_workshop.Gc.Compact.Fields.{in_words, in_words_later, in_words_skipped}
use lama_rv_workshop.Gc.Mark.{rounds, visit, mark_fields}
use lama_rv_workshop.Gc.Mark.Queue.{Within, IsContent, Inv}
use lama_rv_workshop.Gc.Mark.Visit.{
  Progress, Keeps, Keeps-trans, Seen, Seen-Keeps, stays, visit_lem,
}

pub odd_no_reference :
    (heap : Chunk) (v : ℕ) → is_valid_pointer v ≡ false → is_valid_heap_pointer heap v ≡ false
unfolding is_valid_pointer is_valid_heap_pointer
odd_no_reference heap v e = rw e refl

module _ (heap : Chunk) where
  mark_fields_done :
      (fuel : ℕ) (m : Mem) (tail a n cur : ℕ)
      → obj_size_header_ptr m a ≡ ok n
      → leb (a + n) cur ≡ true
      → mark_fields heap (suc fuel) m tail (record { obj_ptr = a; cur_field = cur }) ≡ ok (m, tail)
  unfolding mark_fields
  mark_fields_done fuel m tail a n cur sized over = rw (done_test m a n sized cur, over) refl

  mark_fields_step :
      (fuel : ℕ) (m m1 : Mem) (tail tail1 a n cur next : ℕ) (out : Outcome (Mem × ℕ))
      → obj_size_header_ptr m a ≡ ok n
      → leb (a + n) cur ≡ false
      → visit heap m tail (m cur) ≡ ok (m1, tail1)
      → obj_next_ptr_field_iterator (rounds heap) m1 (record { obj_ptr = a; cur_field = cur })
        ≡ ok (record { obj_ptr = a; cur_field = next })
      → mark_fields heap fuel m1 tail1 (record { obj_ptr = a; cur_field = next }) ≡ out
      → mark_fields heap (suc fuel) m tail (record { obj_ptr = a; cur_field = cur }) ≡ out
  unfolding mark_fields
  mark_fields_step fuel m m1 tail tail1 a n cur next out sized more seen further rest =
      rw (done_test m a n sized cur, more, seen, further) rest

module _ (heap : Chunk) (m₀ : Mem) (ns : List ℕ) (row : Layout m₀ heap.begin ns heap.current)
    (aligned : heap.begin % 8 ≡ 0) where
  abbrev pub Reference : Mem → ℕ → Type 0
  Reference m v = When (is_valid_heap_pointer heap v) (Seen m (v - 16))

  pub Reference-Keeps : (m m' : Mem) (v : ℕ) → Keeps m m' → Reference m v → Reference m' v
  Reference-Keeps m m' v k r =
      When-map (is_valid_heap_pointer heap v) _ _ (Seen-Keeps m m' (v - 16) k) r

  all_seen :
      (m1 m2 : Mem) (end cur next : ℕ)
      → Keeps m1 m2
      → Reference m1 (m₀ cur)
      → ((b : ℕ) → cur ≤ b → b < end → m1 b ≡ m₀ b)
      → NextPointer m1 end cur next
      → ((b : ℕ) → in_words next end b ≡ true → Reference m2 (m₀ b))
      → (b : ℕ) → in_words cur end b ≡ true
      → Reference m2 (m₀ b)
  all_seen m1 m2 end cur next keeps first same skip later b e =
      elim (Bool-cases (in_words next end b)) [
        | inl f ↦ later b f
        | inr f ↦ elim (in_words_skipped cur next skip.steps end b skip.there f e) [
          | inl here ↦ rw here (Reference-Keeps m1 m2 (m₀ cur) keeps first)
          | inr (i, lt, at) ↦
              let in_it = skip.inside i lt in
              let same_b : m1 b ≡ m₀ b = same b (omega (arith, at)) (rw at in_it) in
              let odd : is_valid_pointer (m₀ b) ≡ false = rw (← same_b, at) (skip.skipped i lt) in
              rw (odd_no_reference heap (m₀ b) odd) tt
        ]
      ]

  -- The words from `cur` to `end` that lead to `x`.
  abbrev pub FromField : ℕ → ℕ → ℕ → Type 0
  FromField cur end x =
      (b : ℕ) × (in_words cur end b ≡ true)
      × (is_valid_heap_pointer heap (m₀ b) ≡ true)
      × (x ≡ m₀ b)

  pub mark_fields_lem :
      (fuel : ℕ) (m : Mem) (head : ℕ) (ks : List ℕ) (tail : ℕ) (rest q : List ℕ) (a n cur : ℕ)
      → Inv heap m₀ ns m head ks tail rest q
      → obj_size_header_ptr m₀ a ≡ ok n
      → ((b : ℕ) → a + 16 ≤ b → b < a + n → OffSlots heap.begin ns b)
      → OffSlots heap.begin ns a
      → (n < rounds heap) × (a + 16 ≤ cur) × (0 < fuel) × (a + n < cur + fuel)
      → ((b : ℕ)
          → in_words cur (a + n) b ≡ true
          → When (is_valid_heap_pointer heap (m₀ b)) (IsContent heap m₀ ns (m₀ b)))
      → (p : Progress heap m₀ ns row aligned m head ks
          (mark_fields heap fuel m tail (record { obj_ptr = a; cur_field = cur })))
        × ((b : ℕ) → in_words cur (a + n) b ≡ true → Reference p.m' (m₀ b))
        × ((x : ℕ) → Within x p.q → Within x q ⊎ FromField cur (a + n) x)
  mark_fields_lem zero m head ks tail rest q a n cur inv sized off offa lt refs =
      absurd (omega (arith, lt))
  mark_fields_lem (suc fuel) m head ks tail rest q a n cur inv sized off offa lt refs =
      let sized1 : obj_size_header_ptr m a ≡ ok n =
        obj_size_of_header m₀ m a (inv.frame a offa) ∙ sized in
      elim (Bool-cases (leb (a + n) cur)) [
        | inl over ↦
            let out : (b : ℕ) → in_words cur (a + n) b ≢ true = λ b e. ground arith in
            rw (mark_fields_done heap fuel m tail a n cur sized1 over) (
              stays heap m₀ ns row aligned m head ks tail rest q inv,
              λ b e. absurd (out b e),
              λ x w. inl w,
            )
        | inr more ↦
            let inside : cur < a + n = ground arith in
            let here : in_words cur (a + n) cur ≡ true = ground arith in
            let word : m cur ≡ m₀ cur = inv.frame cur (off cur (omega (arith, lt)) inside) in
            let v =
              visit_lem heap m₀ ns row aligned m head ks tail rest q (m cur) inv
                (rw word (refs cur here)) in
            let sized2 : obj_size_header_ptr v.0.m' a ≡ ok n =
              obj_size_of_header m₀ v.0.m' a (v.0.inv.frame a offa) ∙ sized in
            let next =
              obj_next_ptr_field_iterator_lem v.0.m' a n sized2 (rounds heap) cur inside
                (omega (arith, lt)) in
            let later : (b : ℕ) → in_words next.0 (a + n) b ≡ true → in_words cur (a + n) b ≡ true =
              λ b e. (in_words_later cur next.0 next.2.steps (a + n) b next.2.there e).0 in
            let r =
              mark_fields_lem fuel v.0.m' head ks v.0.tail v.0.rest v.0.q a n next.0 v.0.inv sized
                off offa
                (
                  lt.0,
                  omega (arith, next.2.there, lt),
                  omega (arith, lt),
                  omega (arith, next.2.there, lt),
                )
                (λ b e. refs b (later b e)) in
            (
              record {
                m' = r.0.m';
                tail = r.0.tail;
                returns =
                    mark_fields_step heap fuel m v.0.m' tail v.0.tail a n cur next.0
                      (ok (r.0.m', r.0.tail)) sized1 more v.0.returns next.1 r.0.returns;
                rest = r.0.rest;
                q = r.0.q;
                inv = r.0.inv;
                keeps = Keeps-trans m v.0.m' r.0.m' v.0.keeps r.0.keeps;
              },
              all_seen v.0.m' r.0.m' (a + n) cur next.0 r.0.keeps (rw word at v.1)
                  (λ b h k. v.0.inv.frame b (off b (omega (arith, lt)) k)) next.2 r.1,
              λ x w. elim (r.2 x w) [
                | inl old ↦ elim (v.2 x old) [
                  | inl older ↦ inl older
                  | inr new ↦
                      let valid : is_valid_heap_pointer heap (m₀ cur) ≡ true = rw word at new.0 in
                      inr (cur, here, valid, new.1 ∙ word)
                ]
                | inr new ↦ inr (new.0, later new.0 new.1, new.2, new.3)
              ],
            )
      ]
