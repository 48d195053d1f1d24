-- ===== src/Gc/Field/Laws.antt =====
-- The iterator over an object's pointers stops at the next one, or at the object's end.
use lama_rv_workshop.Base.{
  ℕ, zero, suc, ◌+◌, ◌*◌, ◌≤◌, ◌<◌, ◌≡◌, refl, true, false, arith, leb, ◌⊎◌, inl, inr, Bool-cases,
}
use lama_rv_workshop.Base.Outcome.{ok}
use lama_rv_workshop.Gc.State.{Mem}
use lama_rv_workshop.Gc.Object.{obj_size_header_ptr, get_end_of_obj, is_valid_pointer}
use lama_rv_workshop.Gc.Field.{
  field_is_done_iterator, obj_next_field_iterator, obj_next_ptr_field_iterator,
}

-- `next` is the first of the fields behind `cur` that holds a pointer or is not in the object.
pub record NextPointer (m : Mem) (end cur next : ℕ) : Type 0 where
  pub steps : ℕ
  pub there : next ≡ cur + 8 * suc steps
  pub skipped : (i : ℕ) → i < steps → is_valid_pointer (m (cur + 8 * suc i)) ≡ false
  pub inside : (i : ℕ) → i < steps → cur + 8 * suc i < end
  pub stopped : (end ≤ next) ⊎ (is_valid_pointer (m next) ≡ true)

module _ (m : Mem) (obj size : ℕ) (sized : obj_size_header_ptr m obj ≡ ok size) where
  pub done_test :
      (cur : ℕ)
      → field_is_done_iterator m (record { obj_ptr = obj; cur_field = cur })
        ≡ ok (leb (obj + size) cur)
  unfolding field_is_done_iterator get_end_of_obj
  done_test cur = rw sized refl

  pub further :
      (cur next : ℕ)
      → is_valid_pointer (m (cur + 8)) ≡ false
      → cur + 8 < obj + size
      → NextPointer m (obj + size) (cur + 8) next
      → NextPointer m (obj + size) cur next
  further cur next odd in_it r = record {
    steps = suc r.steps;
    there = omega (arith, r.there);
    skipped = λ i h. skip i h;
    inside = λ i h. within i h;
    stopped = r.stopped;
  }
    where
      skip : (i : ℕ) → i < suc r.steps → is_valid_pointer (m (cur + 8 * suc i)) ≡ false
      skip zero h = let e : cur + 8 * suc 0 ≡ cur + 8 = omega arith in rw e odd
      skip (suc i) h =
          let e : cur + 8 * suc (suc i) ≡ cur + 8 + 8 * suc i = omega arith in
          rw e (r.skipped i (omega arith))

      within : (i : ℕ) → i < suc r.steps → cur + 8 * suc i < obj + size
      within zero h = omega arith
      within (suc i) h = omega (arith, r.inside i (omega arith))

  -- From a place inside an object of known size, obj_next_ptr_field_iterator ends, given as many
  -- rounds as there are words left, at the first of the words behind it that holds a pointer or
  -- lies past the end; all words that it skips are inside the object and hold no pointer.
  pub obj_next_ptr_field_iterator_lem :
      (fuel cur : ℕ)
      → cur < obj + size
      → obj + size ≤ cur + 8 * fuel
      → (next : ℕ) × (obj_next_ptr_field_iterator fuel m (record { obj_ptr = obj; cur_field = cur })
          ≡ ok (record { obj_ptr = obj; cur_field = next }))
        × NextPointer m (obj + size) cur next
  unfolding obj_next_ptr_field_iterator obj_next_field_iterator
  obj_next_ptr_field_iterator_lem zero cur h k = absurd (omega arith)
  obj_next_ptr_field_iterator_lem (suc fuel) cur h k =
      elim (Bool-cases (leb (obj + size) (cur + 8))) [
        | inl over ↦ (
          cur + 8,
          rw (done_test (cur + 8), over) refl,
          record {
            steps = 0;
            there = omega arith;
            skipped = λ i l. absurd (omega arith);
            inside = λ i l. absurd (omega arith);
            stopped = inl (ground arith);
          },
        )
        | inr more ↦ elim (Bool-cases (is_valid_pointer (m (cur + 8)))) [
          | inl pointer ↦ (
            cur + 8,
            rw (done_test (cur + 8), more, pointer) refl,
            record {
              steps = 0;
              there = omega arith;
              skipped = λ i l. absurd (omega arith);
              inside = λ i l. absurd (omega arith);
              stopped = inr pointer;
            },
          )
          | inr odd ↦
              let in_it : cur + 8 < obj + size = ground arith in
              let r = obj_next_ptr_field_iterator_lem fuel (cur + 8) in_it (omega arith) in
              (r.0, rw (done_test (cur + 8), more, odd) r.1, further cur r.0 odd in_it r.2)
        ]
      ]
