-- ===== src/Gc/Compact/Row.antt =====
-- The loop over the objects of `update_references` in runtime/gc.c.
use lama_rv_workshop.Base.{
  ℕ, zero, suc, ◌+◌, ◌-◌, ◌≤◌, ◌<◌, ◌≡◌, refl, ◌≢◌, ◌⊎◌, true, false, leb, arith, List, [], ◌∷◌,
  inl, inr, Bool-cases, and_or_true, or_true, ◌∙◌,
}
use lama_rv_workshop.Base.Outcome.{ok, ◌>>=◌}
use lama_rv_workshop.Gc.State.{Mem, Chunk}
use lama_rv_workshop.Gc.Object.{obj_size_header_ptr, is_marked, heap_is_done_iterator}
use lama_rv_workshop.Gc.Object.Laws.{
  block, obj_size_of_header, content_of_size, next_of_size, slot_of_content,
}
use lama_rv_workshop.Gc.Layout.{Layout, marked_at, Layout-le, block_ge}
use lama_rv_workshop.Gc.Field.{ptr_field_begin_iterator}
use lama_rv_workshop.Gc.Mark.{rounds}
use lama_rv_workshop.Gc.Compact.{update_fields, update_objects}
use lama_rv_workshop.Gc.Compact.Relocate.{Above}
use lama_rv_workshop.Gc.Compact.Redirect.{Live, Live-ge, Resolves, Heads, OffHeads}
use lama_rv_workshop.Gc.Compact.Fields.{in_words, Redirected, Heads-Redirected}
use lama_rv_workshop.Gc.Compact.Objects.{
  fields_from, fields_from_ge, is_live_field, is_live_field_ge, begin_lem, object_from, FieldsDone,
  Redirected-or, in_words_bounds,
}

pub out_of_words : (start end b : ℕ) → (b < start) ⊎ (end ≤ b) → in_words start end b ≡ false
out_of_words start end b h = ground arith

-- A field of an object is no field of an object behind it.
field_apart :
    (m : Mem) (a n : ℕ) (ks : List ℕ) (end start b : ℕ)
    → Layout m (a + block n) ks end
    → n ≤ block n
    → in_words start (a + n) b ≡ true
    → is_live_field m (a + block n) ks b ≡ false
field_apart m a n ks end start b l le h = elim (Bool-cases (is_live_field m (a + block n) ks b)) [
  | inl e ↦ absurd (
      omega
        (arith, is_live_field_ge m (a + block n) ks end b l e, in_words_bounds start (a + n) b h))
  | inr e ↦ e
]

-- A field is no header and no forward address of a marked object.
pub Live-field_off :
    (m : Mem) (a : ℕ) (ns : List ℕ) (end b o : ℕ)
    → Layout m a ns end
    → is_live_field m a ns b ≡ true
    → Live m a ns o
    → (b ≢ o) × (b ≢ o + 8)
Live-field_off m a [] end b o l e live = elim live [ ]
Live-field_off m a (n ∷ ns) end b o l e live =
    let le = block_ge n l.1 l.2 in
    let lo = is_live_field_ge m a (n ∷ ns) end b l e in
    elim live [
      | inl here ↦ (λ same. omega arith, λ same. omega arith)
      | inr there ↦ elim (Bool-cases (is_live_field m (a + block n) ns b)) [
        | inl later ↦ Live-field_off m (a + block n) ns end b o l.3 later there
        | inr now ↦
            let it = and_or_true (marked_at m a) _ _ e now in
            let at = in_words_bounds (fields_from m a n) (a + n) b it.1 in
            let far = Live-ge m (a + block n) ns o there in
            (λ same. omega (arith, at, far), λ same. omega (arith, at, far))
      ]
    ]

module _ (old_heap heap : Chunk) (m : Mem) (ns : List ℕ)
    (row : Layout m heap.begin ns heap.current) where
  update_objects_marked :
      (fuel : ℕ) (m1 m2 m' : Mem) (a n : ℕ)
      → a < heap.current
      → obj_size_header_ptr m1 a ≡ ok n
      → obj_size_header_ptr m2 a ≡ ok n
      → marked_at m1 a ≡ true
      → (ptr_field_begin_iterator (rounds heap) m1 a
          >>= update_fields old_heap heap (rounds heap) m1)
        ≡ ok m2
      → update_objects old_heap heap fuel m2 (a + block n) ≡ ok m'
      → update_objects old_heap heap (suc fuel) m1 a ≡ ok m'
  unfolding update_objects heap_is_done_iterator is_marked
  update_objects_marked fuel m1 m2 m' a n lt sized sized2 e done rest =
      let going : leb heap.current a ≡ false = ground arith in
      rw
        (
          going,
          content_of_size m1 a n sized,
          slot_of_content a,
          e,
          done,
          next_of_size m2 a n sized2,
        )
        rest

  update_objects_unmarked :
      (fuel : ℕ) (m1 m' : Mem) (a n : ℕ)
      → a < heap.current
      → obj_size_header_ptr m1 a ≡ ok n
      → marked_at m1 a ≡ false
      → update_objects old_heap heap fuel m1 (a + block n) ≡ ok m'
      → update_objects old_heap heap (suc fuel) m1 a ≡ ok m'
  unfolding update_objects heap_is_done_iterator is_marked
  update_objects_unmarked fuel m1 m' a n lt sized e rest =
      let going : leb heap.current a ≡ false = ground arith in
      rw (going, content_of_size m1 a n sized, slot_of_content a, e, next_of_size m1 a n sized) rest

  -- What redirecting the fields of an object comes to.
  record RowObject (m1 : Mem) (a n : ℕ) : Type 0 where
    m2 : Mem
    done :
        (ptr_field_begin_iterator (rounds heap) m1 a
          >>= update_fields old_heap heap (rounds heap) m1)
        ≡ ok m2
    sized : obj_size_header_ptr m2 a ≡ ok n
    above : Above m m2 (a + block n)
    heads : Heads old_heap heap m ns m2
    redirected : Redirected old_heap heap m ns row m1 (in_words (fields_from m a n) (a + n)) m2

  row_object :
      (m1 : Mem) (a n : ℕ)
      → obj_size_header_ptr m a ≡ ok n
      → 16 ≤ n
      → (n < rounds heap) × (n ≤ block n)
      → Above m m1 a
      → Heads old_heap heap m ns m1
      → ((b : ℕ) → in_words (fields_from m a n) (a + n) b ≡ true → OffHeads old_heap heap m ns b)
      → ((b : ℕ)
          → in_words (fields_from m a n) (a + n) b ≡ true
          → Resolves old_heap heap m ns (m b))
      → RowObject m1 a n
  row_object m1 a n size big lt above heads off res = record {
    m2 = r.0;
    done = r.1;
    sized = obj_size_of_header m r.0 a (r.2 a ∙ rw header (above a (omega arith))) ∙ size;
    above = λ b h. r.2 b ∙ rw (behind b h) (above b (omega arith));
    heads = Heads-Redirected old_heap heap m ns row m1 r.0 (in_words start (a + n)) r.2 off heads;
    redirected = r.2;
  }
    where
      start : ℕ
      start = fields_from m a n

      lo : a + 16 ≤ start
      lo = fields_from_ge m a n big

      sized1 : obj_size_header_ptr m1 a ≡ ok n
      sized1 = obj_size_of_header m m1 a (above a (omega arith)) ∙ size

      r : FieldsDone old_heap heap m ns row m1 a n start
      r =
          object_from old_heap heap m ns row m1 a n sized1 lt.0 heads start (start - 8)
            (omega (arith, lo)) (begin_lem m1 a n sized1 ∙ rw (above a (omega arith)) refl) lo off
            (λ b h. rw (above b (omega (arith, lo, in_words_bounds start (a + n) b h))) (res b h))

      header : in_words start (a + n) a ≡ false
      header = out_of_words start (a + n) a (inl (omega (arith, lo)))

      behind : (b : ℕ) → a + block n ≤ b → in_words start (a + n) b ≡ false
      behind b h = out_of_words start (a + n) b (inr (omega (arith, lt.1)))

  -- From an object on whose memory is still that of `m`.
  pub update_row :
      (fuel : ℕ) (m1 : Mem) (a : ℕ) (ks : List ℕ)
      → Layout m a ks heap.current
      → heap.begin ≤ a
      → heap.current < a + fuel
      → Above m m1 a
      → Heads old_heap heap m ns m1
      → ((b : ℕ) → is_live_field m a ks b ≡ true → OffHeads old_heap heap m ns b)
      → ((b : ℕ) → is_live_field m a ks b ≡ true → Resolves old_heap heap m ns (m b))
      → (m' : Mem) × (update_objects old_heap heap fuel m1 a ≡ ok m')
        × Redirected old_heap heap m ns row m1 (is_live_field m a ks) m'
  unfolding update_objects heap_is_done_iterator
  update_row zero m1 a ks l from enough above heads off res =
      absurd (omega (arith, Layout-le m a ks heap.current l))
  update_row (suc fuel) m1 a [] l from enough above heads off res =
      let over : leb heap.current a ≡ true = ground arith in (m1, rw over refl, λ b. refl)
  update_row (suc fuel) m1 a (n ∷ ks) l from enough above heads off res =
      let below = Layout-le m (a + block n) ks heap.current l.3 in
      let le = block_ge n l.1 l.2 in
      let sized : obj_size_header_ptr m1 a ≡ ok n =
        obj_size_of_header m m1 a (above a (omega arith)) ∙ l.0 in
      elim (Bool-cases (marked_at m a)) [
        | inl e ↦
            let marked : marked_at m1 a ≡ true = rw (above (a + 8) (omega arith)) e in
            let first : (b : ℕ)
                → in_words (fields_from m a n) (a + n) b ≡ true
                → is_live_field m a (n ∷ ks) b ≡ true =
              λ b h. rw (e, h) refl in
            let rest : (b : ℕ)
                → is_live_field m (a + block n) ks b ≡ true
                → is_live_field m a (n ∷ ks) b ≡ true =
              λ b h. rw (e, h) (or_true _) in
            let o =
              row_object m1 a n l.0 l.1 (omega arith, le.1) above heads (λ b h. off b (first b h))
                (λ b h. res b (first b h)) in
            let r =
              update_row fuel o.m2 (a + block n) ks l.3 (omega arith) (omega arith) o.above o.heads
                (λ b h. off b (rest b h)) (λ b h. res b (rest b h)) in
            (
              r.0,
              update_objects_marked fuel m1 o.m2 r.0 a n (omega arith) sized o.sized marked o.done
                  r.1,
              λ b. rw e (
                  Redirected-or old_heap heap m ns row m1 o.m2 r.0 _
                    (is_live_field m (a + block n) ks) o.redirected r.2
                    (λ c h. field_apart m a n ks heap.current _ c l.3 le.1 h) b),
            )
        | inr e ↦
            let unmarked : marked_at m1 a ≡ false = rw (above (a + 8) (omega arith)) e in
            let rest : (b : ℕ)
                → is_live_field m (a + block n) ks b ≡ true
                → is_live_field m a (n ∷ ks) b ≡ true =
              λ b h. rw (e, h) refl in
            let r =
              update_row fuel m1 (a + block n) ks l.3 (omega arith) (omega arith)
                (λ b h. above b (omega arith)) heads (λ b h. off b (rest b h))
                (λ b h. res b (rest b h)) in
            (
              r.0,
              update_objects_unmarked fuel m1 r.0 a n (omega arith) sized unmarked r.1,
              λ b. rw e (r.2 b),
            )
      ]
