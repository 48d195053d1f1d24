-- ===== src/Gc/Compact/Objects.antt =====
-- The references in the objects of a heap are redirected, in `update_references` of runtime/gc.c.
use lama_rv_workshop.Base.{
  ℕ, suc, ◌+◌, ◌*◌, ◌≤◌, ◌<◌, ◌≡◌, refl, ◌≢◌, Bool, true, false, ◌&&◌, ◌||◌, ◌==◌, leb, arith, List,
  [], ◌∷◌, if◌then◌else◌, inl, inr, Bool-cases, and_or_true, ◌∙◌,
}
use lama_rv_workshop.Base.Outcome.{ok, ◌>>=◌}
use lama_rv_workshop.Runtime.Value.{tag_of, string_tag, array_tag, sexp_tag, closure_tag}
use lama_rv_workshop.Gc.State.{Mem, Chunk}
use lama_rv_workshop.Gc.Object.{
  obj_size_header_ptr, is_valid_pointer, get_type_header_ptr, get_object_content_ptr,
  get_end_of_obj,
}
use lama_rv_workshop.Gc.Object.Laws.{block}
use lama_rv_workshop.Gc.Layout.{Layout, marked_at, Layout-le, block_ge}
use lama_rv_workshop.Gc.Field.{field_begin_iterator, ptr_field_begin_iterator}
use lama_rv_workshop.Gc.Field.Laws.{
  NextPointer, done_test, further, obj_next_ptr_field_iterator_lem,
}
use lama_rv_workshop.Gc.Mark.{rounds}
use lama_rv_workshop.Gc.Compact.{update_fields}
use lama_rv_workshop.Gc.Compact.Redirect.{Resolves, Heads, OffHeads}
use lama_rv_workshop.Gc.Compact.Fields.{
  in_words, in_words_later, in_words_skipped, Redirected, kept_odd, update_fields_lem,
}

-- Where the fields of the object at `a` begin; a string has none.
abbrev pub fields_from : Mem → ℕ → ℕ → ℕ
fields_from m a n =
    if tag_of (m a) == string_tag
    then a + n
    else if tag_of (m a) == array_tag
    then a + 16
    else a + 16 + 8

pub fields_from_ge : (m : Mem) (a n : ℕ) → 16 ≤ n → a + 16 ≤ fields_from m a n
fields_from_ge m a n h = ground arith

end_of_size : (m : Mem) (a n : ℕ) → obj_size_header_ptr m a ≡ ok n → get_end_of_obj m a ≡ ok (a + n)
unfolding get_end_of_obj
end_of_size m a n sized = rw sized refl

no_size :
    (m : Mem) (a n : ℕ)
    → (tag_of (m a) == array_tag) ≡ false
    → (tag_of (m a) == string_tag) ≡ false
    → (tag_of (m a) == closure_tag) ≡ false
    → (tag_of (m a) == sexp_tag) ≡ false
    → obj_size_header_ptr m a ≢ ok n
unfolding obj_size_header_ptr get_type_header_ptr
no_size m a n e f g k sized = let gone = rw (e, f, g, k) at sized in cc

pub begin_lem :
    (m : Mem) (a n : ℕ)
    → obj_size_header_ptr m a ≡ ok n
    → field_begin_iterator m a ≡ ok (record { obj_ptr = a; cur_field = fields_from m a n })
unfolding field_begin_iterator obj_size_header_ptr get_object_content_ptr get_end_of_obj
    get_type_header_ptr
begin_lem m a n sized =
    let t : ℕ = tag_of (m a) in
    elim (Bool-cases (t == array_tag)) [
      | inl e ↦ let f : (t == string_tag) ≡ false = ground arith in rw (e, f) refl
      | inr e ↦ elim (Bool-cases (t == string_tag)) [
        | inl f ↦ let end = end_of_size m a n sized in rw (e, f, end) refl
        | inr f ↦ elim (Bool-cases (t == closure_tag)) [
          | inl g ↦ rw (e, f, g) refl
          | inr g ↦ elim (Bool-cases (t == sexp_tag)) [
            | inl k ↦ rw (e, f, g, k) refl
            | inr k ↦ absurd (no_size m a n e f g k sized)
          ]
        ]
      ]
    ]

-- The iterator begins at the first word of the fields that holds a pointer or lies past the end.
pub ptr_field_begin_iterator_lem :
    (fuel : ℕ) (m : Mem) (a n c : ℕ)
    → obj_size_header_ptr m a ≡ ok n
    → field_begin_iterator m a ≡ ok (record { obj_ptr = a; cur_field = c + 8 })
    → a + n ≤ c + 8 + 8 * fuel
    → (next : ℕ) × (ptr_field_begin_iterator fuel m a
        ≡ ok (record { obj_ptr = a; cur_field = next }))
      × NextPointer m (a + n) c next
unfolding ptr_field_begin_iterator
ptr_field_begin_iterator_lem fuel m a n c sized begun enough =
    elim (Bool-cases (leb (a + n) (c + 8))) [
      | inl over ↦ (
        c + 8,
        rw (begun, done_test m a n sized (c + 8), over) refl,
        record {
          steps = 0;
          there = omega arith;
          skipped = λ i l. absurd (omega arith);
          inside = λ i l. absurd (omega arith);
          stopped = inl (ground arith);
        },
      )
      | inr more ↦ elim (Bool-cases (is_valid_pointer (m (c + 8)))) [
        | inl pointer ↦ (
          c + 8,
          rw (begun, done_test m a n sized (c + 8), more, pointer) refl,
          record {
            steps = 0;
            there = omega arith;
            skipped = λ i l. absurd (omega arith);
            inside = λ i l. absurd (omega arith);
            stopped = inr pointer;
          },
        )
        | inr odd ↦
            let in_it : c + 8 < a + n = ground arith in
            let r = obj_next_ptr_field_iterator_lem m a n sized fuel (c + 8) in_it (omega arith) in
            (
              r.0,
              rw (begun, done_test m a n sized (c + 8), more, odd) r.1,
              further m a n sized c r.0 odd in_it r.2,
            )
      ]
    ]

pub in_words_bounds : (start end b : ℕ) → in_words start end b ≡ true → (start ≤ b) × (b < end)
in_words_bounds start end b e = ground arith

pub in_words_first :
    (c next steps end b : ℕ)
    → next ≡ c + 8 * suc steps
    → in_words next end b ≡ true
    → in_words (c + 8) end b ≡ true
in_words_first c next steps end b e h = ground arith

-- `b` is a field of a marked object.
abbrev pub is_live_field : Mem → ℕ → List ℕ → ℕ → Bool
is_live_field m a [] b = false
is_live_field m a (n ∷ ns) b =
    (marked_at m a && in_words (fields_from m a n) (a + n) b) || is_live_field m (a + block n) ns b

module _ (m : Mem) where
  pub is_live_field_ge :
      (a : ℕ) (ns : List ℕ) (end b : ℕ)
      → Layout m a ns end
      → is_live_field m a ns b ≡ true
      → (a + 16 ≤ b) × (b < end)
  is_live_field_ge a [] end b l e = absurd (ground arith)
  is_live_field_ge a (n ∷ ns) end b l e =
      let le = Layout-le m (a + block n) ns end l.3 in
      let blocks = block_ge n l.1 l.2 in
      let from = fields_from_ge m a n l.1 in
      elim (Bool-cases (is_live_field m (a + block n) ns b)) [
        | inl later ↦ let h = is_live_field_ge (a + block n) ns end b l.3 later in omega (arith, h)
        | inr now ↦
            let it = and_or_true (marked_at m a) _ _ e now in
            let h = in_words_bounds (fields_from m a n) (a + n) b it.1 in omega (arith, h)
      ]

module _ (old_heap heap : Chunk) (m : Mem) (ns : List ℕ)
    (row : Layout m heap.begin ns heap.current) where
  pub Redirected-or :
      (m1 m2 m3 : Mem) (p q : ℕ → Bool)
      → Redirected old_heap heap m ns row m1 p m2
      → Redirected old_heap heap m ns row m2 q m3
      → ((b : ℕ) → p b ≡ true → q b ≡ false)
      → Redirected old_heap heap m ns row m1 (λ b. p b || q b) m3
  Redirected-or m1 m2 m3 p q first second apart b = elim (Bool-cases (p b)) [
    | inl e ↦ second b ∙ rw (apart b e, e) (first b ∙ rw e refl)
    | inr e ↦ let same : m2 b ≡ m1 b = first b ∙ rw e refl in second b ∙ rw (e, same) refl
  ]

  -- The words before the first pointer are no references.
  Redirected-first :
      (m1 m2 : Mem) (end c next : ℕ)
      → NextPointer m1 end c next
      → Redirected old_heap heap m ns row m1 (in_words next end) m2
      → Redirected old_heap heap m ns row m1 (in_words (c + 8) end) m2
  Redirected-first m1 m2 end c next skip later b = elim (Bool-cases (in_words next end b)) [
    | inl e ↦
        let in_it = in_words_later c next skip.steps end b skip.there e in
        let in_it2 : in_words (c + 8) end b ≡ true =
          in_words_first c next skip.steps end b skip.there e in
        later b ∙ rw (e, in_it2) refl
    | inr e ↦ elim (Bool-cases (in_words (c + 8) end b)) [
      | inl k ↦
          let k2 : (in_words c end b ≡ true) × (b ≢ c) = ground arith in
          elim (in_words_skipped c next skip.steps end b skip.there e k2.0) [
            | inl here ↦ absurd (k2.1 here)
            | inr (i, lt, at) ↦
                let odd : is_valid_pointer (m1 b) ≡ false = rw at (skip.skipped i lt) in
                later b ∙ rw (e, k, kept_odd old_heap heap m ns row (m1 b) odd) refl
          ]
      | inr k ↦ later b ∙ rw (e, k) refl
    ]
  ]

  -- The fields of one object, which begin at `start`.
  abbrev pub FieldsDone : Mem → ℕ → ℕ → ℕ → Type 0
  FieldsDone m1 a n start =
      (m' : Mem) × ((ptr_field_begin_iterator (rounds heap) m1 a
          >>= update_fields old_heap heap (rounds heap) m1)
        ≡ ok m')
      × Redirected old_heap heap m ns row m1 (in_words start (a + n)) m'

  module _ (m1 : Mem) (a n : ℕ) (sized : obj_size_header_ptr m1 a ≡ ok n) (lt : n < rounds heap)
      (heads : Heads old_heap heap m ns m1) where
    object_at :
        (c : ℕ)
        → field_begin_iterator m1 a ≡ ok (record { obj_ptr = a; cur_field = c + 8 })
        → a + 16 ≤ c + 8
        → ((b : ℕ) → in_words (c + 8) (a + n) b ≡ true → OffHeads old_heap heap m ns b)
        → ((b : ℕ) → in_words (c + 8) (a + n) b ≡ true → Resolves old_heap heap m ns (m1 b))
        → FieldsDone m1 a n (c + 8)
    object_at c begun from off res =
        let first = ptr_field_begin_iterator_lem (rounds heap) m1 a n c sized begun (omega arith) in
        let inner : (b : ℕ)
            → in_words first.0 (a + n) b ≡ true
            → in_words (c + 8) (a + n) b ≡ true =
          λ b h. in_words_first c first.0 first.2.steps (a + n) b first.2.there h in
        let r =
          update_fields_lem old_heap heap m ns row (rounds heap) m1 a n first.0 sized lt
            (omega (arith, first.2.there)) (omega (arith, first.2.there)) first.2.stopped heads
            (λ b h. off b (inner b h)) (λ b h. res b (inner b h)) in
        (r.0, rw first.1 r.1, Redirected-first m1 r.0 (a + n) c first.0 first.2 r.2)

    pub object_from :
        (start c : ℕ)
        → start ≡ c + 8
        → field_begin_iterator m1 a ≡ ok (record { obj_ptr = a; cur_field = start })
        → a + 16 ≤ start
        → ((b : ℕ) → in_words start (a + n) b ≡ true → OffHeads old_heap heap m ns b)
        → ((b : ℕ) → in_words start (a + n) b ≡ true → Resolves old_heap heap m ns (m1 b))
        → FieldsDone m1 a n start
    object_from start c e = rw e (object_at c)
