-- ===== src/Gc/Compact/Fields.antt =====
-- The pointers of one object are redirected, in `update_references` of runtime/gc.c.
use lama_rv_workshop.Base.{
  ℕ, zero, suc, ◌+◌, ◌-◌, ◌*◌, ◌/◌, ◌%◌, ◌≤◌, ◌<◌, ◌≡◌, refl, ◌≢◌, ◌⊎◌, Bool, true, false, ◌&&◌,
  ◌==◌, leb, ltb, arith, List, if◌then◌else◌, inl, inr, Bool-cases, ==_refl, sym, ◌∙◌,
}
use lama_rv_workshop.Base.Outcome.{Outcome, ok, ◌>>=◌}
use lama_rv_workshop.Gc.State.{Mem, write, Chunk}
use lama_rv_workshop.Gc.Object.{obj_size_header_ptr, is_valid_pointer}
use lama_rv_workshop.Gc.Object.Laws.{obj_size_of_header}
use lama_rv_workshop.Gc.Layout.{Layout}
use lama_rv_workshop.Gc.Field.{obj_next_ptr_field_iterator}
use lama_rv_workshop.Gc.Field.Laws.{NextPointer, done_test, obj_next_ptr_field_iterator_lem}
use lama_rv_workshop.Gc.Mark.{rounds}
use lama_rv_workshop.Gc.Compact.{in_old_heap, new_reference, update_fields}
use lama_rv_workshop.Gc.Compact.Relocate.{place}
use lama_rv_workshop.Gc.Compact.Redirect.{
  Live, target, redirect, Resolves, Heads, OffHeads, new_reference_lem,
}

-- `b` is one of the words from `start` on that lie below `end`.
abbrev pub in_words : ℕ → ℕ → ℕ → Bool
in_words start end b = leb start b && (ltb b end && ((b - start) % 8 == 0))

pub in_words_later :
    (cur next steps end b : ℕ)
    → next ≡ cur + 8 * suc steps
    → in_words next end b ≡ true
    → (in_words cur end b ≡ true) × (b ≢ cur)
in_words_later cur next steps end b e h = ground arith

pub in_words_skipped :
    (cur next steps end b : ℕ)
    → next ≡ cur + 8 * suc steps
    → in_words next end b ≡ false
    → in_words cur end b ≡ true
    → (b ≡ cur) ⊎ ((i : ℕ) × (i < steps) × (b ≡ cur + 8 * suc i))
in_words_skipped cur next steps end b e h k = elim (Bool-cases (b == cur)) [
  | inl same ↦ inl (ground arith)
  | inr other ↦ inr ((b - cur) / 8 - 1, ground arith, ground arith)
]

module _ (old_heap heap : Chunk) (m : Mem) (ns : List ℕ)
    (row : Layout m heap.begin ns heap.current) where
  abbrev go_on : ℕ → ℕ → ℕ → Mem → Outcome Mem
  go_on fuel a cur m' = do
    it ← obj_next_ptr_field_iterator (rounds heap) m' (record { obj_ptr = a; cur_field = cur })
    update_fields old_heap heap fuel m' it

  -- The words that satisfy the test are redirected, all others stay.
  abbrev pub Redirected : Mem → (ℕ → Bool) → Mem → Type 0
  Redirected m1 test m2 =
      (b : ℕ) → m2 b ≡ (if test b then redirect old_heap heap m (m1 b) else m1 b)

  -- The write of the loop's body.
  abbrev redirect_field : Mem → ℕ → Outcome Mem
  redirect_field m1 p =
      if in_old_heap old_heap heap (m1 p)
      then (do new ← new_reference old_heap heap m1 (m1 p); ok (write m1 p new))
      else ok m1

  redirect_field_lem :
      (m1 : Mem) (p : ℕ)
      → Heads old_heap heap m ns m1
      → is_valid_pointer (m1 p) ≡ true
      → Resolves old_heap heap m ns (m1 p)
      → (m2 : Mem) × (redirect_field m1 p ≡ ok m2) × Redirected m1 (λ b. b == p) m2
  redirect_field_lem m1 p heads valid res = elim (Bool-cases (in_old_heap old_heap heap (m1 p))) [
    | inl e ↦
        let live : Live m heap.begin ns (target old_heap heap (m1 p)) = rw (valid, e) at res in
        let new : ℕ = place old_heap heap m (target old_heap heap (m1 p)) + 16 in
        let made : redirect old_heap heap m (m1 p) ≡ new = rw (valid, e) refl in
        (
          write m1 p new,
          rw (e, new_reference_lem old_heap heap m ns m1 (m1 p) row heads live) refl,
          λ b. elim (Bool-cases (b == p)) [
            | inl here ↦ let same : b ≡ p = ground arith in rw (same, ==_refl p) (sym made)
            | inr there ↦ let other : (p == b) ≡ false = ground arith in rw (there, other) refl
          ],
        )
    | inr e ↦
        let kept : redirect old_heap heap m (m1 p) ≡ m1 p = rw (valid, e) refl in
        (
          m1,
          rw e refl,
          λ b. elim (Bool-cases (b == p)) [
            | inl here ↦ let same : b ≡ p = ground arith in rw (same, ==_refl p) (sym kept)
            | inr there ↦ rw there refl
          ],
        )
  ]

  pub kept_odd : (w : ℕ) → is_valid_pointer w ≡ false → redirect old_heap heap m w ≡ w
  kept_odd w e = rw e refl

  -- The words up to the next pointer, and those from there on.
  Redirected-step :
      (m1 m2 m3 : Mem) (end cur next : ℕ)
      → cur < end
      → Redirected m1 (λ b. b == cur) m2
      → NextPointer m2 end cur next
      → Redirected m2 (in_words next end) m3
      → Redirected m1 (in_words cur end) m3
  Redirected-step m1 m2 m3 end cur next h first skip later b =
      elim (Bool-cases (in_words next end b)) [
        | inl e ↦
            let in_it = in_words_later cur next skip.steps end b skip.there e in
            let other : (b == cur) ≡ false = ground (arith, in_it.1) in
            let same : m2 b ≡ m1 b = first b ∙ rw other refl in later b ∙ rw (e, in_it.0, same) refl
        | inr e ↦ elim (Bool-cases (b == cur)) [
          | inl here ↦
              let in_it : in_words cur end b ≡ true = ground arith in
              later b ∙ rw (e, in_it) (first b ∙ rw here refl)
          | inr there ↦
              let same : m2 b ≡ m1 b = first b ∙ rw there refl in
              elim (Bool-cases (in_words cur end b)) [
                | inl k ↦ elim (in_words_skipped cur next skip.steps end b skip.there e k) [
                  | inl here ↦ absurd (ground arith)
                  | inr (i, lt, at) ↦
                      let odd : is_valid_pointer (m1 b) ≡ false =
                        rw (← same, at) (skip.skipped i lt) in
                      later b ∙ rw (e, k, same, kept_odd (m1 b) odd) refl
                ]
                | inr k ↦ later b ∙ rw (e, k, same) refl
              ]
        ]
      ]

  pub Heads-Redirected :
      (m1 m2 : Mem) (test : ℕ → Bool)
      → Redirected m1 test m2
      → ((b : ℕ) → test b ≡ true → OffHeads old_heap heap m ns b)
      → Heads old_heap heap m ns m1
      → Heads old_heap heap m ns m2
  Heads-Redirected m1 m2 test same off heads o live = (
    elim (Bool-cases (test o)) [
      | inl e ↦ absurd ((off o e o live).0 refl)
      | inr e ↦ same o ∙ rw e (heads o live).0
    ],
    elim (Bool-cases (test (o + 8))) [
      | inl e ↦ absurd ((off (o + 8) e o live).1 refl)
      | inr e ↦ same (o + 8) ∙ rw e (heads o live).1
    ],
  )

  update_fields_step :
      (fuel : ℕ) (m1 m2 m' : Mem) (a n cur next : ℕ)
      → obj_size_header_ptr m1 a ≡ ok n
      → leb (a + n) cur ≡ false
      → redirect_field m1 cur ≡ ok m2
      → obj_next_ptr_field_iterator (rounds heap) m2 (record { obj_ptr = a; cur_field = cur })
        ≡ ok (record { obj_ptr = a; cur_field = next })
      → update_fields old_heap heap fuel m2 (record { obj_ptr = a; cur_field = next }) ≡ ok m'
      → update_fields old_heap heap (suc fuel) m1 (record { obj_ptr = a; cur_field = cur }) ≡ ok m'
  unfolding update_fields
  update_fields_step fuel m1 m2 m' a n cur next sized more done further rest =
      rw (done_test m1 a n sized cur, more, done, further) rest

  -- From a place in an object that holds a pointer or lies past its end.
  pub update_fields_lem :
      (fuel : ℕ) (m1 : Mem) (a n cur : ℕ)
      → obj_size_header_ptr m1 a ≡ ok n
      → n < rounds heap
      → a + 16 ≤ cur
      → (0 < fuel) × (a + n < cur + fuel)
      → (a + n ≤ cur) ⊎ (is_valid_pointer (m1 cur) ≡ true)
      → Heads old_heap heap m ns m1
      → ((b : ℕ) → in_words cur (a + n) b ≡ true → OffHeads old_heap heap m ns b)
      → ((b : ℕ) → in_words cur (a + n) b ≡ true → Resolves old_heap heap m ns (m1 b))
      → (m' : Mem) × (update_fields old_heap heap fuel m1 (record { obj_ptr = a; cur_field = cur })
          ≡ ok m')
        × Redirected m1 (in_words cur (a + n)) m'
  unfolding update_fields
  update_fields_lem zero m1 a n cur sized lt from enough stop heads off res = absurd (omega arith)
  update_fields_lem (suc fuel) m1 a n cur sized lt from enough stop heads off res =
      elim (Bool-cases (leb (a + n) cur)) [
        | inl over ↦ (
          m1,
          rw (done_test m1 a n sized cur, over) refl,
          λ b. let outside : in_words cur (a + n) b ≡ false = ground arith in rw outside refl,
        )
        | inr more ↦
            let valid : is_valid_pointer (m1 cur) ≡ true = elim stop [
              | inl past ↦ absurd (ground arith)
              | inr v ↦ v
            ] in
            let here : in_words cur (a + n) cur ≡ true = ground arith in
            let w = redirect_field_lem m1 cur heads valid (res cur here) in
            let slot : (a == cur) ≡ false = ground arith in
            let sized2 : obj_size_header_ptr w.0 a ≡ ok n =
              obj_size_of_header m1 w.0 a (w.2 a ∙ rw slot refl) ∙ sized in
            let heads2 =
              Heads-Redirected m1 w.0 (λ b. b == cur) w.2
                (λ b e. let same : b ≡ cur = ground arith in rw same (off cur here)) heads in
            let inside : cur < a + n = ground arith in
            let r =
              obj_next_ptr_field_iterator_lem w.0 a n sized2 (rounds heap) cur inside
                (omega arith) in
            let later : (b : ℕ)
                → in_words r.0 (a + n) b ≡ true
                → (in_words cur (a + n) b ≡ true) × (b ≢ cur) =
              λ b e. in_words_later cur r.0 r.2.steps (a + n) b r.2.there e in
            let ih =
              update_fields_lem fuel w.0 a n r.0 sized2 lt (omega (arith, r.2.there))
                (omega (arith, r.2.there)) r.2.stopped heads2 (λ b e. off b (later b e).0)
                (λ b e.
                  let other : (b == cur) ≡ false = ground (arith, later b e) in
                  let same : w.0 b ≡ m1 b = w.2 b ∙ rw other refl in
                  rw same (res b (later b e).0)) in
            (
              ih.0,
              update_fields_step fuel m1 w.0 ih.0 a n cur r.0 sized more w.1 r.1 ih.1,
              Redirected-step m1 w.0 ih.0 (a + n) cur r.0 inside w.2 r.2 ih.2,
            )
      ]
