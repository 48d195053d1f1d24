-- ===== src/Runtime/Access/Laws.antt =====
-- Reading what was written.
use lama_rv_workshop.Base.{
  ℕ, ◌+◌, ◌*◌, ◌%◌, ◌^◌, ◌≤◌, ◌<◌, ◌≡◌, refl, ◌≢◌, true, false, arith, ◌==◌, if◌then◌else◌, inl,
  inr, Bool-cases, ap, ◌∙◌, sym,
}
use lama_rv_workshop.Base.Word.{sub_word}
use lama_rv_workshop.Base.Outcome.{ok}
use lama_rv_workshop.Runtime.Value.{is_unboxed, unbox, box, tag_of, string_tag, sexp_tag}
use lama_rv_workshop.Runtime.Access.{tag_at, elem, sta, slot}
use lama_rv_workshop.Gc.State.{Mem, write}
use lama_rv_workshop.Gc.State.Laws.{write_self, write_ne}

-- An object whose contents stand at `p`, and an index: the words in question lie in one mapping,
-- aligned, so no address wraps.
abbrev pub InMapping : ℕ → ℕ → Type 0
InMapping p i = (16 ≤ p) × (p % 8 ≡ 0) × (p + 8 + 8 * i < 2 ^ 63)

unbox_small : (i : ℕ) → i < 2 ^ 60 → unbox (box i) ≡ i
unbox_small i h = ground arith

is_unboxed-box : (i : ℕ) → is_unboxed (box i) ≡ true
is_unboxed-box i = ground arith

is_unboxed-aligned : (p : ℕ) → p % 8 ≡ 0 → is_unboxed p ≡ false
is_unboxed-aligned p h = ground arith

slot-above :
    (t p i : ℕ)
    → InMapping p i
    → (p ≤ slot t p i) × (slot t p i ≡ p + (if t == sexp_tag then 8 else 0) + 8 * i)
slot-above t p i h = elim (Bool-cases (t == sexp_tag)) [
  | inl e ↦ rw e (omega arith, omega arith)
  | inr e ↦ rw e (omega arith, omega arith)
]

pub elem-eq-word :
    (m : Mem) (p i : ℕ)
    → InMapping p i
    → (tag_at m p == string_tag) ≡ false
    → elem m p (box i) ≡ ok (m (slot (tag_at m p) p i))
unfolding elem
elem-eq-word m p i h no_string =
    let e = unbox_small i (omega arith) in
    rw (is_unboxed-box i, is_unboxed-aligned p h.1, no_string, e) refl

module _ (m : Mem) (p i v : ℕ) (h : InMapping p i)
    (no_string : (tag_at m p == string_tag) ≡ false) where
  abbrev stored : Mem
  stored = write m (slot (tag_at m p) p i) v

  tag-stored : tag_at stored p ≡ tag_at m p
  tag-stored = ap tag_of (
      write_ne m (slot (tag_at m p) p i) v (sub_word p 16)
        (omega (arith, slot-above (tag_at m p) p i h)))

  -- Storing an element of an array, a closure or an S-expression at an aligned address below 2 ^
  -- 63 changes that element alone: it reads back as the value, each other one as before, and
  -- memory elsewhere is the same.
  pub elem-sta :
      (m' : Mem) × (sta m p (box i) v ≡ ok (m', v))
      × (elem m' p (box i) ≡ ok v)
      × ((j : ℕ) → InMapping p j → j ≢ i → elem m' p (box j) ≡ elem m p (box j))
      × ((b : ℕ) → b ≢ slot (tag_at m p) p i → m' b ≡ m b)
  unfolding sta
  elem-sta =
      let e = unbox_small i (omega arith) in
      let t = tag-stored in
      let no_string' : (tag_at stored p == string_tag) ≡ false =
        ap (λ k. k == string_tag) t ∙ no_string in
      (
        stored,
        rw (is_unboxed-box i, is_unboxed-aligned p h.1, no_string, e) refl,
        elem-eq-word stored p i h no_string'
            ∙ ap (λ k. ok (stored (slot k p i))) t
            ∙ ap ok (write_self m (slot (tag_at m p) p i) v),
        λ j hj ne.
            elem-eq-word stored p j hj no_string'
            ∙ ap (λ k. ok (stored (slot k p j))) t
            ∙ ap ok (
                write_ne m (slot (tag_at m p) p i) v (slot (tag_at m p) p j)
                  (omega (arith, slot-above (tag_at m p) p i h, slot-above (tag_at m p) p j hj)))
            ∙ sym (elem-eq-word m p j hj no_string),
        λ b ne. write_ne m (slot (tag_at m p) p i) v b ne,
      )
