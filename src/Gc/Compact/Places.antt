-- ===== src/Gc/Compact/Places.antt =====
-- Bounds on fields and places, for `compact_phase` of runtime/gc.c.
use lama_rv_workshop.Base.{
  ℕ, ◌+◌, ◌-◌, ◌%◌, ◌≤◌, ◌<◌, ◌≡◌, refl, ◌⊎◌, true, false, ◌&&◌, ◌==◌, leb, arith, List, [], ◌∷◌,
  inl, inr, Bool-cases, and_or_true,
}
use lama_rv_workshop.Base.Word.{word_mod}
use lama_rv_workshop.Runtime.Value.{tag_of, string_tag, array_tag}
use lama_rv_workshop.Gc.State.{Mem, Chunk}
use lama_rv_workshop.Gc.Layout.{Layout, marked_at, live_bytes, Layout-le, block_ge}
use lama_rv_workshop.Gc.Compact.Locations.{OffSlots, OffSlots-below}
use lama_rv_workshop.Gc.Compact.Relocate.{place, Placed}
use lama_rv_workshop.Gc.Compact.Redirect.{Live}
use lama_rv_workshop.Gc.Compact.Objects.{fields_from, is_live_field, is_live_field_ge}
use lama_rv_workshop.Gc.Compact.Fields.{in_words}
use lama_rv_workshop.Gc.Object.Laws.{block}

words_fit :
    (a n b s : ℕ)
    → s % 8 ≡ 0
    → 16 ≤ s
    → n < word_mod
    → in_words (a + s) (a + n) b ≡ true
    → (b + 8 ≤ a + block n) × (a + 16 ≤ b)
words_fit a n b s even big small e =
    let lo : a + s ≤ b = ground arith in
    let hi : b < a + n = ground arith in
    let step : (b - (a + s)) % 8 ≡ 0 = ground arith in omega arith

-- A field does not pass the end of its object's words.
field_fits :
    (m : Mem) (a n b : ℕ)
    → 16 ≤ n
    → n < word_mod
    → in_words (fields_from m a n) (a + n) b ≡ true
    → (b + 8 ≤ a + block n) × (a + 16 ≤ b)
field_fits m a n b big small e = elim (Bool-cases (tag_of (m a) == string_tag)) [
  | inl f ↦ let none : in_words (a + n) (a + n) b ≡ true = rw f at e in absurd (ground arith)
  | inr f ↦ elim (Bool-cases (tag_of (m a) == array_tag)) [
    | inl g ↦
        let it : in_words (a + 16) (a + n) b ≡ true = rw (f, g) at e in
        words_fit a n b 16 refl (omega arith) small it
    | inr g ↦
        let it : in_words (a + 16 + 8) (a + n) b ≡ true = rw (f, g) at e in
        let sum : a + 16 + 8 ≡ a + 24 = omega arith in
        words_fit a n b 24 refl (omega arith) small (rw sum at it)
  ]
]

-- The forward addresses lie inside the row, and the fields are none of them.
pub OffSlots-outside :
    (m : Mem) (a : ℕ) (ns : List ℕ) (end b : ℕ)
    → Layout m a ns end
    → (b < a) ⊎ (end ≤ b)
    → OffSlots a ns b
OffSlots-outside m a [] end b l h = tt
OffSlots-outside m a (n ∷ ns) end b l h =
    let le = Layout-le m (a + block n) ns end l.3 in
    let size = block_ge n l.1 l.2 in
    (
      λ e. elim h [ inl lo ↦ omega arith | inr hi ↦ omega arith ],
      OffSlots-outside m (a + block n) ns end b l.3
          (elim h [ inl lo ↦ inl (omega arith) | inr hi ↦ inr hi ]),
    )

pub field_word :
    (m : Mem) (a : ℕ) (ns : List ℕ) (end b : ℕ)
    → Layout m a ns end
    → is_live_field m a ns b ≡ true
    → OffSlots a ns b × (b + 8 ≤ end)
field_word m a [] end b l e = absurd (ground arith)
field_word m a (n ∷ ns) end b l e =
    let le = Layout-le m (a + block n) ns end l.3 in
    let size = block_ge n l.1 l.2 in
    let lo = is_live_field_ge m a (n ∷ ns) end b l e in
    elim (Bool-cases (is_live_field m (a + block n) ns b)) [
      | inl later ↦
          let r = field_word m (a + block n) ns end b l.3 later in ((λ at. omega arith, r.0), r.1)
      | inr now ↦
          let it = and_or_true (marked_at m a) _ _ e now in
          let fits = field_fits m a n b l.1 l.2 it.1 in
          ((λ at. omega arith, OffSlots-below (a + block n) ns b (omega arith)), omega arith)
    ]

pub Placed-Live :
    (old heap : Chunk) (m : Mem) (a : ℕ) (ns : List ℕ) (free o : ℕ)
    → Placed old heap m a ns free
    → Live m a ns o
    → (free ≤ place old heap m o) × (place old heap m o ≤ o)
Placed-Live old heap m a [] free o p l = elim l [ ]
Placed-Live old heap m a (n ∷ ns) free o p (inl (e, marked)) =
    let here : place old heap m a ≡ free = rw marked at p.0 in rw (e, here) (omega arith, p.1)
Placed-Live old heap m a (n ∷ ns) free o p (inr l) =
    let r = Placed-Live old heap m (a + block n) ns _ o p.2 l in (omega (arith, r.0), r.1)

pub live_bytes-le :
    (m : Mem) (a : ℕ) (ns : List ℕ) (end : ℕ) → Layout m a ns end → a + live_bytes m a ns ≤ end
live_bytes-le m a [] end l = omega arith
live_bytes-le m a (n ∷ ns) end l = ground (arith, live_bytes-le m (a + block n) ns end l.3)

pub not_inside :
    (m : Mem) (a : ℕ) (ns : List ℕ) (end b : ℕ)
    → Layout m a ns end
    → (b < a) ⊎ (end ≤ b)
    → is_live_field m a ns b ≡ false
not_inside m a ns end b l h = elim (Bool-cases (is_live_field m a ns b)) [
  | inl e ↦
      let r = is_live_field_ge m a ns end b l e in
      elim h [ inl lo ↦ absurd (omega arith) | inr hi ↦ absurd (omega arith) ]
  | inr e ↦ e
]

pub not_between : (lo hi p : ℕ) → (p < lo) ⊎ (hi < p) → (leb lo p && leb p hi) ≡ false
not_between lo hi p h = ground arith
