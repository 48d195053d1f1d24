-- ===== src/Gc/Compact/Twin.antt =====
-- A row of objects and its copy in the new mapping, between the steps of `compact_phase`.
use lama_rv_workshop.Base.{
  ℕ, ◌+◌, ◌-◌, ◌≤◌, ◌<◌, ◌≡◌, refl, false, ◌==◌, leb, ltb, arith, List, [], ◌∷◌, if◌then◌else◌, inl,
  inr, Bool-cases, and_false, ==_refl, ◌∙◌,
}
use lama_rv_workshop.Runtime.Value.{tag_of, string_tag, array_tag}
use lama_rv_workshop.Gc.State.{Mem, Chunk}
use lama_rv_workshop.Gc.Object.Laws.{block, header_of_size}
use lama_rv_workshop.Gc.Layout.{Layout, marked_at, live_block, live_bytes, Layout-le}
use lama_rv_workshop.Gc.Compact.Relocate.{When, place, Placed, live_sizes}
use lama_rv_workshop.Gc.Compact.Redirect.{Live, Live-ge}
use lama_rv_workshop.Gc.Compact.Objects.{fields_from, is_live_field, is_live_field_ge}
use lama_rv_workshop.Gc.Compact.Row.{out_of_words}
use lama_rv_workshop.Gc.Compact.Fields.{in_words}

-- Where the object at `o` goes if the marked objects from `a` on go to `free` and behind it.
abbrev pub new_place : Mem → ℕ → List ℕ → ℕ → ℕ → ℕ
new_place m a [] free o = free
new_place m a (n ∷ ns) free o =
    let rest = new_place m (a + block n) ns (free + live_block m a n) o in
    if o == a then free else rest

-- How far from a header of type `t` the fields are.
abbrev offset : ℕ → ℕ → ℕ
offset t n = if t == string_tag then n else if t == array_tag then 16 else 16 + 8

fields_offset : (m : Mem) (a n : ℕ) → fields_from m a n ≡ a + offset (tag_of (m a)) n
fields_offset m a n = elim (Bool-cases (tag_of (m a) == string_tag)) [
  | inl e ↦ rw e refl
  | inr e ↦ elim (Bool-cases (tag_of (m a) == array_tag)) [
    | inl f ↦ rw (e, f) refl
    | inr f ↦ rw (e, f) (omega arith)
  ]
]

in_words_plus : (a s n k : ℕ) → in_words (a + s) (a + n) (a + k) ≡ in_words s n k
in_words_plus a s n k =
    let lo : leb (a + s) (a + k) ≡ leb s k = ground arith in
    let hi : ltb (a + k) (a + n) ≡ ltb k n = ground arith in
    let gap : a + k - (a + s) ≡ k - s = omega arith in rw (lo, hi, gap) refl

in_words_shift :
    (m m' : Mem) (a a' n k : ℕ)
    → m' a' ≡ m a
    → in_words (fields_from m' a' n) (a' + n) (a' + k)
      ≡ in_words (fields_from m a n) (a + n) (a + k)
in_words_shift m m' a a' n k e =
    rw
      (fields_offset m a n, fields_offset m' a' n, e, in_words_plus a _ n k, in_words_plus a' _ n k)
      refl

pub is_live_field_below :
    (m : Mem) (a : ℕ) (ns : List ℕ) (end b : ℕ)
    → Layout m a ns end
    → b < a
    → is_live_field m a ns b ≡ false
is_live_field_below m a ns end b l h = elim (Bool-cases (is_live_field m a ns b)) [
  | inl e ↦ absurd (omega (arith, is_live_field_ge m a ns end b l e))
  | inr e ↦ e
]

pub field_behind :
    (m : Mem) (a n : ℕ) (ks : List ℕ) (b : ℕ)
    → n ≤ block n
    → a + block n ≤ b
    → is_live_field m a (n ∷ ks) b ≡ is_live_field m (a + block n) ks b
field_behind m a n ks b le h =
    let out = out_of_words (fields_from m a n) (a + n) b (inr (omega arith)) in
    rw (out, and_false (marked_at m a)) refl

module _ (old_heap heap : Chunk) (m m' : Mem) where
  -- The objects of `m` at `a` stand in `m'` at `a'`, each marked one with its new place.
  abbrev pub Twin : ℕ → ℕ → List ℕ → ℕ → Type 0
  Twin a a' [] free = Unit
  Twin a a' (n ∷ ns) free =
      (m' a' ≡ m a)
      × (marked_at m' a' ≡ marked_at m a)
      × When (marked_at m a) (place old_heap heap m' a' ≡ free)
      × (free ≤ a')
      × Twin (a + block n) (a' + block n) ns (free + live_block m a n)

  pub Twin-Layout :
      (a a' : ℕ) (ns : List ℕ) (free end : ℕ)
      → Twin a a' ns free
      → Layout m a ns end
      → Layout m' a' ns (a' + (end - a))
  Twin-Layout a a' [] free end t l = omega arith
  Twin-Layout a a' (n ∷ ns) free end t l =
      let le = Layout-le m (a + block n) ns end l.3 in
      let r = Twin-Layout (a + block n) (a' + block n) ns _ end t.4 l.3 in
      let same : a' + block n + (end - (a + block n)) ≡ a' + (end - a) = omega arith in
      (header_of_size m m' a a' t.0 ∙ l.0, l.1, l.2, rw (← same) r)

  pub Twin-Placed :
      (a a' : ℕ) (ns : List ℕ) (free : ℕ) → Twin a a' ns free → Placed old_heap heap m' a' ns free
  Twin-Placed a a' [] free t = tt
  Twin-Placed a a' (n ∷ ns) free t =
      rw t.1 (t.2, t.3, Twin-Placed (a + block n) (a' + block n) ns _ t.4)

  pub Twin-live_bytes :
      (a a' : ℕ) (ns : List ℕ) (free : ℕ)
      → Twin a a' ns free
      → live_bytes m' a' ns ≡ live_bytes m a ns
  Twin-live_bytes a a' [] free t = refl
  Twin-live_bytes a a' (n ∷ ns) free t =
      rw (t.1, Twin-live_bytes (a + block n) (a' + block n) ns _ t.4) refl

  pub Twin-live_sizes :
      (a a' : ℕ) (ns : List ℕ) (free : ℕ)
      → Twin a a' ns free
      → live_sizes m' a' ns ≡ live_sizes m a ns
  Twin-live_sizes a a' [] free t = refl
  Twin-live_sizes a a' (n ∷ ns) free t =
      rw (t.1, Twin-live_sizes (a + block n) (a' + block n) ns _ t.4) refl

  -- A marked object stands in the copy, with its new place.
  pub Twin-Live :
      (a a' : ℕ) (ns : List ℕ) (free o : ℕ)
      → Twin a a' ns free
      → Live m a ns o
      → Live m' a' ns (a' + (o - a))
        × (place old_heap heap m' (a' + (o - a)) ≡ new_place m a ns free o)
  Twin-Live a a' [] free o t l = elim l [ ]
  Twin-Live a a' (n ∷ ns) free o t (inl (e, marked)) =
      let same : a' + (o - a) ≡ a' = omega arith in
      (inl (same, t.1 ∙ marked), rw (same, e, ==_refl a) (rw marked at t.2))
  Twin-Live a a' (n ∷ ns) free o t (inr l) =
      let far = Live-ge m (a + block n) ns o l in
      let r = Twin-Live (a + block n) (a' + block n) ns _ o t.4 l in
      let same : a' + block n + (o - (a + block n)) ≡ a' + (o - a) = omega arith in
      let other : (o == a) ≡ false = ground arith in (inr (rw (← same) r.0), rw (← same, other) r.1)

  pub Twin-is_live_field :
      (a a' : ℕ) (ns : List ℕ) (free end k : ℕ)
      → Twin a a' ns free
      → Layout m a ns end
      → is_live_field m' a' ns (a' + k) ≡ is_live_field m a ns (a + k)
  Twin-is_live_field a a' [] free end k t l = refl
  Twin-is_live_field a a' (n ∷ ns) free end k t l =
      let shift = in_words_shift m m' a a' n k t.0 in
      elim (Bool-cases (leb (block n) k)) [
        | inl later ↦
            let r =
              Twin-is_live_field (a + block n) (a' + block n) ns _ end (k - block n) t.4 l.3 in
            let e : a + block n + (k - block n) ≡ a + k = ground arith in
            let e' : a' + block n + (k - block n) ≡ a' + k = ground arith in
            let r2 : is_live_field m' (a' + block n) ns (a' + k)
                ≡ is_live_field m (a + block n) ns (a + k) =
              rw (← e, ← e') r in
            rw (t.1, shift, r2) refl
        | inr now ↦
            let l' = Twin-Layout (a + block n) (a' + block n) ns _ end t.4 l.3 in
            let none : is_live_field m (a + block n) ns (a + k) ≡ false =
              is_live_field_below m (a + block n) ns end (a + k) l.3 (ground arith) in
            let none' : is_live_field m' (a' + block n) ns (a' + k) ≡ false =
              is_live_field_below m' (a' + block n) ns _ (a' + k) l' (ground arith) in
            rw (t.1, shift, none, none') refl
      ]
