-- ===== src/Gc/Compact/Preserved.antt =====
-- What a row of objects is after `compact_phase` of runtime/gc.c.
use lama_rv_workshop.Base.{
  ℕ, ◌+◌, ◌-◌, ◌*◌, ◌%◌, ◌^◌, ◌≤◌, ◌<◌, ◌≡◌, refl, Bool, true, false, ◌||◌, arith, List, [], ◌∷◌,
  if◌then◌else◌, inl, inr, Bool-cases, or_false, or_true, ◌∙◌,
}
use lama_rv_workshop.Base.Word.{word_mod}
use lama_rv_workshop.Gc.State.{Mem, Chunk}
use lama_rv_workshop.Gc.Object.{get_mark_bit}
use lama_rv_workshop.Gc.Object.Laws.{block}
use lama_rv_workshop.Gc.Layout.{Layout, marked_at, live_block, Layout-le, block_ge}
use lama_rv_workshop.Gc.Compact.Relocate.{When, Moved, Relocated}
use lama_rv_workshop.Gc.Compact.Redirect.{Live, Live-ge, is_reference, redirect, target}
use lama_rv_workshop.Gc.Compact.Fields.{in_words}
use lama_rv_workshop.Gc.Compact.Objects.{fields_from, is_live_field}
use lama_rv_workshop.Gc.Compact.Twin.{
  new_place, Twin, Twin-Layout, Twin-Live, Twin-is_live_field, is_live_field_below, field_behind,
}
use lama_rv_workshop.Gc.Compact.Copy.{Contents}

module _ (old_heap heap : Chunk) (m : Mem) (ns : List ℕ) where
  -- A reference to a marked object becomes one to its new place, and other words stay.
  abbrev pub follow : ℕ → ℕ
  follow w =
      if is_reference old_heap heap w
      then new_place m old_heap.begin ns heap.begin (w - 16) + 16
      else w

  -- If `w` points into the heap then to a marked object.
  abbrev pub PointsLive : ℕ → Type 0
  PointsLive w = When (is_reference old_heap heap w) (Live m old_heap.begin ns (w - 16))

  -- The word of the object at `a` that is `k` bytes from its header, its reference followed.
  abbrev pub followed : ℕ → ℕ → ℕ → ℕ
  followed a n k =
      if in_words (fields_from m a n) (a + n) (a + k) then follow (m (a + k)) else m (a + k)

  -- The object of `n` bytes that `m` has at `a` stands at `d`: the same header, no mark, and the
  -- same contents, save that fields follow their references. Of a last word that the object does
  -- not fill, its bytes count.
  pub record Survives (m' : Mem) (a n d : ℕ) : Type 0 where
    pub header : m' d ≡ m a
    pub unmarked : get_mark_bit (m' (d + 8)) ≡ false
    pub words : (k : ℕ) → 16 ≤ k → k + 8 ≤ n → m' (d + k) ≡ followed a n k
    pub rest :
        (k : ℕ)
        → 16 ≤ k
        → k % 8 ≡ 0
        → k < n
        → n < k + 8
        → m' (d + k) % 2 ^ (8 * (n % 8)) ≡ followed a n k % 2 ^ (8 * (n % 8))

  -- All marked objects survive, in order, from `free` on.
  abbrev pub Preserved : Mem → ℕ → List ℕ → ℕ → Type 0
  Preserved m' a [] free = Unit
  Preserved m' a (n ∷ ks) free =
      When (marked_at m a) (Survives m' a n free)
      × Preserved m' (a + block n) ks (free + live_block m a n)

  pub redirect-follow :
      (m2 : Mem) (w : ℕ)
      → Twin old_heap heap m m2 old_heap.begin heap.begin ns heap.begin
      → 0 < old_heap.begin
      → PointsLive w
      → redirect old_heap heap m2 w ≡ follow w
  redirect-follow m2 w twin pos points = elim (Bool-cases (is_reference old_heap heap w)) [
    | inl e ↦
        let live : Live m old_heap.begin ns (w - 16) = rw e at points in
        let far = Live-ge m old_heap.begin ns (w - 16) live in
        let there : target old_heap heap w ≡ heap.begin + (w - 16 - old_heap.begin) = omega arith in
        let r =
          Twin-Live old_heap heap m m2 old_heap.begin heap.begin ns heap.begin (w - 16) twin live in
        rw (e, there, r.1) refl
    | inr e ↦ rw e refl
  ]

  -- The steps together: `m2` is the copied heap, `m3` has its references redirected, and in `m4` the
  -- objects are moved.
  module _ (m2 m3 m4 : Mem) (root : ℕ → Bool) (end : ℕ)
      (twin : Twin old_heap heap m m2 old_heap.begin heap.begin ns heap.begin)
      (pos : 0 < old_heap.begin)
      (fixed : (b : ℕ)
        → m3 b ≡ (
            if is_live_field m2 heap.begin ns b || root b
            then redirect old_heap heap m2 (m2 b)
            else m2 b))
      (outside : (b : ℕ) → heap.begin ≤ b → b < end → root b ≡ false) where
    -- A word of an object, once references are redirected.
    fixed_word :
        (a a' n k : ℕ) (ks : List ℕ) (free from : ℕ)
        → Layout m a (n ∷ ks) from
        → Twin old_heap heap m m2 a a' (n ∷ ks) free
        → marked_at m a ≡ true
        → ((b : ℕ) → a' ≤ b → is_live_field m2 heap.begin ns b ≡ is_live_field m2 a' (n ∷ ks) b)
        → (heap.begin ≤ a') × (a' + block n ≤ end)
        → ((b : ℕ) → is_live_field m a (n ∷ ks) b ≡ true → PointsLive (m b))
        → m2 (a' + k) ≡ m (a + k)
        → k < block n
        → m3 (a' + k) ≡ followed a n k
    fixed_word a a' n k ks free from l t e link inside points same lt =
        let none : is_live_field m (a + block n) ks (a + k) ≡ false =
          is_live_field_below m (a + block n) ks from (a + k) l.3 (omega arith) in
        let here : is_live_field m a (n ∷ ks) (a + k)
            ≡ in_words (fields_from m a n) (a + n) (a + k) =
          rw (e, none) (or_false _) in
        let field : is_live_field m2 heap.begin ns (a' + k)
            ≡ in_words (fields_from m a n) (a + n) (a + k) =
          link (a' + k) (omega arith)
          ∙ Twin-is_live_field old_heap heap m m2 a a' (n ∷ ks) free from k t l
          ∙ here in
        let free_root : root (a' + k) ≡ false =
          outside (a' + k) (omega (arith, inside)) (omega (arith, inside)) in
        elim (Bool-cases (in_words (fields_from m a n) (a + n) (a + k))) [
          | inl it ↦
              let points_here = points (a + k) (here ∙ it) in
              fixed (a' + k)
              ∙ rw (field, it, same) (redirect-follow m2 (m (a + k)) twin pos points_here)
          | inr out ↦ fixed (a' + k) ∙ rw (field, out, free_root) same
        ]

    survives :
        (a a' n d : ℕ)
        → m3 a' ≡ m a
        → (16 ≤ n) × (n < word_mod)
        → ((k : ℕ) → 16 ≤ k → k + 8 ≤ block n → m3 (a' + k) ≡ followed a n k)
        → Moved m3 m4 a' n d
        → Survives m4 a n d
    survives a a' n d head size word moved = record {
      header = moved.header ∙ head;
      unmarked = rw moved.unmarked (ground arith);
      words = λ k h i. moved.words k h i ∙ word k h (omega (arith, block_ge n size.0 size.1));
      rest = λ k h e i j. moved.rest k h i j ∙ rw (word k h (omega arith)) refl;
    }

    pub assemble :
        (a a' : ℕ) (ks : List ℕ) (free from : ℕ)
        → Layout m a ks from
        → Twin old_heap heap m m2 a a' ks free
        → Twin old_heap heap m m3 a a' ks free
        → Contents m m2 a a' ks
        → Relocated m3 m4 a' ks free
        → ((b : ℕ) → a' ≤ b → is_live_field m2 heap.begin ns b ≡ is_live_field m2 a' ks b)
        → (heap.begin ≤ a') × (a' + (from - a) ≤ end)
        → ((b : ℕ) → is_live_field m a ks b ≡ true → PointsLive (m b))
        → Preserved m4 a ks free
    assemble a a' [] free from l t t3 c r link inside points = tt
    assemble a a' (n ∷ ks) free from l t t3 c r link inside points =
        let le = Layout-le m (a + block n) ks from l.3 in
        let sizes = block_ge n l.1 l.2 in
        let moved : When (marked_at m a) (Moved m3 m4 a' n free) = rw t3.1 at r.0 in
        let rest : Relocated m3 m4 (a' + block n) ks (free + live_block m a n) = rw t3.1 at r.1 in
        let l' = Twin-Layout old_heap heap m m2 (a + block n) (a' + block n) ks _ from t.4 l.3 in
        (
          elim (Bool-cases (marked_at m a)) [
            | inl e ↦
                let word : (k : ℕ) → 16 ≤ k → k + 8 ≤ block n → m3 (a' + k) ≡ followed a n k =
                  λ k h i.
                    fixed_word a a' n k ks free from l t e link (inside.0, omega (arith, inside))
                      points (c.0 k h i) (omega arith) in
                rw e (survives a a' n free t3.0 (l.1, l.2) word (rw e at moved))
            | inr e ↦ rw e tt
          ],
          assemble (a + block n) (a' + block n) ks (free + live_block m a n) from l.3 t.4 t3.4 c.1
              rest (λ b h. link b (omega arith) ∙ field_behind m2 a' n ks b sizes.1 h)
              (omega (arith, inside), omega (arith, inside)) (λ b h. points b (rw h (or_true _))),
        )
