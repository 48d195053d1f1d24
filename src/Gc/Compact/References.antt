-- ===== src/Gc/Compact/References.antt =====
-- What `update_references` of runtime/gc.c does to memory.
use lama_rv_workshop.Base.{
  ℕ, zero, suc, ◌+◌, ◌≤◌, ◌<◌, ◌≡◌, refl, ◌⊎◌, Bool, true, false, not, ◌&&◌, ◌||◌, ◌==◌, arith,
  List, [], ◌∷◌, if◌then◌else◌, inl, inr, Bool-cases, ==_refl, and_false, or_true, or_false,
  or_assoc, or_assoc3, true-false, sym, ◌∙◌,
}
use mathlib.Core.List.{reverse}
use lama_rv_workshop.Base.Outcome.{ok}
use lama_rv_workshop.Gc.State.{Mem, write, Chunk, State}
use lama_rv_workshop.Gc.Object.{heap_begin_iterator}
use lama_rv_workshop.Gc.Layout.{Layout, Layout-le}
use lama_rv_workshop.Gc.Mark.{rounds, words_between}
use lama_rv_workshop.Gc.Compact.{
  in_old_heap, fix_word, fix_words, scan_and_fix_region, scan_and_fix_region_roots, fixed_before,
  update_references,
}
use lama_rv_workshop.Gc.Compact.Relocate.{place}
use lama_rv_workshop.Gc.Compact.Redirect.{
  Live, Live-ge, Live-sized, target, is_reference, redirect, Resolves, Heads, OffHeads, Heads-write,
  new_reference_lem,
}
use lama_rv_workshop.Gc.Compact.Objects.{is_live_field}
use lama_rv_workshop.Gc.Compact.Row.{update_row, Live-field_off}
use lama_rv_workshop.Gc.Compact.Fields.{Heads-Redirected}

-- The words of a region that `scan_and_fix_region` visits.
abbrev pub in_region : ℕ → ℕ → ℕ → Bool
in_region zero start b = false
in_region (suc left) start b = (b == start) || in_region left (start + 8) b

module _ (old_heap heap : Chunk) where
  -- The extra roots that lie neither on the stack nor among the globals.
  abbrev pub in_roots : State → List ℕ → ℕ → Bool
  in_roots s [] b = false
  in_roots s (root ∷ roots) b =
      (not (fixed_before old_heap heap s root) && (b == root)) || in_roots s roots b

  abbrev pub on_stack : State → ℕ → Bool
  on_stack s b =
      in_region (words_between (s.stack_top + 8) (s.stack_bottom + 8)) (s.stack_top + 8) b

  abbrev pub in_globals : State → ℕ → Bool
  in_globals s b = in_region (words_between s.globals_start s.globals_stop) s.globals_start b

  -- A word outside the heap that is redirected.
  abbrev pub is_root : State → ℕ → Bool
  is_root s b = (on_stack s b || in_roots s (reverse s.roots) b) || in_globals s b

  -- A field of a marked object, or a root.
  abbrev pub is_updated : Mem → List ℕ → State → ℕ → Bool
  is_updated m ns s b = is_live_field m heap.begin ns b || is_root s b

module _ (old_heap heap : Chunk) (m : Mem) (ns : List ℕ)
    (row : Layout m heap.begin ns heap.current) where
  -- The words that satisfy the test are redirected, once, and all others are those of `m`.
  abbrev pub Fixed : (ℕ → Bool) → Mem → Type 0
  Fixed test m' = (b : ℕ) → m' b ≡ (if test b then redirect old_heap heap m (m b) else m b)

  -- No new place lies in the old heap.
  abbrev pub Apart : Type 0
  Apart =
      (o : ℕ)
      → Live m heap.begin ns o
      → in_old_heap old_heap heap (place old_heap heap m o + 16) ≡ false

  redirect_twice :
      (w : ℕ)
      → Apart
      → Resolves old_heap heap m ns w
      → is_reference old_heap heap (redirect old_heap heap m w) ≡ false
  redirect_twice w apart res = elim (Bool-cases (is_reference old_heap heap w)) [
    | inl e ↦
        let live : Live m heap.begin ns (target old_heap heap w) = rw e at res in
        rw (e, apart _ live) (and_false _)
    | inr e ↦ rw (e, e) refl
  ]

  fix_word_lem :
      (test : ℕ → Bool) (m1 : Mem) (p : ℕ)
      → Apart
      → Heads old_heap heap m ns m1
      → OffHeads old_heap heap m ns p
      → Resolves old_heap heap m ns (m p)
      → Fixed test m1
      → (m2 : Mem) × (fix_word old_heap heap m1 p ≡ ok m2)
        × Heads old_heap heap m ns m2
        × Fixed (λ b. test b || (b == p)) m2
  unfolding fix_word
  fix_word_lem test m1 p apart heads off res fixed =
      elim (Bool-cases (is_reference old_heap heap (m1 p))) [
        | inl e ↦
            let fresh : test p ≡ false = untouched e in
            let same : m1 p ≡ m p = fixed p ∙ rw fresh refl in
            let ref : is_reference old_heap heap (m p) ≡ true = rw (← same) e in
            let live : Live m heap.begin ns (target old_heap heap (m p)) = rw ref at res in
            let new : ℕ = place old_heap heap m (target old_heap heap (m p)) + 16 in
            let made = new_reference_lem old_heap heap m ns m1 (m p) row heads live in
            (
              write m1 p new,
              rw (same, ref, made) refl,
              Heads-write old_heap heap m ns m1 p new off heads,
              λ b. elim (Bool-cases (b == p)) [
                | inl here ↦
                    let at : b ≡ p = ground arith in rw (at, ==_refl p, or_true (test p), ref) refl
                | inr there ↦
                    let other : (p == b) ≡ false = ground arith in
                    rw (there, other, or_false (test b)) (fixed b)
              ],
            )
        | inr e ↦ (
          m1,
          rw e refl,
          heads,
          λ b. elim (Bool-cases (b == p)) [
            | inl here ↦
                let at : b ≡ p = ground arith in rw (at, ==_refl p, or_true (test p)) (idle e)
            | inr there ↦ rw (there, or_false (test b)) (fixed b)
          ],
        )
      ]
    where
      untouched : is_reference old_heap heap (m1 p) ≡ true → test p ≡ false
      untouched e = elim (Bool-cases (test p)) [
        | inl t ↦
            let done : m1 p ≡ redirect old_heap heap m (m p) = fixed p ∙ rw t refl in
            let no = redirect_twice (m p) apart res in
            let yes = rw done at e in absurd (true-false _ yes no)
        | inr t ↦ t
      ]

      idle : is_reference old_heap heap (m1 p) ≡ false → m1 p ≡ redirect old_heap heap m (m p)
      idle e = elim (Bool-cases (test p)) [
        | inl t ↦ fixed p ∙ rw t refl
        | inr t ↦
            let same : m1 p ≡ m p = fixed p ∙ rw t refl in
            let no : is_reference old_heap heap (m p) ≡ false = rw (← same) e in same ∙ rw no refl
      ]

  -- What is asked of a word that is fixed.
  abbrev Fixable : ℕ → Type 0
  Fixable b = OffHeads old_heap heap m ns b × Resolves old_heap heap m ns (m b)

  off_outside : (b : ℕ) → (b < heap.begin) ⊎ (heap.current ≤ b) → OffHeads old_heap heap m ns b
  off_outside b h o live =
      let sized = Live-sized m heap.begin ns heap.current o row live in
      let lo = Live-ge m heap.begin ns o live in
      elim h [
        | inl before ↦ (λ e. omega arith, λ e. omega arith)
        | inr behind ↦ (λ e. omega (arith, sized.2), λ e. omega (arith, sized.2))
      ]

  abbrev Stage : (ℕ → Bool) → Mem → Type 0
  Stage test m1 = Heads old_heap heap m ns m1 × Fixed test m1

  Fixed-eq : (p q : ℕ → Bool) (m1 : Mem) → ((b : ℕ) → p b ≡ q b) → Fixed p m1 → Fixed q m1
  Fixed-eq p q m1 same fixed b = rw (← same b) (fixed b)

  module _ (apart : Apart) where
    fix_words_lem :
        (left p : ℕ) (test : ℕ → Bool) (m1 : Mem)
        → ((b : ℕ) → in_region left p b ≡ true → Fixable b)
        → Stage test m1
        → (m2 : Mem) × (fix_words old_heap heap left p m1 ≡ ok m2)
          × Stage (λ b. test b || in_region left p b) m2
    unfolding fix_words
    fix_words_lem zero p test m1 good stage =
        (m1, refl, (stage.0, Fixed-eq test _ m1 (λ b. sym (or_false (test b))) stage.1))
    fix_words_lem (suc left) p test m1 good stage =
        let here = good p (rw (==_refl p) refl) in
        let w = fix_word_lem test m1 p apart stage.0 here.0 here.1 stage.1 in
        let r =
          fix_words_lem left (p + 8) (λ b. test b || (b == p)) w.0
            (λ b h. good b (rw h (or_true (b == p)))) (w.2, w.3) in
        (
          r.0,
          rw w.1 r.1,
          (
            r.2.0,
            Fixed-eq _ _ r.0 (λ b. or_assoc (test b) (b == p) (in_region left (p + 8) b)) r.2.1,
          ),
        )

    fix_roots_lem :
        (s : State) (roots : List ℕ) (test : ℕ → Bool) (m1 : Mem)
        → ((b : ℕ) → in_roots old_heap heap s roots b ≡ true → Fixable b)
        → Stage test m1
        → (m2 : Mem) × (scan_and_fix_region_roots old_heap heap s roots m1 ≡ ok m2)
          × Stage (λ b. test b || in_roots old_heap heap s roots b) m2
    unfolding scan_and_fix_region_roots
    fix_roots_lem s [] test m1 good stage =
        (m1, refl, (stage.0, Fixed-eq test _ m1 (λ b. sym (or_false (test b))) stage.1))
    fix_roots_lem s (root ∷ roots) test m1 good stage =
        elim (Bool-cases (fixed_before old_heap heap s root)) [
          | inl e ↦
              let r = fix_roots_lem s roots test m1 (λ b h. good b (rw (e, h) refl)) stage in
              (r.0, rw e r.1, (r.2.0, rw e r.2.1))
          | inr e ↦
              let here = good root (rw (e, ==_refl root) refl) in
              let w = fix_word_lem test m1 root apart stage.0 here.0 here.1 stage.1 in
              let r =
                fix_roots_lem s roots (λ b. test b || (b == root)) w.0
                  (λ b h. good b (rw (e, h) (or_true (b == root)))) (w.2, w.3) in
              (
                r.0,
                rw (e, w.1) r.1,
                (
                  r.2.0,
                  rw e (
                      Fixed-eq _ _ r.0
                        (λ b. or_assoc (test b) (b == root) (in_roots old_heap heap s roots b))
                        r.2.1),
                ),
              )
        ]

    -- Where the new places lie outside the old heap, the roots outside the heap, and all
    -- references from a root or a field of a marked object lead to marked objects,
    -- update_references ends, and has redirected, once, the references among these words, to the
    -- places of the objects that they led to. No other word has changed.
    pub update_references_lem :
        (s : State)
        → ((b : ℕ) → is_root old_heap heap s b ≡ true → (b < heap.begin) ⊎ (heap.current ≤ b))
        → ((b : ℕ) → is_updated old_heap heap m ns s b ≡ true → Resolves old_heap heap m ns (m b))
        → (m' : Mem) × (update_references old_heap heap s m ≡ ok m')
          × Fixed (is_updated old_heap heap m ns s) m'
    unfolding update_references scan_and_fix_region heap_begin_iterator
    update_references_lem s outside res =
        let le = Layout-le m heap.begin ns heap.current row in
        let field : ℕ → Bool = is_live_field m heap.begin ns in
        let m1 =
          update_row old_heap heap m ns row (rounds heap) m heap.begin ns row (omega arith)
            (omega arith) (λ b h. refl) (λ o live. (refl, refl))
            (λ b h o. Live-field_off m heap.begin ns heap.current b o row h)
            (λ b h. res b (rw h refl)) in
        let heads1 =
          Heads-Redirected old_heap heap m ns row m m1.0 field m1.2
            (λ b h o. Live-field_off m heap.begin ns heap.current b o row h)
            (λ o live. (refl, refl)) in
        let m2 =
          fix_words_lem _ (s.stack_top + 8) field m1.0 (λ b h. good b (rw h refl)) (heads1, m1.2) in
        let m3 =
          fix_roots_lem s (reverse s.roots) _ m2.0
            (λ b h. good b (rw (h, or_true (on_stack old_heap heap s b)) refl)) m2.2 in
        let m4 = fix_words_lem _ s.globals_start _ m3.0 (λ b h. good b (rw h (or_true _))) m3.2 in
        (
          m4.0,
          rw (m1.1, m2.1, m3.1) m4.1,
          Fixed-eq _ (is_updated old_heap heap m ns s) m4.0
              (λ b.
                or_assoc3 (field b) (on_stack old_heap heap s b)
                  (in_roots old_heap heap s (reverse s.roots) b) (in_globals old_heap heap s b))
              m4.2.1,
        )
      where
        good : (b : ℕ) → is_root old_heap heap s b ≡ true → Fixable b
        good b h = (off_outside b (outside b h), res b (rw h (or_true _)))
