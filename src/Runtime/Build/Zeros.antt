-- ===== src/Runtime/Build/Zeros.antt =====
-- What `LmakeArray` builds, where the heap has room: an array of zeros.
use lama_rv_workshop.Base.{
  ℕ, zero, suc, ◌+◌, ◌*◌, ◌^◌, ◌≤◌, ◌<◌, ◌≡◌, refl, true, arith, List, [], ◌∷◌, ◌++◌, ap, ◌∙◌, ◌⊎◌,
  inl, Option,
}
use lama_rv_workshop.Base.Outcome.{ok}
use lama_rv_workshop.Runtime.Value.{is_unboxed, unbox, box, tag_of, len_of, array_tag}
use lama_rv_workshop.Gc.State.{Mem, write, State}
use lama_rv_workshop.Gc.State.Laws.{write_self, write_ne}
use lama_rv_workshop.Gc.Object.{array_size}
use lama_rv_workshop.Gc.Object.Laws.{block}
use lama_rv_workshop.Gc.Layout.{Layout, Layout-keep}
use lama_rv_workshop.Gc.Alloc.Laws.{alloc_array-Fresh}
use lama_rv_workshop.Runtime.Build.{fill_zeros, make_array}
use lama_rv_workshop.Runtime.Build.Roots.{Ready, entered, pre_gc-ok, post_gc-ok}

fill_zeros-outside :
    (n : ℕ) (m : Mem) (p b : ℕ) → (b < p) ⊎ (p + 8 * n ≤ b) → fill_zeros n m p b ≡ m b
unfolding fill_zeros
fill_zeros-outside zero m p b h = refl
fill_zeros-outside (suc n) m p b h =
    fill_zeros-outside n (write m p (box 0)) (p + 8) b (omega arith)
    ∙ write_ne m p (box 0) b (omega arith)

fill_zeros-inside : (n : ℕ) (m : Mem) (p i : ℕ) → i < n → fill_zeros n m p (p + 8 * i) ≡ box 0
unfolding fill_zeros
fill_zeros-inside zero m p i h = absurd (omega arith)
fill_zeros-inside (suc n) m p zero h =
    let here : p + 8 * 0 ≡ p = omega arith in
    rw here (
      fill_zeros-outside n (write m p (box 0)) (p + 8) p (inl (omega arith))
      ∙ write_self m p (box 0))
fill_zeros-inside (suc n) m p (suc i) h =
    let there : p + 8 * suc i ≡ p + 8 + 8 * i = omega arith in
    rw there (fill_zeros-inside n (write m p (box 0)) (p + 8) i (omega arith))

-- `s'` is `s` with an array of `n` zeros at the end of its heap.
pub record Zeroed (s : State) (ns : List ℕ) (n : ℕ) (s' : State) : Type 0 where
  pub row : Layout s'.mem s.heap.begin (ns ++ array_size n ∷ []) s'.heap.current
  pub grown : s'.heap ≡ record (s.heap) { current = s.heap.current + block (array_size n) }
  pub tagged : tag_of (s'.mem s.heap.current) ≡ array_tag
  pub sized : len_of (s'.mem s.heap.current) ≡ n
  pub fields : (i : ℕ) → i < n → s'.mem (s.heap.current + 16 + 8 * i) ≡ box 0
  pub below : (b : ℕ) → b < s.heap.current → s'.mem b ≡ s.mem b
  pub roots : s'.roots ≡ s.roots
  pub stack : s'.stack_top ≡ s.stack_top

module _ (frame : ℕ) (mapping : Option ℕ) (n : ℕ) (s : State) (ns : List ℕ) (ready : Ready frame s)
    (l : Layout s.mem s.heap.begin ns s.heap.current) (small : n < 2 ^ 60) where
  -- Where the heap has room and the assertions of PRE_GC hold, LmakeArray returns a new array of
  -- that length at the end of the heap whose elements are all zero, and leaves the memory below,
  -- the extra roots and the top of the stack as they were.
  pub make_array-Zeroed :
      s.heap.current + block (array_size n) ≤ s.heap.end
      → (s' : State) × (make_array frame mapping (box n) s ≡ ok (s', s.heap.current + 16))
        × Zeroed s ns n s'
  unfolding make_array
  make_array-Zeroed room =
      let odd : is_unboxed (box n) ≡ true = ground arith in
      let unboxed : unbox (box n) ≡ n = ground arith in
      let a = alloc_array-Fresh mapping (entered frame s) ns n l small room in
      let f = a.2 in
      let p = s.heap.current in
      let m = fill_zeros n (a.0).mem (p + 16) in
      let left = post_gc-ok frame s (record (a.0) { mem = m }) ready f.stack in
      let low : (b : ℕ) → b < p + 16 → m b ≡ (a.0).mem b =
        λ b h. fill_zeros-outside n (a.0).mem (p + 16) b (inl h) in
      (
        record (a.0) { mem = m; stack_top = s.stack_top },
        rw (odd, unboxed, pre_gc-ok frame s ready, a.1, left) refl,
        record {
          row =
              Layout-keep s.mem (a.0).mem m s.heap.begin ns p (array_size n) (a.0).heap.current l
                (λ b h. low b (omega arith)) f.row;
          grown = f.grown;
          tagged = ap tag_of (low p (omega arith)) ∙ f.tagged;
          sized = ap len_of (low p (omega arith)) ∙ f.sized;
          fields = λ i h. fill_zeros-inside n (a.0).mem (p + 16) i h;
          below = λ b h. low b (omega arith) ∙ f.below b h;
          roots = f.roots;
          stack = refl;
        },
      )
