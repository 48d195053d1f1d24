-- ===== src/Runtime/Build/Laws.antt =====
-- What `Barray` builds, where the heap has room: the array of its arguments.
use mathlib.Core.List.{reverse_aux}
use lama_rv_workshop.Base.{
  ℕ, zero, suc, ◌+◌, ◌*◌, ◌^◌, ◌≤◌, ◌<◌, ◌≡◌, refl, arith, List, [], ◌∷◌, ◌++◌, length, ap, ◌∙◌,
  ◌⊎◌, inl, inr, Option,
}
use lama_rv_workshop.Base.Outcome.{ok, exited}
use lama_rv_workshop.Runtime.Value.{unbox, box, tag_of, len_of, array_tag}
use lama_rv_workshop.Gc.State.{Mem, write, State}
use lama_rv_workshop.Gc.State.Laws.{write_self, write_ne}
use lama_rv_workshop.Gc.Object.{array_size}
use lama_rv_workshop.Gc.Object.Laws.{block}
use lama_rv_workshop.Gc.Layout.{Layout, Layout-keep}
use lama_rv_workshop.Gc.Alloc.Laws.{Fresh, alloc_array-Fresh}
use lama_rv_workshop.Runtime.Build.{addresses, count, copy_words, barray}
use lama_rv_workshop.Runtime.Build.Roots.{
  Ready, entered, pre_gc-ok, post_gc-ok, push_addresses, push_addresses-exited, pop_all-ok,
}

-- Two blocks of `n` words that do not overlap.
abbrev pub Apart : ℕ → ℕ → ℕ → Type 0
Apart to from n = (from + 8 * n ≤ to) ⊎ (to + 8 * n ≤ from)

-- `copy_words` writes nothing outside its block.
pub copy_words-outside :
    (n : ℕ) (m : Mem) (to from b : ℕ) → (b < to) ⊎ (to + 8 * n ≤ b) → copy_words n m to from b ≡ m b
unfolding copy_words
copy_words-outside zero m to from b h = refl
copy_words-outside (suc n) m to from b h =
    copy_words-outside n (write m to (m from)) (to + 8) (from + 8) b (omega arith)
    ∙ write_ne m to (m from) b (omega arith)

-- The words copied are those that stood there before.
pub copy_words-inside :
    (n : ℕ) (m : Mem) (to from i : ℕ)
    → Apart to from n
    → i < n
    → copy_words n m to from (to + 8 * i) ≡ m (from + 8 * i)
unfolding copy_words
copy_words-inside zero m to from i h k = absurd (omega arith)
copy_words-inside (suc n) m to from zero h k =
    let to' : to + 8 * 0 ≡ to = omega arith in
    let from' : from + 8 * 0 ≡ from = omega arith in
    rw (to', from')
      (copy_words-outside n (write m to (m from)) (to + 8) (from + 8) to (omega arith)
        ∙ write_self m to (m from))
copy_words-inside (suc n) m to from (suc i) h k =
    let to' : to + 8 * suc i ≡ to + 8 + 8 * i = omega arith in
    let from' : from + 8 * suc i ≡ from + 8 + 8 * i = omega arith in
    rw (to', from')
      (copy_words-inside n (write m to (m from)) (to + 8) (from + 8) i (omega arith) (omega arith)
        ∙ write_ne m to (m from) (from + 8 + 8 * i) (omega arith))

-- `s'` is `s` with a new object at the end of its heap, of the given size, tag and length, whose
-- fields from the offset `at` on are the words from `args` on.
pub record Built (s : State) (ns : List ℕ) (size tag len at args n : ℕ) (s' : State) : Type 0 where
  pub row : Layout s'.mem s.heap.begin (ns ++ size ∷ []) s'.heap.current
  pub grown : s'.heap ≡ record (s.heap) { current = s.heap.current + block size }
  pub tagged : tag_of (s'.mem s.heap.current) ≡ tag
  pub sized : len_of (s'.mem s.heap.current) ≡ len
  pub fields : (i : ℕ) → i < n → s'.mem (s.heap.current + at + 8 * i) ≡ s.mem (args + 8 * i)
  pub below : (b : ℕ) → b < s.heap.current → s'.mem b ≡ s.mem b
  pub roots : s'.roots ≡ s.roots
  pub stack : s'.stack_top ≡ s.stack_top

module _ (frame : ℕ) (mapping : Option ℕ) (args n : ℕ) (s : State) (ns : List ℕ)
    (ready : Ready frame s) (l : Layout s.mem s.heap.begin ns s.heap.current) (small : n < 2 ^ 60)
    (few : length s.roots + n ≤ 32) where
  abbrev registered : State
  registered = record (entered frame s) { roots = reverse_aux (addresses args n) s.roots }

  args_kept :
      (s3 : State)
      → Fresh registered ns (array_size n) array_tag n s3
      → (args + 8 * n ≤ s.heap.current) ⊎ (s.heap.current + block (array_size n) ≤ args)
      → (i : ℕ) → i < n
      → s3.mem (args + 8 * i) ≡ s.mem (args + 8 * i)
  args_kept s3 f (inl low) i h = f.below (args + 8 * i) (omega arith)
  args_kept s3 f (inr high) i h = f.above (args + 8 * i) (omega arith)

  -- Where the heap has room, the assertions of PRE_GC hold, at most 32 roots result and the
  -- arguments lie apart from the new object, Barray returns a new array at the end of the heap
  -- whose elements are its arguments in order, and leaves the memory below, the extra roots and
  -- the top of the stack as they were.
  pub barray-Built :
      s.heap.current + block (array_size n) ≤ s.heap.end
      → Apart (s.heap.current + 16) args n
      → (args + 8 * n ≤ s.heap.current) ⊎ (s.heap.current + block (array_size n) ≤ args)
      → (s' : State) × (barray frame mapping args (box n) s ≡ ok (s', s.heap.current + 16))
        × Built s ns (array_size n) array_tag n 16 args n s'
  unfolding barray
  barray-Built room apart away =
      let unboxed : unbox (box n) ≡ n = ground arith in
      let counted : count n ≡ n = ground arith in
      let a = alloc_array-Fresh mapping registered ns n l small room in
      let f = a.2 in
      let m = copy_words n (a.0).mem (s.heap.current + 16) args in
      let popped = pop_all-ok (addresses args n) s.roots (record (a.0) { mem = m }) (f.roots) in
      let left = post_gc-ok frame s (record (a.0) { mem = m; roots = s.roots }) ready f.stack in
      (
        record (a.0) { mem = m; roots = s.roots; stack_top = s.stack_top },
        rw
            (
              unboxed,
              counted,
              pre_gc-ok frame s ready,
              push_addresses (entered frame s) args n ready.bottom few,
              a.1,
              popped,
              left,
            )
            refl,
        record {
          row =
              Layout-keep s.mem (a.0).mem m s.heap.begin ns s.heap.current (array_size n)
                (a.0).heap.current l
                (λ b h.
                  copy_words-outside n (a.0).mem (s.heap.current + 16) args b (inl (omega arith)))
                f.row;
          grown = f.grown;
          tagged =
              ap tag_of (
                copy_words-outside n (a.0).mem (s.heap.current + 16) args s.heap.current
                  (inl (omega arith)))
              ∙ f.tagged;
          sized =
              ap len_of (
                copy_words-outside n (a.0).mem (s.heap.current + 16) args s.heap.current
                  (inl (omega arith)))
              ∙ f.sized;
          fields = λ i h.
              copy_words-inside n (a.0).mem (s.heap.current + 16) args i apart h
              ∙ args_kept a.0 f away i h;
          below = λ b h.
              copy_words-outside n (a.0).mem (s.heap.current + 16) args b (inl (omega arith))
              ∙ f.below b h;
          roots = refl;
          stack = refl;
        },
      )

module _ (frame : ℕ) (mapping : Option ℕ) (args n : ℕ) (s : State) (ready : Ready frame s)
    (small : n < 2 ^ 60) where
  -- Barray ends the process when its arguments and the extra roots that are there, at most 32, are
  -- more than 32 together.
  pub barray-exited :
      length s.roots ≤ 32 → 32 < length s.roots + n → barray frame mapping args (box n) s ≡ exited
  unfolding barray
  barray-exited k more =
      let unboxed : unbox (box n) ≡ n = ground arith in
      let counted : count n ≡ n = ground arith in
      rw
        (
          unboxed,
          counted,
          pre_gc-ok frame s ready,
          push_addresses-exited (entered frame s) args n ready.bottom k more,
        )
        refl
