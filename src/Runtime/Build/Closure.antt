-- ===== src/Runtime/Build/Closure.antt =====
-- What `Bclosure` builds, where the heap has room: the code address and the captured values.
use mathlib.Core.List.{reverse_aux}
use lama_rv_workshop.Base.{
  ℕ, zero, suc, ◌+◌, ◌*◌, ◌^◌, ◌≤◌, ◌<◌, ◌≡◌, refl, arith, List, length, ap, ◌∙◌, ◌⊎◌, inl, inr,
  Option,
}
use lama_rv_workshop.Base.Word.{add_word}
use lama_rv_workshop.Base.Outcome.{ok}
use lama_rv_workshop.Runtime.Value.{unbox, box, tag_of, len_of, closure_tag}
use lama_rv_workshop.Gc.State.{write, State}
use lama_rv_workshop.Gc.State.Laws.{write_self, write_ne}
use lama_rv_workshop.Gc.Object.{closure_size}
use lama_rv_workshop.Gc.Object.Laws.{block}
use lama_rv_workshop.Gc.Layout.{Layout, Layout-keep}
use lama_rv_workshop.Gc.Alloc.Laws.{Fresh, alloc_closure-Fresh}
use lama_rv_workshop.Runtime.Build.{addresses, count, copy_words, bclosure}
use lama_rv_workshop.Runtime.Build.Roots.{
  Ready, entered, pre_gc-ok, post_gc-ok, push_addresses, pop_all-ok,
}
use lama_rv_workshop.Runtime.Build.Laws.{Built, copy_words-outside, copy_words-inside}

module _ (frame : ℕ) (mapping : Option ℕ) (args n : ℕ) (s : State) (ns : List ℕ)
    (ready : Ready frame s) (l : Layout s.mem s.heap.begin ns s.heap.current) (small : n < 2 ^ 59)
    (few : length s.roots + n ≤ 32) where
  abbrev registered : State
  registered = record (entered frame s) { roots = reverse_aux (addresses (args + 8) n) s.roots }

  fits : suc n < 2 ^ 60
  fits = omega arith

  kept :
      (s3 : State)
      → Fresh registered ns (closure_size (suc n)) closure_tag (suc n) s3
      → (args + 8 * n + 8 ≤ s.heap.current) ⊎ (s.heap.current + block (closure_size (suc n)) ≤ args)
      → (i : ℕ) → i ≤ n
      → s3.mem (args + 8 * i) ≡ s.mem (args + 8 * i)
  kept s3 f (inl low) i h = f.below (args + 8 * i) (omega arith)
  kept s3 f (inr high) i h = f.above (args + 8 * i) (omega arith)

  -- Where the heap has room, the assertions of PRE_GC hold, at most 32 roots result and the
  -- arguments lie apart from the new object, Bclosure returns a new closure at the end of the heap
  -- that holds the code address and the captured values in order, and leaves the memory below, the
  -- extra roots and the top of the stack as they were.
  pub bclosure-Built :
      s.heap.current + block (closure_size (suc n)) ≤ s.heap.end
      → (args + 8 * n + 8 ≤ s.heap.current) ⊎ (s.heap.current + block (closure_size (suc n)) ≤ args)
      → (s' : State) × (bclosure frame mapping args (box n) s ≡ ok (s', s.heap.current + 16))
        × Built s ns (closure_size (suc n)) closure_tag (suc n) 16 args (suc n) s'
  unfolding bclosure
  bclosure-Built room away =
      let unboxed : unbox (box n) ≡ n = ground arith in
      let counted : count n ≡ n = ground arith in
      let more : add_word n 1 ≡ suc n = ground arith in
      let a = alloc_closure-Fresh mapping registered ns (suc n) l fits room in
      let f = a.2 in
      let p = s.heap.current in
      let m1 = write (a.0).mem (p + 16) ((a.0).mem args) in
      let m = copy_words n m1 (p + 24) (args + 8) in
      let popped =
        pop_all-ok (addresses (args + 8) n) s.roots (record (a.0) { mem = m }) (f.roots) in
      let left = post_gc-ok frame s (record (a.0) { mem = m; roots = s.roots }) ready f.stack in
      let low : (b : ℕ) → b < p + 16 → m b ≡ (a.0).mem b = λ b h.
        copy_words-outside n m1 (p + 24) (args + 8) b (inl (omega arith))
        ∙ write_ne (a.0).mem (p + 16) ((a.0).mem args) b (omega arith) in
      (
        record (a.0) { mem = m; roots = s.roots; stack_top = s.stack_top },
        rw
            (
              unboxed,
              counted,
              more,
              pre_gc-ok frame s ready,
              push_addresses (entered frame s) (args + 8) n ready.bottom few,
              a.1,
              popped,
              left,
            )
            refl,
        record {
          row =
              Layout-keep s.mem (a.0).mem m s.heap.begin ns p (closure_size (suc n))
                (a.0).heap.current l (λ b h. low b (omega arith)) f.row;
          grown = f.grown;
          tagged = ap tag_of (low p (omega arith)) ∙ f.tagged;
          sized = ap len_of (low p (omega arith)) ∙ f.sized;
          fields = λ i h. field a.0 f away i h;
          below = λ b h. low b (omega arith) ∙ f.below b h;
          roots = refl;
          stack = refl;
        },
      )
    where
      field :
          (s3 : State)
          → Fresh registered ns (closure_size (suc n)) closure_tag (suc n) s3
          → (args + 8 * n + 8 ≤ s.heap.current)
            ⊎ (s.heap.current + block (closure_size (suc n)) ≤ args)
          → (i : ℕ) → i < suc n
          → copy_words n
              (write s3.mem (s.heap.current + 16) (s3.mem args))
              (s.heap.current + 24)
              (args + 8)
              (s.heap.current + 16 + 8 * i)
            ≡ s.mem (args + 8 * i)
      field s3 f away zero h =
          let to : s.heap.current + 16 + 8 * 0 ≡ s.heap.current + 16 = omega arith in
          let from : args ≡ args + 8 * 0 = omega arith in
          rw to (
            copy_words-outside n (write s3.mem (s.heap.current + 16) (s3.mem args))
              (s.heap.current + 24) (args + 8) (s.heap.current + 16) (inl (omega arith))
            ∙ write_self s3.mem (s.heap.current + 16) (s3.mem args)
            ∙ ap s3.mem from
            ∙ kept s3 f away 0 (omega arith))
      field s3 f away (suc i) h =
          let to : s.heap.current + 16 + 8 * suc i ≡ s.heap.current + 24 + 8 * i = omega arith in
          let from : args + 8 + 8 * i ≡ args + 8 * suc i = omega arith in
          rw to (
            copy_words-inside n (write s3.mem (s.heap.current + 16) (s3.mem args))
              (s.heap.current + 24) (args + 8) i (omega (arith, away)) (omega arith)
            ∙ write_ne s3.mem (s.heap.current + 16) (s3.mem args) (args + 8 + 8 * i)
                (omega (arith, away))
            ∙ ap s3.mem from
            ∙ kept s3 f away (suc i) (omega arith))
