-- ===== src/Runtime/Build/Sexp.antt =====
-- What `Bsexp` builds, where the heap has room: its arguments but the last, under the tag that the
-- last one is.
use mathlib.Core.List.{reverse_aux}
use lama_rv_workshop.Base.{
  ℕ, suc, ◌+◌, ◌*◌, ◌^◌, ◌≤◌, ◌<◌, ◌≡◌, refl, arith, List, length, ap, ◌∙◌, ◌⊎◌, inl, inr, Option,
}
use lama_rv_workshop.Base.Word.{sub_word}
use lama_rv_workshop.Base.Outcome.{ok}
use lama_rv_workshop.Runtime.Value.{unbox, box, tag_of, len_of, sexp_tag}
use lama_rv_workshop.Gc.State.{write, State}
use lama_rv_workshop.Gc.State.Laws.{write_self, write_ne, write_same}
use lama_rv_workshop.Gc.Object.{sexp_size}
use lama_rv_workshop.Gc.Object.Laws.{block}
use lama_rv_workshop.Gc.Layout.{Layout, Layout-keep}
use lama_rv_workshop.Gc.Alloc.Laws.{Fresh, alloc_sexp-Fresh}
use lama_rv_workshop.Runtime.Build.{addresses, count, copy_words, bsexp}
use lama_rv_workshop.Runtime.Build.Roots.{
  Ready, entered, pre_gc-ok, post_gc-ok, push_addresses, pop_all-ok,
}
use lama_rv_workshop.Runtime.Build.Laws.{Built, copy_words-outside, copy_words-inside}

module _ (frame : ℕ) (mapping : Option ℕ) (args n : ℕ) (s : State) (ns : List ℕ)
    (ready : Ready frame s) (l : Layout s.mem s.heap.begin ns s.heap.current) (small : n < 2 ^ 60)
    (few : length s.roots + n ≤ 32) where
  abbrev registered : State
  registered = record (entered frame s) { roots = reverse_aux (addresses args n) s.roots }

  kept :
      (s3 : State)
      → Fresh registered ns (sexp_size n) sexp_tag n s3
      → (args + 8 * n + 8 ≤ s.heap.current) ⊎ (s.heap.current + block (sexp_size n) ≤ args)
      → (i : ℕ) → i ≤ n
      → s3.mem (args + 8 * i) ≡ s.mem (args + 8 * i)
  kept s3 f (inl low) i h = f.below (args + 8 * i) (omega arith)
  kept s3 f (inr high) i h = f.above (args + 8 * i) (omega arith)

  -- Where the heap has room, the assertions of PRE_GC hold, at most 32 roots result and the
  -- arguments lie apart from the new object, Bsexp returns a new S-expression at the end of the
  -- heap whose fields are its arguments but the last, in order, and whose tag is the last one
  -- unboxed, and leaves the memory below, the extra roots and the top of the stack as they were.
  pub bsexp-Built :
      s.heap.current + block (sexp_size n) ≤ s.heap.end
      → (args + 8 * n + 8 ≤ s.heap.current) ⊎ (s.heap.current + block (sexp_size n) ≤ args)
      → (s' : State) × (bsexp frame mapping args (box (suc n)) s ≡ ok (s', s.heap.current + 16))
        × Built s ns (sexp_size n) sexp_tag n 24 args n s'
        × (s'.mem (s.heap.current + 16) ≡ unbox (s.mem (args + 8 * n)))
  unfolding bsexp
  bsexp-Built room away =
      let unboxed : sub_word (unbox (box (suc n))) 1 ≡ n = ground arith in
      let counted : count n ≡ n = ground arith in
      let a = alloc_sexp-Fresh mapping registered ns n l small room in
      let f = a.2 in
      let p = s.heap.current in
      let cleared : write (a.0).mem (p + 16) 0 ≡ (a.0).mem =
        write_same (a.0).mem (p + 16) 0 (f.contents (p + 16) (omega arith) (omega arith)) in
      let m1 = copy_words n (a.0).mem (p + 24) args in
      let tag = unbox (m1 (args + 8 * n)) in
      let m = write m1 (p + 16) tag in
      let popped = pop_all-ok (addresses args n) s.roots (record (a.0) { mem = m }) (f.roots) in
      let left = post_gc-ok frame s (record (a.0) { mem = m; roots = s.roots }) ready f.stack in
      let low : (b : ℕ) → b < p + 16 → m b ≡ (a.0).mem b = λ b h.
        write_ne m1 (p + 16) tag b (omega arith)
        ∙ copy_words-outside n (a.0).mem (p + 24) args b (inl (omega arith)) in
      (
        record (a.0) { mem = m; roots = s.roots; stack_top = s.stack_top },
        rw
            (
              unboxed,
              counted,
              pre_gc-ok frame s ready,
              push_addresses (entered frame s) args n ready.bottom few,
              a.1,
              cleared,
              popped,
              left,
            )
            refl,
        record {
          row =
              Layout-keep s.mem (a.0).mem m s.heap.begin ns p (sexp_size n) (a.0).heap.current l
                (λ b h. low b (omega arith)) f.row;
          grown = f.grown;
          tagged = ap tag_of (low p (omega arith)) ∙ f.tagged;
          sized = ap len_of (low p (omega arith)) ∙ f.sized;
          fields = λ i h.
              write_ne m1 (p + 16) tag (p + 24 + 8 * i) (omega arith)
              ∙ copy_words-inside n (a.0).mem (p + 24) args i (omega (arith, away)) h
              ∙ kept a.0 f away i (omega arith);
          below = λ b h. low b (omega arith) ∙ f.below b h;
          roots = refl;
          stack = refl;
        },
        write_self m1 (p + 16) tag
            ∙ ap unbox (
                copy_words-outside n (a.0).mem (p + 24) args (args + 8 * n) (omega (arith, away))
                ∙ kept a.0 f away n (omega arith)),
      )
