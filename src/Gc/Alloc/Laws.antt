-- ===== src/Gc/Alloc/Laws.antt =====
-- Allocation where the heap has room, and room after a collection.
use lama_rv_workshop.Base.{
  ℕ, ◌+◌, ◌*◌, ◌^◌, ◌≤◌, ◌<◌, ◌≡◌, ◌⊎◌, refl, true, arith, leb, List, [], ◌∷◌, ◌++◌, Option, none,
  some,
}
use lama_rv_workshop.Base.Word.{word_mod}
use lama_rv_workshop.Base.Outcome.{ok, ◌>>=◌, >>=-eq-ok}
use lama_rv_workshop.Runtime.Value.{tag_of, len_of, string_tag, array_tag, sexp_tag, closure_tag}
use lama_rv_workshop.Gc.State.{Mem, write, clear, State}
use lama_rv_workshop.Gc.Object.{
  get_type_header_ptr, obj_size_header_ptr, array_size, string_size, closure_size, sexp_size,
}
use lama_rv_workshop.Gc.State.Laws.{write_same}
use lama_rv_workshop.Gc.Object.Laws.{block}
use lama_rv_workshop.Gc.Layout.{Layout, Layout-append, Layout-frame}
use lama_rv_workshop.Gc.Bump.{gc_alloc_on_existing_heap}
use lama_rv_workshop.Gc.Mark.{mark_phase}
use lama_rv_workshop.Gc.Compact.{
  compact_phase, compact_to, compact_into, compute_locations, next_heap_pseudo_size, next_chunk,
  copy_heap, update_references, physically_relocate,
}
use lama_rv_workshop.Gc.Alloc.{
  alloc_sexp, gc_alloc, alloc, alloc_or_collect, set_header, header_of, alloc_string, alloc_array,
  alloc_closure,
}

-- `s'` is `s` with a new object of `n` bytes behind the others, its contents zero.
pub record Fresh (s : State) (ns : List ℕ) (n tag len : ℕ) (s' : State) : Type 0 where
  pub row : Layout s'.mem s.heap.begin (ns ++ n ∷ []) s'.heap.current
  pub grown : s'.heap ≡ record (s.heap) { current = s.heap.current + block n }
  pub within : s'.heap.current ≤ s'.heap.end
  pub tagged : tag_of (s'.mem s.heap.current) ≡ tag
  pub sized : len_of (s'.mem s.heap.current) ≡ len
  pub contents : (b : ℕ) → s.heap.current + 8 ≤ b → b < s.heap.current + block n → s'.mem b ≡ 0
  pub below : (b : ℕ) → b < s.heap.current → s'.mem b ≡ s.mem b
  pub above : (b : ℕ) → s.heap.current + block n ≤ b → s'.mem b ≡ s.mem b
  pub roots : s'.roots ≡ s.roots
  pub stack : s'.stack_top ≡ s.stack_top

-- The memory and the state after the header is written.
abbrev placed : State → ℕ → ℕ → State
placed s n w = record s {
  heap = record (s.heap) { current = s.heap.current + block n };
  mem =
      write (write (clear s.mem s.heap.current (block n)) s.heap.current w) (s.heap.current + 8) 0;
}

alloc_room :
    (mapping : Option ℕ) (s : State) (n w : ℕ)
    → s.heap.current + block n ≤ s.heap.end
    → (alloc mapping n s >>= set_header w) ≡ ok (placed s n w, s.heap.current)
unfolding alloc alloc_or_collect gc_alloc_on_existing_heap set_header
alloc_room mapping s n w room =
    let fits : leb (s.heap.current + block n) s.heap.end ≡ true = ground arith in rw fits refl

placed-Fresh :
    (s : State) (ns : List ℕ) (n tag len : ℕ)
    → Layout s.mem s.heap.begin ns s.heap.current
    → s.heap.current + block n ≤ s.heap.end
    → 16 ≤ n
    → n < word_mod
    → tag < 8
    → len < 2 ^ 61
    → ((m : Mem) (a : ℕ) → m a ≡ header_of tag len → obj_size_header_ptr m a ≡ ok n)
    → Fresh s ns n tag len (placed s n (header_of tag len))
placed-Fresh s ns n tag len l room lo hi ht hl size = record {
  row =
      Layout-append (placed s n w).mem s.heap.begin ns p (n ∷ []) (p + block n)
        (Layout-frame s.mem (placed s n w).mem s.heap.begin ns p (λ b h. ground arith) l)
        (size (placed s n w).mem p (ground arith), lo, hi, refl);
  grown = refl;
  within = room;
  tagged = ground arith;
  sized = ground arith;
  contents = λ b h k. ground arith;
  below = λ b h. ground arith;
  above = λ b h. ground arith;
  roots = refl;
  stack = refl;
}
  where
    p : ℕ
    p = s.heap.current

    w : ℕ
    w = header_of tag len

-- The size of an object follows from the header that its allocation writes.
module _ (m : Mem) (a len : ℕ) where
  string_header :
      m a ≡ header_of string_tag len → len < 2 ^ 60 → obj_size_header_ptr m a ≡ ok (string_size len)
  unfolding obj_size_header_ptr get_type_header_ptr
  string_header e h =
      let t : tag_of (m a) ≡ 1 = ground arith in
      let k : len_of (m a) ≡ len = ground arith in rw (t, k) refl

  array_header :
      m a ≡ header_of array_tag len → len < 2 ^ 60 → obj_size_header_ptr m a ≡ ok (array_size len)
  unfolding obj_size_header_ptr get_type_header_ptr
  array_header e h =
      let t : tag_of (m a) ≡ 3 = ground arith in
      let k : len_of (m a) ≡ len = ground arith in rw (t, k) refl

  sexp_header :
      m a ≡ header_of sexp_tag len → len < 2 ^ 60 → obj_size_header_ptr m a ≡ ok (sexp_size len)
  unfolding obj_size_header_ptr get_type_header_ptr
  sexp_header e h =
      let t : tag_of (m a) ≡ 5 = ground arith in
      let k : len_of (m a) ≡ len = ground arith in rw (t, k) refl

  closure_header :
      m a ≡ header_of closure_tag len
      → len < 2 ^ 60
      → obj_size_header_ptr m a ≡ ok (closure_size len)
  unfolding obj_size_header_ptr get_type_header_ptr
  closure_header e h =
      let t : tag_of (m a) ≡ 7 = ground arith in
      let k : len_of (m a) ≡ len = ground arith in rw (t, k) refl

module _ (mapping : Option ℕ) (s : State) (ns : List ℕ) (len : ℕ)
    (l : Layout s.mem s.heap.begin ns s.heap.current) (small : len < 2 ^ 60) where
  -- Where the heap has room, alloc_string returns the old end of the heap, where it has put a
  -- zeroed string of that length behind the other objects, which are unchanged.
  pub alloc_string-Fresh :
      s.heap.current + block (string_size len) ≤ s.heap.end
      → (s' : State) × (alloc_string mapping len s ≡ ok (s', s.heap.current))
        × Fresh s ns (string_size len) string_tag len s'
  unfolding alloc_string
  alloc_string-Fresh room = (
    placed s (string_size len) (header_of string_tag len),
    alloc_room mapping s (string_size len) (header_of string_tag len) room,
    placed-Fresh s ns (string_size len) string_tag len l room (omega arith) (omega arith)
        (omega arith) (omega arith) (λ m a e. string_header m a len e small),
  )

  -- Where the heap has room, alloc_array returns the old end of the heap, where it has put a
  -- zeroed array of that length behind the other objects, which are unchanged.
  pub alloc_array-Fresh :
      s.heap.current + block (array_size len) ≤ s.heap.end
      → (s' : State) × (alloc_array mapping len s ≡ ok (s', s.heap.current))
        × Fresh s ns (array_size len) array_tag len s'
  unfolding alloc_array
  alloc_array-Fresh room = (
    placed s (array_size len) (header_of array_tag len),
    alloc_room mapping s (array_size len) (header_of array_tag len) room,
    placed-Fresh s ns (array_size len) array_tag len l room (omega arith) (omega arith)
        (omega arith) (omega arith) (λ m a e. array_header m a len e small),
  )

  -- Where the heap has room, alloc_closure returns the old end of the heap, where it has put a
  -- zeroed closure of that length behind the other objects, which are unchanged.
  pub alloc_closure-Fresh :
      s.heap.current + block (closure_size len) ≤ s.heap.end
      → (s' : State) × (alloc_closure mapping len s ≡ ok (s', s.heap.current))
        × Fresh s ns (closure_size len) closure_tag len s'
  unfolding alloc_closure
  alloc_closure-Fresh room = (
    placed s (closure_size len) (header_of closure_tag len),
    alloc_room mapping s (closure_size len) (header_of closure_tag len) room,
    placed-Fresh s ns (closure_size len) closure_tag len l room (omega arith) (omega arith)
        (omega arith) (omega arith) (λ m a e. closure_header m a len e small),
  )

room_test :
    (s : State) (n : ℕ)
    → s.heap.current + block n ≤ s.heap.end
    → leb (s.heap.current + block n) s.heap.end ≡ true
room_test s n room = ground arith

-- `alloc_sexp` clears the tag once more.
placed_tag :
    (s : State) (n w : ℕ)
    → 24 ≤ n
    → n < word_mod
    → write (placed s n w).mem (s.heap.current + 16) 0 ≡ (placed s n w).mem
placed_tag s n w h k = write_same (placed s n w).mem (s.heap.current + 16) 0 (ground arith)

module _ (mapping : Option ℕ) (s : State) (ns : List ℕ) (members : ℕ)
    (l : Layout s.mem s.heap.begin ns s.heap.current) (small : members < 2 ^ 60) where
  -- Where the heap has room, alloc_sexp returns the old end of the heap, where it has put a zeroed
  -- S-expression of that many members behind the other objects, which are unchanged.
  pub alloc_sexp-Fresh :
      s.heap.current + block (sexp_size members) ≤ s.heap.end
      → (s' : State) × (alloc_sexp mapping members s ≡ ok (s', s.heap.current))
        × Fresh s ns (sexp_size members) sexp_tag members s'
  unfolding alloc_sexp alloc alloc_or_collect gc_alloc_on_existing_heap set_header
  alloc_sexp-Fresh room = (
    placed s (sexp_size members) (header_of sexp_tag members),
    rw
        (
          room_test s (sexp_size members) room,
          placed_tag s (sexp_size members) (header_of sexp_tag members) (omega arith) (omega arith),
        )
        refl,
    placed-Fresh s ns (sexp_size members) sexp_tag members l room (omega arith) (omega arith)
        (omega arith) (omega arith) (λ m a e. sexp_header m a members e small),
  )

into-room :
    (s s' : State) (begin pseudo live : ℕ) (m1 : Mem)
    → compact_into s begin pseudo live m1 ≡ ok s'
    → (s'.heap.current ≡ s'.heap.begin + live * 8) × (s'.heap.end ≡ s'.heap.begin + pseudo * 8)
unfolding compact_into
into-room s s' begin pseudo live m1 h =
    let old = s.heap in
    let m2 = copy_heap m1 begin (pseudo * 8) old.begin (old.size * 8) in
    let a =
      >>=-eq-ok (update_references old (next_chunk old begin pseudo) s m2)
        (λ m3. physically_relocate old (next_chunk old begin pseudo) m3 >>= λ m4. ok (record s {
          mem = m4;
          heap = record (next_chunk old begin pseudo) { current = begin + live * 8 };
        }))
        h in
    let b = >>=-eq-ok (physically_relocate old (next_chunk old begin pseudo) a.0) _ a.2 in
    (ground (arith, b.2), ground (arith, b.2))

-- `compact_phase` leaves the heap's end behind the live words, and its mapping behind `pseudo`
-- words, for a number `pseudo` that is computed from theirs.
compact-room :
    (mapping : Option ℕ) (size : ℕ) (s s' : State)
    → compact_phase mapping size s ≡ ok s'
    → (m1 : Mem) × (live : ℕ) × (compute_locations s.heap s.mem ≡ ok (m1, live))
      × (s'.heap.current ≡ s'.heap.begin + live * 8)
      × (s'.heap.end ≡ s'.heap.begin + next_heap_pseudo_size s.heap live size * 8)
unfolding compact_phase compact_to
compact-room none size s s' h =
    let a = >>=-eq-ok (compute_locations s.heap s.mem) (compact_to s size none) h in cc (a.2)
compact-room (some p) size s s' h =
    let a = >>=-eq-ok (compute_locations s.heap s.mem) (compact_to s size (some p)) h in
    let r = into-room s s' p (next_heap_pseudo_size s.heap a.0.1 size) a.0.1 a.0.0 a.2 in
    (a.0.0, a.0.1, a.1, r.0, r.1)

-- Where marking and compaction succeed and twice the live words and those asked for fit a word,
-- gc_alloc returns the end of the live objects, with zeroed room for the words asked for inside
-- the mapping, and never NULL.
pub gc_alloc-room :
    (mapping : Option ℕ) (size live : ℕ) (s s1 s2 : State) (m1 : Mem)
    → mark_phase s ≡ ok s1
    → compact_phase mapping size s1 ≡ ok s2
    → compute_locations s1.heap s1.mem ≡ ok (m1, live)
    → live * 2 + size < word_mod
    → (s' : State) × (gc_alloc mapping size s ≡ ok (s', some s2.heap.current))
      × (s'.heap.current ≡ s2.heap.current + size * 8)
      × (s'.heap.current ≤ s'.heap.end)
      × ((b : ℕ) → s2.heap.current ≤ b → b < s'.heap.current → s'.mem b ≡ 0)
      × ((b : ℕ) → (b < s2.heap.current) ⊎ (s'.heap.current ≤ b) → s'.mem b ≡ s2.mem b)
unfolding gc_alloc gc_alloc_on_existing_heap
gc_alloc-room mapping size live s s1 s2 m1 marked compacted located fits =
    let r = compact-room mapping size s1 s2 compacted in
    let same : r.1 ≡ live = cc (r.2, located) in
    let current : s2.heap.current ≡ s2.heap.begin + live * 8 = rw same at r.3 in
    let end : s2.heap.end ≡ s2.heap.begin + next_heap_pseudo_size s1.heap live size * 8 =
      rw same at r.4 in
    let room : leb (s2.heap.current + size * 8) s2.heap.end ≡ true = ground arith in
    (
      record s2 {
        heap = record (s2.heap) { current = s2.heap.current + size * 8 };
        mem = clear s2.mem s2.heap.current (size * 8);
      },
      rw (marked, compacted, room) refl,
      omega arith,
      omega arith,
      λ b h k. ground arith,
      λ b h. ground arith,
    )
