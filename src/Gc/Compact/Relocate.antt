-- ===== src/Gc/Compact/Relocate.antt =====
-- What `physically_relocate` does to a heap that is a row of objects.
use lama_rv_workshop.Base.{
  ℕ, zero, suc, ◌+◌, ◌*◌, ◌/◌, ◌%◌, ◌^◌, ◌≤◌, ◌<◌, ◌≡◌, refl, true, false, Bool, arith, leb, List,
  [], ◌∷◌, if◌then◌else◌, inl, inr, Bool-cases, ◌∙◌,
}
use native.Mathlib.Nat.{mod-mod, add-mul-mod_self_right}
use lama_rv_workshop.Base.Word.{word_mod, sub_word}
use lama_rv_workshop.Base.Outcome.{ok}
use lama_rv_workshop.Gc.State.{Mem, write, move, Chunk}
use lama_rv_workshop.Gc.Object.{
  get_object_content_ptr, obj_size_header_ptr, heap_is_done_iterator, heap_begin_iterator,
  is_marked, get_forward_address, unmark_object, forward_part, reset_mark_bit,
}
use lama_rv_workshop.Gc.Object.Laws.{
  block, obj_size_of_header, header_of_size, content_of_size, next_of_size, slot_of_content,
}
use lama_rv_workshop.Gc.Layout.{Layout, marked_at, live_block, live_bytes, Layout-le, block_ge}
use lama_rv_workshop.Gc.Mark.{rounds}
use lama_rv_workshop.Gc.Compact.{relocate_object, relocate_loop, physically_relocate}

abbrev pub When : Bool → Type 0 → Type 0
When true P = P
When false P = Unit

-- The sizes of the marked objects.
abbrev pub live_sizes : Mem → ℕ → List ℕ → List ℕ
live_sizes m a [] = []
live_sizes m a (n ∷ ns) =
    let rest = live_sizes m (a + block n) ns in if marked_at m a then n ∷ rest else rest

-- In `m'` the object of `n` bytes that `m` has at `from` stands at `to`, its mark removed. Of a
-- last word that the object does not fill, its bytes count.
pub record Moved (m m' : Mem) (from n to : ℕ) : Type 0 where
  pub header : m' to ≡ m from
  pub unmarked : m' (to + 8) ≡ reset_mark_bit (m (from + 8))
  pub words : (k : ℕ) → 16 ≤ k → k + 8 ≤ n → m' (to + k) ≡ m (from + k)
  pub rest :
      (k : ℕ)
      → 16 ≤ k
      → k < n
      → n < k + 8
      → m' (to + k) % 2 ^ (8 * (n % 8)) ≡ m (from + k) % 2 ^ (8 * (n % 8))

-- The marked objects of `m` stand in `m'` one behind the other, from `free` on.
abbrev pub Relocated : Mem → Mem → ℕ → List ℕ → ℕ → Type 0
Relocated m m' a [] free = Unit
Relocated m m' a (n ∷ ns) free =
    When (marked_at m a) (Moved m m' a n free)
    × Relocated m m' (a + block n) ns (free + live_block m a n)

-- Two memories that agree from `a` on.
abbrev pub Above : Mem → Mem → ℕ → Type 0
Above m m' a = (b : ℕ) → a ≤ b → m' b ≡ m b

module _ (m m' : Mem) where
  pub Layout-above :
      (a : ℕ) (ns : List ℕ) (end : ℕ) → Above m m' a → Layout m a ns end → Layout m' a ns end
  Layout-above a [] end same l = l
  Layout-above a (n ∷ ns) end same l = (
    obj_size_of_header m m' a (same a (omega arith)) ∙ l.0,
    l.1,
    l.2,
    Layout-above (a + block n) ns end (λ b h. same b (omega arith)) l.3,
  )

  pub live_bytes-Above :
      (a : ℕ) (ns : List ℕ) → Above m m' a → live_bytes m' a ns ≡ live_bytes m a ns
  live_bytes-Above a [] same = refl
  live_bytes-Above a (n ∷ ns) same =
      rw
        (
          same (a + 8) (omega arith),
          live_bytes-Above (a + block n) ns (λ b h. same b (omega arith)),
        )
        refl

  pub live_sizes-Above :
      (a : ℕ) (ns : List ℕ) → Above m m' a → live_sizes m' a ns ≡ live_sizes m a ns
  live_sizes-Above a [] same = refl
  live_sizes-Above a (n ∷ ns) same =
      rw
        (
          same (a + 8) (omega arith),
          live_sizes-Above (a + block n) ns (λ b h. same b (omega arith)),
        )
        refl

  -- An object that is moved in `m'` was there in `m`.
  Moved-source : (to : Mem) (a n d : ℕ) → Above m m' a → Moved m' to a n d → Moved m to a n d
  Moved-source to a n d same r = record {
    header = r.header ∙ same a (omega arith);
    unmarked = rw (← same (a + 8) (omega arith)) r.unmarked;
    words = λ k h i. r.words k h i ∙ same (a + k) (omega arith);
    rest = λ k h i j. rw (← same (a + k) (omega arith)) (r.rest k h i j);
  }

pub When-map : (b : Bool) (P Q : Type 0) → (P → Q) → When b P → When b Q
When-map true P Q f p = f p
When-map false P Q f p = tt

Relocated-source :
    (m m1 m' : Mem) (a : ℕ) (ns : List ℕ) (free : ℕ)
    → Above m m1 a
    → Relocated m1 m' a ns free
    → Relocated m m' a ns free
Relocated-source m m1 m' a [] free same r = tt
Relocated-source m m1 m' a (n ∷ ns) free same r =
    let e = same (a + 8) (omega arith) in
    let moved : When (marked_at m a) (Moved m1 m' a n free) = rw e at r.0 in
    (
      When-map (marked_at m a) _ _ (Moved-source m m1 m' a n free same) moved,
      Relocated-source m m1 m' (a + block n) ns (free + live_block m a n)
          (λ b h. same b (omega arith)) (rw e at r.1),
    )

-- The memory with the object of `n` bytes at `a` moved to `d` and unmarked.
abbrev after : Mem → ℕ → ℕ → ℕ → Mem
after m a n d = write (move m d a n) (d + 8) (reset_mark_bit (m (a + 8)))

remainder : (x y u : ℕ) → (x % u + y / u * u) % u ≡ x % u
remainder x y u = add-mul-mod_self_right (x % u) (y / u) u ∙ mod-mod x u

module _ (m : Mem) (a n d : ℕ) (big : 16 ≤ n) (fits : n < word_mod) where
  after-header : after m a n d d ≡ m a
  after-header = ground arith

  move-header : move m d a n d ≡ m a
  move-header = ground arith

  move-content :
      obj_size_header_ptr m a ≡ ok n → get_object_content_ptr (move m d a n) d ≡ ok (d + 16)
  move-content sized =
      content_of_size (move m d a n) d n (header_of_size m (move m d a n) a d move-header ∙ sized)

  unmark-move : unmark_object (move m d a n) (d + 16) ≡ after m a n d
  unfolding unmark_object
  unmark-move =
      let there : move m d a n (d + 8) ≡ m (a + 8) = ground arith in
      rw (slot_of_content d, there) refl

  -- What stands at the place of the move stays if the later moves leave it alone.
  after-Moved :
      (m' : Mem) → ((b : ℕ) → d ≤ b → b < d + block n → m' b ≡ after m a n d b) → Moved m m' a n d
  after-Moved m' same =
      let le = block_ge n big fits in
      record {
        header = same d (omega arith) (omega arith) ∙ after-header;
        unmarked = same (d + 8) (omega arith) (omega arith) ∙ ground arith;
        words = λ k h i. same (d + k) (omega arith) (omega arith) ∙ ground arith;
        rest = λ k h i j.
            let unit : ℕ = 2 ^ (8 * (n % 8)) in
            let last : after m a n d (d + k) ≡ m (a + k) % unit + m (d + k) / unit * unit =
              ground arith in
            rw (same (d + k) (omega arith) (omega arith), last)
              (remainder (m (a + k)) (m (d + k)) unit);
      }

  after_below : (b : ℕ) → b < d → after m a n d b ≡ m b
  after_below b h = ground arith

  after_above : (b : ℕ) → d + block n ≤ b → after m a n d b ≡ m b
  after_above b h = let le = block_ge n big fits in ground arith

module _ (old_heap heap : Chunk) where
  -- Where the object at `a` goes.
  abbrev pub place : Mem → ℕ → ℕ
  place m a = sub_word (heap.begin + forward_part (m (a + 8))) old_heap.begin

  relocate_object_lem :
      (m : Mem) (a n : ℕ)
      → obj_size_header_ptr m a ≡ ok n
      → 16 ≤ n
      → n < word_mod
      → relocate_object old_heap heap m a (a + 16) ≡ ok (after m a n (place m a))
  unfolding relocate_object get_forward_address
  relocate_object_lem m a n sized big fits =
      let d = place m a in
      rw
        (
          slot_of_content a,
          sized,
          move-content m a n d big fits sized,
          unmark-move m a n d big fits,
        )
        refl

  -- The marked objects go to `free` and behind it in order, none of them to a higher address.
  abbrev pub Placed : Mem → ℕ → List ℕ → ℕ → Type 0
  Placed m a [] free = Unit
  Placed m a (n ∷ ns) free =
      When (marked_at m a) (place m a ≡ free)
      × (free ≤ a)
      × Placed m (a + block n) ns (free + live_block m a n)

  Placed-Above :
      (m m' : Mem) (a : ℕ) (ns : List ℕ) (free : ℕ)
      → Above m m' a
      → Placed m a ns free
      → Placed m' a ns free
  Placed-Above m m' a [] free same p = tt
  Placed-Above m m' a (n ∷ ns) free same p = rw (same (a + 8) (omega arith)) (
    p.0,
    p.1,
    Placed-Above m m' (a + block n) ns (free + live_block m a n) (λ b h. same b (omega arith)) p.2,
  )

  -- The memory after the loop from an object at `a` on, with `free` the next place: the objects
  -- stand there, they make a row, and nothing else has changed.
  pub record Compacted (m : Mem) (a : ℕ) (ns : List ℕ) (free : ℕ) (m' : Mem) : Type 0 where
    pub moved : Relocated m m' a ns free
    pub row : Layout m' free (live_sizes m a ns) (free + live_bytes m a ns)
    pub below : (b : ℕ) → b < free → m' b ≡ m b
    pub above : (b : ℕ) → free + live_bytes m a ns ≤ b → m' b ≡ m b

  relocate_step :
      (fuel : ℕ) (m : Mem) (a n : ℕ)
      → obj_size_header_ptr m a ≡ ok n
      → 16 ≤ n
      → n < word_mod
      → a < heap.current
      → relocate_loop old_heap heap (suc fuel) m a
        ≡ relocate_loop old_heap heap fuel
            (if marked_at m a then after m a n (place m a) else m)
            (a + block n)
  unfolding relocate_loop heap_is_done_iterator is_marked
  relocate_step fuel m a n sized big fits h =
      let going : leb heap.current a ≡ false = ground arith in
      let slot = slot_of_content a in
      elim (Bool-cases (marked_at m a)) [
        | inl e ↦
            rw
              (
                going,
                content_of_size m a n sized,
                next_of_size m a n sized,
                slot,
                e,
                relocate_object_lem m a n sized big fits,
              )
              refl
        | inr e ↦ rw (going, content_of_size m a n sized, next_of_size m a n sized, slot, e) refl
      ]

  -- An object before those that the rest of the loop takes care of.
  module _ (m m' : Mem) (a n free : ℕ) (ns : List ℕ) (big : 16 ≤ n) (fits : n < word_mod) where
    Compacted-marked :
        marked_at m a ≡ true
        → obj_size_header_ptr m a ≡ ok n
        → Above m (after m a n free) (a + block n)
        → Compacted (after m a n free) (a + block n) ns (free + block n) m'
        → Compacted m a (n ∷ ns) free m'
    Compacted-marked e sized same r =
        let m1 = after m a n free in
        let le = block_ge n big fits in
        let sizes = live_sizes-Above m m1 (a + block n) ns same in
        let bytes = live_bytes-Above m m1 (a + block n) ns same in
        let sum : free + block n + live_bytes m (a + block n) ns
            ≡ free + (block n + live_bytes m (a + block n) ns) =
          omega arith in
        let header : m' free ≡ m a =
          r.below free (omega arith) ∙ after-header m a n free big fits in
        record {
          moved = rw e (
            after-Moved m a n free big fits m' (λ b i k. r.below b k),
            Relocated-source m m1 m' (a + block n) ns (free + block n) same r.moved,
          );
          row = rw e (
            header_of_size m m' a free header ∙ sized,
            big,
            fits,
            rw (← sum) (rw (sizes, bytes) at r.row),
          );
          below = λ b k. r.below b (omega arith) ∙ after_below m a n free big fits b k;
          above = λ b k.
              let far : free + (block n + live_bytes m (a + block n) ns) ≤ b = rw e at k in
              r.above b (rw bytes (omega arith)) ∙ after_above m a n free big fits b (omega arith);
        }

    Compacted-unmarked :
        marked_at m a ≡ false
        → Compacted m (a + block n) ns free m'
        → Compacted m a (n ∷ ns) free m'
    Compacted-unmarked e r =
        let sum : free + 0 ≡ free = omega arith in
        let same : 0 + live_bytes m (a + block n) ns ≡ live_bytes m (a + block n) ns =
          omega arith in
        record {
          moved = rw (e, sum) (tt, r.moved);
          row = rw (e, same) r.row;
          below = r.below;
          above = rw (e, same) r.above;
        }

  loop-Compacted :
      (fuel : ℕ) (m : Mem) (a free : ℕ) (ns : List ℕ)
      → Layout m a ns heap.current
      → Placed m a ns free
      → heap.current < a + fuel
      → (m' : Mem) × (relocate_loop old_heap heap fuel m a ≡ ok m') × Compacted m a ns free m'
  unfolding relocate_loop heap_is_done_iterator
  loop-Compacted zero m a free ns l p h = absurd (omega (arith, Layout-le m a ns heap.current l))
  loop-Compacted (suc fuel) m a free [] l p h =
      let over : leb heap.current a ≡ true = ground arith in
      (
        m,
        rw over refl,
        record { moved = tt; row = omega arith; below = λ b k. refl; above = λ b k. refl },
      )
  loop-Compacted (suc fuel) m a free (n ∷ ns) l p h =
      let below = Layout-le m (a + block n) ns heap.current l.3 in
      let le = block_ge n l.1 l.2 in
      let step = relocate_step fuel m a n l.0 l.1 l.2 (omega arith) in
      elim (Bool-cases (marked_at m a)) [
        | inl e ↦
            let there : place m a ≡ free = rw e at p.0 in
            let same : Above m (after m a n free) (a + block n) =
              λ b k. after_above m a n free l.1 l.2 b (omega (arith, p.1)) in
            let r =
              loop-Compacted fuel (after m a n free) (a + block n) (free + block n) ns
                (Layout-above m _ (a + block n) ns heap.current same l.3)
                (Placed-Above m _ (a + block n) ns (free + block n) same (rw e at p.2))
                (omega arith) in
            let one : relocate_loop old_heap heap (suc fuel) m a
                ≡ relocate_loop old_heap heap fuel (after m a n free) (a + block n) =
              step ∙ rw (e, there) refl in
            (r.0, one ∙ r.1, Compacted-marked m r.0 a n free ns l.1 l.2 e l.0 same r.2)
        | inr e ↦
            let sum : free + 0 ≡ free = omega arith in
            let r =
              loop-Compacted fuel m (a + block n) free ns l.3 (rw (e, sum) at p.2) (omega arith) in
            let one : relocate_loop old_heap heap (suc fuel) m a
                ≡ relocate_loop old_heap heap fuel m (a + block n) =
              step ∙ rw e refl in
            (r.0, one ∙ r.1, Compacted-unmarked m r.0 a n free ns l.1 l.2 e r.2)
      ]

  -- On a heap that is a row of objects whose marked ones have the forward addresses that take them
  -- together in order, none upwards, physically_relocate ends: each marked object stands at its
  -- place with its header, its mark removed and its contents; they are a row of objects; and what
  -- lies before and behind that row is as it was.
  pub physically_relocate_lem :
      (m : Mem) (ns : List ℕ)
      → Layout m heap.begin ns heap.current
      → Placed m heap.begin ns heap.begin
      → (m' : Mem) × (physically_relocate old_heap heap m ≡ ok m')
        × Compacted m heap.begin ns heap.begin m'
  unfolding physically_relocate heap_begin_iterator
  physically_relocate_lem m ns l p =
      let le = Layout-le m heap.begin ns heap.current l in
      loop-Compacted (rounds heap) m heap.begin heap.begin ns l p (omega arith)
