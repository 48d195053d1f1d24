-- ===== src/Gc/Compact/Locations.antt =====
-- What `compute_locations` computes, on a heap that is a row of objects.
use lama_rv_workshop.Base.{
  ℕ, zero, suc, ◌+◌, ◌-◌, ◌*◌, ◌/◌, ◌≤◌, ◌<◌, ◌≡◌, refl, ◌≢◌, true, false, arith, leb, List, [],
  ◌∷◌, if◌then◌else◌, inl, inr, Bool-cases, ◌∙◌,
}
use lama_rv_workshop.Base.Outcome.{ok}
use lama_rv_workshop.Gc.State.{Mem, write, Chunk}
use lama_rv_workshop.Gc.Object.{
  obj_size_header_ptr, heap_is_done_iterator, heap_begin_iterator, is_marked, set_forward_address,
  set_forward_part,
}
use lama_rv_workshop.Gc.Object.Laws.{
  block, obj_size_of_header, content_of_size, next_of_size, slot_of_content,
}
use lama_rv_workshop.Gc.Layout.{
  Layout, marked_at, live_block, live_bytes, Layout-le, Layout-write, marked_at-write,
  live_bytes-write,
}
use lama_rv_workshop.Gc.Mark.{rounds}
use lama_rv_workshop.Gc.Compact.{compute_loop, compute_locations}

-- `b` is no forward address of an object.
abbrev pub OffSlots : ℕ → List ℕ → ℕ → Type 0
OffSlots a [] b = Unit
OffSlots a (n ∷ ns) b = (b ≢ a + 8) × OffSlots (a + block n) ns b

-- In `m'` each marked object has for its forward address `free` and the bytes of the marked objects
-- before it, an address that is not above its own; the words of the others are those of `m`.
abbrev pub Located : Mem → Mem → ℕ → List ℕ → ℕ → Type 0
Located m m' a [] free = Unit
Located m m' a (n ∷ ns) free =
    (m' (a + 8) ≡ (if marked_at m a then set_forward_part (m (a + 8)) free else m (a + 8)))
    × (free ≤ a)
    × Located m m' (a + block n) ns (free + live_block m a n)

module _ (m : Mem) (b v : ℕ) where
  Located-write :
      (m' : Mem) (a : ℕ) (ns : List ℕ) (free : ℕ)
      → b < a
      → Located (write m b v) m' a ns free
      → Located m m' a ns free
  Located-write m' a [] free h l = tt
  Located-write m' a (n ∷ ns) free h l =
      let e = marked_at-write m b v a h in
      (
        ground arith,
        l.1,
        Located-write m' (a + block n) ns (free + live_block m a n) (omega arith) (rw e at l.2),
      )

pub OffSlots-below : (a : ℕ) (ns : List ℕ) (b : ℕ) → b < a → OffSlots a ns b
OffSlots-below a [] b h = tt
OffSlots-below a (n ∷ ns) b h = (omega arith, OffSlots-below (a + block n) ns b (omega arith))

-- The memory after the loop, and where the loop ended.
abbrev pub Computed : Mem → ℕ → List ℕ → ℕ → Mem → Type 0
Computed m a ns free m' = Located m m' a ns free × ((b : ℕ) → OffSlots a ns b → m' b ≡ m b)

-- One round on an object that is there.
loop-step :
    (heap : Chunk) (fuel : ℕ) (m : Mem) (a n free : ℕ)
    → obj_size_header_ptr m a ≡ ok n
    → a < heap.current
    → compute_loop heap (suc fuel) m a free ≡ (
        if marked_at m a
        then compute_loop heap fuel
            (write m (a + 8) (set_forward_part (m (a + 8)) free))
            (a + block n)
            (free + block n)
        else compute_loop heap fuel m (a + block n) free)
unfolding compute_loop heap_is_done_iterator is_marked set_forward_address
loop-step heap fuel m a n free sized h =
    let going : leb heap.current a ≡ false = ground arith in
    let slot = slot_of_content a in
    let still : obj_size_header_ptr (write m (a + 8) (set_forward_part (m (a + 8)) free)) a ≡ ok n =
      obj_size_of_header m _ a (ground arith) ∙ sized in
    elim (Bool-cases (marked_at m a)) [
      | inl e ↦
          rw (going, content_of_size m a n sized, sized, slot, e, next_of_size _ a n still) refl
      | inr e ↦
          rw (going, content_of_size m a n sized, sized, slot, e, next_of_size m a n sized) refl
    ]

loop-Computed :
    (heap : Chunk) (fuel : ℕ) (m : Mem) (a free : ℕ) (ns : List ℕ)
    → Layout m a ns heap.current
    → heap.current < a + fuel
    → free ≤ a
    → (m' : Mem) × (compute_loop heap fuel m a free ≡ ok (m', free + live_bytes m a ns))
      × Computed m a ns free m'
unfolding compute_loop heap_is_done_iterator
loop-Computed heap zero m a free ns l h k = absurd (omega (arith, Layout-le m a ns heap.current l))
loop-Computed heap (suc fuel) m a free [] l h k =
    let over : leb heap.current a ≡ true = ground arith in
    let sum : free ≡ free + 0 = omega arith in (m, rw (over, ← sum) refl, (tt, λ b o. refl))
loop-Computed heap (suc fuel) m a free (n ∷ ns) l h k =
    let below = Layout-le m (a + block n) ns heap.current l.3 in
    let step = loop-step heap fuel m a n free l.0 (omega arith) in
    elim (Bool-cases (marked_at m a)) [
      | inl e ↦
          let v = set_forward_part (m (a + 8)) free in
          let m1 : Mem = write m (a + 8) v in
          let far : a + 8 < a + block n = omega arith in
          let r =
            loop-Computed heap fuel m1 (a + block n) (free + block n) ns
              (Layout-write m (a + 8) v (a + block n) ns heap.current far l.3) (omega arith)
              (omega arith) in
          let same = live_bytes-write m (a + 8) v (a + block n) ns far in
          let sum : free + block n + live_bytes m (a + block n) ns
              ≡ free + (block n + live_bytes m (a + block n) ns) =
            omega arith in
          (
            r.0,
            step ∙ rw (e, r.1, same, sum) refl,
            (
              (
                rw e (r.2.1 (a + 8) (OffSlots-below (a + block n) ns (a + 8) far) ∙ ground arith),
                k,
                rw e (Located-write m (a + 8) v r.0 (a + block n) ns (free + block n) far r.2.0),
              ),
              λ b o. r.2.1 b o.1 ∙ ground arith,
            ),
          )
      | inr e ↦
          let r = loop-Computed heap fuel m (a + block n) free ns l.3 (omega arith) (omega arith) in
          let sum : free + 0 ≡ free = omega arith in
          let rest = live_bytes m (a + block n) ns in
          let none_here : 0 + rest ≡ rest = omega arith in
          (
            r.0,
            step ∙ rw (e, r.1, none_here) refl,
            (
              (
                rw e (r.2.1 (a + 8) (OffSlots-below (a + block n) ns (a + 8) (omega arith))),
                k,
                rw (e, sum) r.2.0,
              ),
              λ b o. r.2.1 b o.1,
            ),
          )
    ]

pub live_bytes_words :
    (m : Mem) (a : ℕ) (ns : List ℕ) → live_bytes m a ns / 8 * 8 ≡ live_bytes m a ns
live_bytes_words m a [] = refl
live_bytes_words m a (n ∷ ns) = ground (arith, live_bytes_words m (a + block n) ns)

-- On a heap that is a row of objects compute_locations ends, returns the words of the marked
-- objects, and gives each marked object as forward address the place that it has when the marked
-- objects are moved together in order, not above its own; no other word changes.
pub compute_locations_lem :
    (heap : Chunk) (m : Mem) (ns : List ℕ)
    → Layout m heap.begin ns heap.current
    → (m' : Mem) × (compute_locations heap m ≡ ok (m', live_bytes m heap.begin ns / 8))
      × Computed m heap.begin ns heap.begin m'
unfolding compute_locations heap_begin_iterator
compute_locations_lem heap m ns l =
    let le = Layout-le m heap.begin ns heap.current l in
    let r =
      loop-Computed heap (rounds heap) m heap.begin heap.begin ns l (omega arith) (omega arith) in
    let live = live_bytes m heap.begin ns in
    let sum : heap.begin + live - heap.begin ≡ live = omega arith in (r.0, rw (r.1, sum) refl, r.2)
