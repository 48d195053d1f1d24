-- ===== src/Gc/Cycle.antt =====
-- An allocation by way of a collection: `gc_alloc` of runtime/gc.c.
use lama_rv_workshop.Base.{ℕ, ◌+◌, ◌*◌, ◌/◌, ◌<◌, ◌≤◌, ◌≡◌, ◌⊎◌, List, some}
use lama_rv_workshop.Base.Word.{word_mod}
use lama_rv_workshop.Base.Outcome.{ok}
use lama_rv_workshop.Gc.State.{State}
use lama_rv_workshop.Gc.Layout.{live_bytes}
use lama_rv_workshop.Gc.Mark.{mark_phase}
use lama_rv_workshop.Gc.Compact.Locations.{compute_locations_lem}
use lama_rv_workshop.Gc.Compact.Spec.{Compacts}
use lama_rv_workshop.Gc.Compact.Phase.{next_heap}
use lama_rv_workshop.Gc.Alloc.{gc_alloc}
use lama_rv_workshop.Gc.Alloc.Laws.{gc_alloc-room}
use lama_rv_workshop.Gc.Collect.{Collectable, Mapped, collect_lem, marked-Layout}

-- The words of the objects that are marked.
abbrev pub live_words : State → List ℕ → ℕ
live_words s ns = live_bytes s.mem s.heap.begin ns / 8

-- On a heap that is a row of objects with no queue and with no marks, or marks that are closed
-- under references, with all references of objects and of roots into it leading to objects: where,
-- for the state that the mark phase results in, the new mapping lies apart from the old heap and
-- from the roots, each word that is redirected is a root of the mark phase or no reference into
-- the heap, and twice the live words and those asked for fit a word, gc_alloc ends and never
-- returns NULL. It returns the end of a row of the marked objects, which the compact phase makes
-- with headers and contents as they were and with references and roots led to the new places;
-- behind it is zeroed room for the words asked for, inside the mapping, and all other memory is as
-- the compact phase leaves it.
pub gc_alloc_lem :
    (s s1 : State) (ns : List ℕ) (begin size : ℕ)
    → Collectable s ns
    → mark_phase s ≡ ok s1
    → Mapped s (next_heap s1 ns begin size)
    → live_words s1 ns * 2 + size < word_mod
    → (s2 s' : State) × (gc_alloc (some begin) size s ≡ ok (s', some s2.heap.current))
      × Compacts s1 ns s.heap (next_heap s1 ns begin size) s2
      × (s'.heap.current ≡ s2.heap.current + size * 8)
      × (s'.heap.current ≤ s'.heap.end)
      × ((b : ℕ) → s2.heap.current ≤ b → b < s'.heap.current → s'.mem b ≡ 0)
      × ((b : ℕ) → (b < s2.heap.current) ⊎ (s'.heap.current ≤ b) → s'.mem b ≡ s2.mem b)
gc_alloc_lem s s1 ns begin size c marked mapped fits =
    let (s2, compacted, kept) = collect_lem s s1 ns begin size c marked mapped in
    let located = compute_locations_lem s1.heap s1.mem ns (marked-Layout s s1 ns c marked) in
    let live = live_words s1 ns in
    let room =
      gc_alloc-room (some begin) size live s s1 s2 located.0 marked compacted located.1 fits in
    (s2, room.0, room.1, kept, room.2, room.3, room.4, room.5)
