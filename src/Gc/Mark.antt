-- ===== src/Gc/Mark.antt =====
-- The mark phase. The queue of objects to visit needs no memory of its own: its n-th entry is kept
-- in the forward address of the heap's n-th object, so its ends are iterators over the heap.
pub mod Row
pub mod Queue
pub mod Visit
pub mod Scan
pub mod Dequeue
pub mod Loop
pub mod Phase
use lama_rv_workshop.Base.{
  ℕ, zero, suc, ◌+◌, ◌-◌, ◌/◌, not, ◌||◌, ◌==◌, if◌then◌else◌, List, [], ◌∷◌,
}
use mathlib.Core.List.{reverse}
use lama_rv_workshop.Base.Outcome.{Outcome, ok, out_of_fuel, ◌>>=◌}
use lama_rv_workshop.Gc.State.{Mem, Chunk, State}
use lama_rv_workshop.Gc.Object.{
  get_object_content_ptr, get_obj_header_ptr, get_forward_address, set_forward_address, is_marked,
  mark_object, is_enqueued, make_enqueued, make_dequeued, is_valid_heap_pointer,
  heap_begin_iterator, heap_next_obj_iterator,
}
use lama_rv_workshop.Gc.Field.{
  FieldIterator, field_is_done_iterator, ptr_field_begin_iterator, obj_next_ptr_field_iterator,
}

-- No loop over the heap or over an object takes more rounds than the heap has bytes.
abbrev pub rounds : Chunk → ℕ
rounds heap = heap.current - heap.begin + 1

-- Memory and the tail iterator after the call.
unfoldable pub queue_enqueue : Mem → ℕ → ℕ → Outcome (Mem × ℕ)
queue_enqueue m tail obj = do
  tail_content ← get_object_content_ptr m tail
  let m' = make_enqueued (set_forward_address m tail_content obj) obj
  next ← heap_next_obj_iterator m' tail
  ok (m', next)

-- Memory, the head iterator and the entry after the call.
unfoldable pub queue_dequeue : Mem → ℕ → Outcome (Mem × ℕ × ℕ)
queue_dequeue m head = do
  head_content ← get_object_content_ptr m head
  let value = get_forward_address m head_content
  let m' = make_dequeued m value
  next ← heap_next_obj_iterator m' head
  ok (m', next, value)

module _ (heap : Chunk) where
  -- The body of the loop over an object's pointers: the test and `queue_enqueue`.
  unfoldable pub visit : Mem → ℕ → ℕ → Outcome (Mem × ℕ)
  visit m tail value =
      if not (is_valid_heap_pointer heap value) || is_marked m value || is_enqueued m value
      then ok (m, tail)
      else queue_enqueue m tail value

  unfoldable pub mark_fields : ℕ → Mem → ℕ → FieldIterator → Outcome (Mem × ℕ)
  mark_fields zero m tail it = out_of_fuel
  mark_fields (suc fuel) m tail it = do
    over ← field_is_done_iterator m it
    if over then ok (m, tail) else do
      (m', tail') ← visit m tail (m it.cur_field)
      it' ← obj_next_ptr_field_iterator (rounds heap) m' it
      mark_fields fuel m' tail' it'

  -- The `while` over the queue.
  unfoldable pub mark_loop : ℕ → Mem → ℕ → ℕ → Outcome Mem
  mark_loop zero m head tail = out_of_fuel
  mark_loop (suc fuel) m head tail = if head == tail then ok m else do
    (m1, head', cur_obj) ← queue_dequeue m head
    let m2 = mark_object m1 cur_obj
    header_ptr ← get_obj_header_ptr m2 cur_obj
    it ← ptr_field_begin_iterator (rounds heap) m2 header_ptr
    (m3, tail') ← mark_fields (rounds heap) m2 tail it
    mark_loop fuel m3 head' tail'

  unfoldable pub mark : Mem → ℕ → Outcome Mem
  mark m obj = if not (is_valid_heap_pointer heap obj) || is_marked m obj then ok m else do
    let head = heap_begin_iterator heap
    (m', tail) ← queue_enqueue m head obj
    mark_loop (rounds heap) m' head tail

  -- `gc_test_and_mark_root`
  unfoldable pub gc_test_and_mark_root : Mem → ℕ → Outcome Mem
  gc_test_and_mark_root m root = mark m (m root)

  -- `for (p = start; p < end; ++p) mark(*p)`, over the words left.
  unfoldable pub mark_words : ℕ → ℕ → Mem → Outcome Mem
  mark_words zero p m = ok m
  mark_words (suc left) p m = do m' ← gc_test_and_mark_root m p; mark_words left (p + 8) m'

  unfoldable pub mark_roots : List ℕ → Mem → Outcome Mem
  mark_roots [] m = ok m
  mark_roots (r ∷ rs) m = do m' ← mark m (m r); mark_roots rs m'

-- The words from `p` on that lie below `end`.
abbrev pub words_between : ℕ → ℕ → ℕ
words_between p end = (end - p + 7) / 8

unfoldable pub gc_root_scan_stack : State → Mem → Outcome Mem
gc_root_scan_stack s m =
    let p = s.stack_top + 8 in mark_words s.heap (words_between p s.stack_bottom) p m

unfoldable pub scan_extra_roots : State → Mem → Outcome Mem
scan_extra_roots s m = mark_roots s.heap (reverse s.roots) m

unfoldable pub scan_global_area : State → Mem → Outcome Mem
scan_global_area s m =
    mark_words s.heap (words_between s.globals_start s.globals_stop) s.globals_start m

unfoldable pub mark_phase : State → Outcome State
mark_phase s = do
  m1 ← gc_root_scan_stack s s.mem
  m2 ← scan_extra_roots s m1
  m3 ← scan_global_area s m2
  ok (record s { mem = m3 })
