-- ===== src/Gc/Compact.antt =====
-- The compaction phase: LISP2.
pub mod Locations
pub mod Relocate
pub mod Redirect
pub mod Fields
pub mod Objects
pub mod Row
pub mod References
pub mod Twin
pub mod Copy
pub mod Preserved
pub mod Places
pub mod Spec
pub mod Phase
use Prim.Native.Nat.{max}
use mathlib.Core.List.{reverse}
use lama_rv_workshop.Base.{
  ℕ, zero, suc, ◌+◌, ◌-◌, ◌*◌, ◌/◌, ◌%◌, Bool, ◌&&◌, ◌||◌, ltb, leb, if◌then◌else◌, Option, none,
  some, List, [], ◌∷◌,
}
use lama_rv_workshop.Base.Word.{word_mod, sub_word}
use lama_rv_workshop.Base.Outcome.{Outcome, ok, fault, out_of_fuel, ◌>>=◌}
use lama_rv_workshop.Gc.State.{Mem, write, clear, move, Chunk, State}
use lama_rv_workshop.Gc.Object.{
  get_type_row_ptr, get_header_size, get_object_content_ptr, obj_size_header_ptr, bytes_to_words,
  get_forward_address, set_forward_address, is_marked, unmark_object, is_valid_pointer,
  heap_begin_iterator, heap_next_obj_iterator, heap_is_done_iterator,
}
use lama_rv_workshop.Gc.Field.{
  FieldIterator, field_is_done_iterator, ptr_field_begin_iterator, obj_next_ptr_field_iterator,
}
use lama_rv_workshop.Gc.Bump.{minimum_heap_capacity}
use lama_rv_workshop.Gc.Mark.{rounds, words_between}

abbrev pub extra_room_heap_coefficient : ℕ
extra_room_heap_coefficient = 2

-- The loop of `compute_locations`, from the object at `it` and with the next free address.
unfoldable pub compute_loop : Chunk → ℕ → Mem → ℕ → ℕ → Outcome (Mem × ℕ)
compute_loop heap zero m it free_ptr = out_of_fuel
compute_loop heap (suc fuel) m it free_ptr =
    if heap_is_done_iterator heap it then ok (m, free_ptr) else do
      obj_content ← get_object_content_ptr m it
      size ← obj_size_header_ptr m it
      let marked = is_marked m obj_content
      let m' = if marked then set_forward_address m obj_content free_ptr else m
      next ← heap_next_obj_iterator m' it
      compute_loop heap fuel m' next
          (if marked then free_ptr + bytes_to_words size * 8 else free_ptr)

-- Memory, and the words that the live objects take.
unfoldable pub compute_locations : Chunk → Mem → Outcome (Mem × ℕ)
compute_locations heap m = do
  (m', free_ptr) ← compute_loop heap (rounds heap) m (heap_begin_iterator heap) heap.begin
  ok (m', (free_ptr - heap.begin) / 8)

module _ (old_heap heap : Chunk) where
  -- A pointer into the old heap, moved to where its object will be.
  unfoldable pub new_reference : Mem → ℕ → Outcome ℕ
  new_reference m ptr_value = do
    let obj_ptr = heap.begin + (ptr_value - old_heap.begin)
    let new_addr = sub_word (heap.begin + get_forward_address m obj_ptr) old_heap.begin
    t ← get_type_row_ptr m obj_ptr
    ok (new_addr + get_header_size t)

  abbrev pub in_old_heap : ℕ → Bool
  in_old_heap p = leb old_heap.begin p && leb p old_heap.current

  -- The body of `scan_and_fix_region`.
  unfoldable pub fix_word : Mem → ℕ → Outcome Mem
  fix_word m ptr =
      if is_valid_pointer (m ptr) && in_old_heap (m ptr)
      then (do new ← new_reference m (m ptr); ok (write m ptr new))
      else ok m

  -- `scan_and_fix_region`, over the words left.
  unfoldable pub fix_words : ℕ → ℕ → Mem → Outcome Mem
  fix_words zero ptr m = ok m
  fix_words (suc left) ptr m = do m' ← fix_word m ptr; fix_words left (ptr + 8) m'

  unfoldable pub scan_and_fix_region : ℕ → ℕ → Mem → Outcome Mem
  scan_and_fix_region start end m = fix_words (words_between start end) start m

  -- A root that lies on the stack or among the globals was fixed with them.
  abbrev pub fixed_before : State → ℕ → Bool
  fixed_before s root =
      (leb s.stack_top root && ltb root s.stack_bottom)
      || (leb root s.globals_stop && leb s.globals_start root)

  unfoldable pub scan_and_fix_region_roots : State → List ℕ → Mem → Outcome Mem
  scan_and_fix_region_roots s [] m = ok m
  scan_and_fix_region_roots s (root ∷ roots) m = do
    m' ← if fixed_before s root then ok m else fix_word m root
    scan_and_fix_region_roots s roots m'

  -- The loop over the pointers of one object.
  unfoldable pub update_fields : ℕ → Mem → FieldIterator → Outcome Mem
  update_fields zero m it = out_of_fuel
  update_fields (suc fuel) m it = do
    over ← field_is_done_iterator m it
    if over then ok m else do
      m' ←
          if in_old_heap (m it.cur_field)
          then (do new ← new_reference m (m it.cur_field); ok (write m it.cur_field new))
          else ok m
      it' ← obj_next_ptr_field_iterator (rounds heap) m' it
      update_fields fuel m' it'

  unfoldable pub update_objects : ℕ → Mem → ℕ → Outcome Mem
  update_objects zero m it = out_of_fuel
  update_objects (suc fuel) m it = if heap_is_done_iterator heap it then ok m else do
    obj_content ← get_object_content_ptr m it
    m' ←
        if is_marked m obj_content
        then (do
          fields ← ptr_field_begin_iterator (rounds heap) m it
          update_fields (rounds heap) m fields)
        else ok m
    next ← heap_next_obj_iterator m' it
    update_objects fuel m' next

  -- The heap's fields, the stack, the extra roots and the globals, in this order. The stack's word
  -- at `stack_bottom` is among those that are fixed.
  unfoldable pub update_references : State → Mem → Outcome Mem
  update_references s m = do
    m1 ← update_objects (rounds heap) m (heap_begin_iterator heap)
    m2 ← scan_and_fix_region (s.stack_top + 8) (s.stack_bottom + 8) m1
    m3 ← scan_and_fix_region_roots s (reverse s.roots) m2
    scan_and_fix_region s.globals_start s.globals_stop m3

  -- The move of one object that is marked.
  unfoldable pub relocate_object : Mem → ℕ → ℕ → Outcome Mem
  relocate_object m it obj = do
    let to = sub_word (heap.begin + get_forward_address m obj) old_heap.begin
    size ← obj_size_header_ptr m it
    let m' = move m to it size
    content ← get_object_content_ptr m' to
    ok (unmark_object m' content)

  unfoldable pub relocate_loop : ℕ → Mem → ℕ → Outcome Mem
  relocate_loop zero m it = out_of_fuel
  relocate_loop (suc fuel) m it = if heap_is_done_iterator heap it then ok m else do
    obj ← get_object_content_ptr m it
    next ← heap_next_obj_iterator m it
    m' ← if is_marked m obj then relocate_object m it obj else ok m
    relocate_loop fuel m' next

  unfoldable pub physically_relocate : Mem → Outcome Mem
  physically_relocate m = relocate_loop (rounds heap) m (heap_begin_iterator heap)

-- The words of the next heap.
abbrev pub next_heap_pseudo_size : Chunk → ℕ → ℕ → ℕ
next_heap_pseudo_size old live_size additional_size =
    let next_heap_size =
      max ((live_size * extra_room_heap_coefficient + additional_size) % word_mod)
        minimum_heap_capacity in
    max next_heap_size old.size

-- `memcpy(to, from, n)` into fresh memory, which `mmap` has filled with zeros.
abbrev pub copy_heap : Mem → ℕ → ℕ → ℕ → ℕ → Mem
copy_heap m to length from n = move (clear m to length) to from n

-- The heap's chunk right after the new mapping has been made.
abbrev pub next_chunk : Chunk → ℕ → ℕ → Chunk
next_chunk old_heap begin pseudo_size = record {
  begin = begin;
  end = begin + pseudo_size * 8;
  current = begin + (old_heap.current - old_heap.begin);
  size = pseudo_size;
}

-- The rest of `compact_phase`, with the new mapping at `begin`.
-- That the old heap is unmapped at the end is not modelled.
unfoldable pub compact_into : State → ℕ → ℕ → ℕ → Mem → Outcome State
compact_into s begin pseudo_size live_size m1 = do
  let old_heap = s.heap
  let heap = next_chunk old_heap begin pseudo_size
  let m2 = copy_heap m1 begin (pseudo_size * 8) old_heap.begin (old_heap.size * 8)
  m3 ← update_references old_heap heap s m2
  m4 ← physically_relocate old_heap heap m3
  ok (record s { mem = m4; heap = record heap { current = begin + live_size * 8 } })

-- What follows `compute_locations`, given what `mmap` returns; `none` is MAP_FAILED. The old heap is
-- copied before that is tested, so a failure of `mmap` is a write through an invalid pointer.
unfoldable pub compact_to : State → ℕ → Option ℕ → Mem × ℕ → Outcome State
compact_to s additional_size none (m1, live_size) = fault
compact_to s additional_size (some begin) (m1, live_size) =
    compact_into s begin (next_heap_pseudo_size s.heap live_size additional_size) live_size m1

unfoldable pub compact_phase : Option ℕ → ℕ → State → Outcome State
compact_phase mapping additional_size s = do
  located ← compute_locations s.heap s.mem
  compact_to s additional_size mapping located
