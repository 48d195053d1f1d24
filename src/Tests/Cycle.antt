-- ===== src/Tests/Cycle.antt =====
-- A whole collection on the small heap: the array is reached from the stack, the string is not
-- reached, and the next mapping is at 65536.
use lama_rv_workshop.Base.{◌%◌, ◌≡◌, refl, some}
use lama_rv_workshop.Base.Outcome.{Outcome, ok}
use lama_rv_workshop.Gc.State.{write, State}
use lama_rv_workshop.Gc.Object.{
  get_type_header_ptr, get_type_row_ptr, obj_size_header_ptr, obj_size_row_ptr, get_obj_header_ptr,
  get_object_content_ptr, get_end_of_obj, get_forward_address, set_forward_address, is_marked,
  mark_object, unmark_object, is_enqueued, make_enqueued, make_dequeued, is_valid_pointer,
  is_valid_heap_pointer, heap_begin_iterator, heap_next_obj_iterator, heap_is_done_iterator,
}
use lama_rv_workshop.Gc.Field.{
  field_begin_iterator, field_is_done_iterator, obj_next_field_iterator,
  obj_next_ptr_field_iterator, ptr_field_begin_iterator,
}
use lama_rv_workshop.Gc.Compact.{
  compute_loop, compute_locations, new_reference, fix_word, fix_words, scan_and_fix_region,
  scan_and_fix_region_roots, update_fields, update_objects, update_references, relocate_object,
  relocate_loop, physically_relocate, compact_into, compact_to, compact_phase,
}
use lama_rv_workshop.Gc.Mark.{
  queue_enqueue, queue_dequeue, visit, mark_fields, mark_loop, mark, gc_test_and_mark_root,
  mark_words, mark_roots, gc_root_scan_stack, scan_extra_roots, scan_global_area, mark_phase,
}
use lama_rv_workshop.Tests.Collector.{small_mem, small_state}

abbrev outcome_of : Outcome State → State
outcome_of (ok s) = s
outcome_of _ = small_state

abbrev cycle_state : State
cycle_state = record small_state { mem = write (write small_mem 4104 0) 16392 4112 }

abbrev marked_state : State
marked_state = outcome_of (mark_phase cycle_state)

abbrev compacted_state : State
compacted_state = outcome_of (compact_phase (some 65536) 4 marked_state)

marks : mark_phase cycle_state ≡ ok marked_state
unfolding queue_enqueue queue_dequeue visit mark_fields mark_loop mark gc_test_and_mark_root
    mark_words mark_roots gc_root_scan_stack scan_extra_roots scan_global_area mark_phase
    field_begin_iterator field_is_done_iterator obj_next_field_iterator obj_next_ptr_field_iterator
    ptr_field_begin_iterator get_type_header_ptr get_type_row_ptr obj_size_header_ptr
    obj_size_row_ptr get_obj_header_ptr get_object_content_ptr get_end_of_obj get_forward_address
    set_forward_address is_marked mark_object unmark_object is_enqueued make_enqueued make_dequeued
    is_valid_pointer is_valid_heap_pointer heap_begin_iterator heap_next_obj_iterator
    heap_is_done_iterator compute_loop compute_locations new_reference fix_word fix_words
    scan_and_fix_region scan_and_fix_region_roots update_fields update_objects update_references
    relocate_object relocate_loop physically_relocate compact_into compact_to compact_phase
marks = refl

compacts : compact_phase (some 65536) 4 marked_state ≡ ok compacted_state
unfolding queue_enqueue queue_dequeue visit mark_fields mark_loop mark gc_test_and_mark_root
    mark_words mark_roots gc_root_scan_stack scan_extra_roots scan_global_area mark_phase
    field_begin_iterator field_is_done_iterator obj_next_field_iterator obj_next_ptr_field_iterator
    ptr_field_begin_iterator get_type_header_ptr get_type_row_ptr obj_size_header_ptr
    obj_size_row_ptr get_obj_header_ptr get_object_content_ptr get_end_of_obj get_forward_address
    set_forward_address is_marked mark_object unmark_object is_enqueued make_enqueued make_dequeued
    is_valid_pointer is_valid_heap_pointer heap_begin_iterator heap_next_obj_iterator
    heap_is_done_iterator compute_loop compute_locations new_reference fix_word fix_words
    scan_and_fix_region scan_and_fix_region_roots update_fields update_objects update_references
    relocate_object relocate_loop physically_relocate compact_into compact_to compact_phase
compacts = refl

-- The reference on the stack, the header, the mark and the element of the array that was moved.
moved :
    (compacted_state.mem 16392 ≡ 65552)
    × (compacted_state.mem 65536 ≡ 11)
    × (compacted_state.mem 65544 % 4 ≡ 0)
    × (compacted_state.mem 65552 ≡ 7)
    × (compacted_state.heap.current ≡ 65560)
unfolding queue_enqueue queue_dequeue visit mark_fields mark_loop mark gc_test_and_mark_root
    mark_words mark_roots gc_root_scan_stack scan_extra_roots scan_global_area mark_phase
    field_begin_iterator field_is_done_iterator obj_next_field_iterator obj_next_ptr_field_iterator
    ptr_field_begin_iterator get_type_header_ptr get_type_row_ptr obj_size_header_ptr
    obj_size_row_ptr get_obj_header_ptr get_object_content_ptr get_end_of_obj get_forward_address
    set_forward_address is_marked mark_object unmark_object is_enqueued make_enqueued make_dequeued
    is_valid_pointer is_valid_heap_pointer heap_begin_iterator heap_next_obj_iterator
    heap_is_done_iterator compute_loop compute_locations new_reference fix_word fix_words
    scan_and_fix_region scan_and_fix_region_roots update_fields update_objects update_references
    relocate_object relocate_loop physically_relocate compact_into compact_to compact_phase
moved = (refl, refl, refl, refl, refl)
