-- ===== src/Tests/Collection.antt =====
-- A heap of three objects for the collector: an array at 4096, to which the stack leads, a string at
-- 4120, to which the array leads, and an empty array at 4144, to which nothing leads.
use lama_rv_workshop.Base.{
  ℕ, ◌+◌, ◌*◌, ◌<◌, ◌≤◌, ◌≡◌, refl, ◌≢◌, ◌⊎◌, ◌↔◌, inl, inr, true, false, arith, ◌==◌, List, [],
  ◌∷◌, if◌then◌else◌, some, true-false, sym, ◌∙◌,
}
use lama_rv_workshop.Base.Word.{word_mod}
use lama_rv_workshop.Base.Outcome.{Outcome, ok, ok-injective}
use lama_rv_workshop.Gc.State.{Mem, Chunk, State, write}
use lama_rv_workshop.Gc.Object.{
  get_type_header_ptr, get_type_row_ptr, obj_size_header_ptr, obj_size_row_ptr, get_obj_header_ptr,
  get_object_content_ptr, get_end_of_obj, get_forward_address, set_forward_address, is_marked,
  mark_object, unmark_object, is_enqueued, make_enqueued, make_dequeued, is_valid_pointer,
  is_valid_heap_pointer, heap_begin_iterator, heap_next_obj_iterator, heap_is_done_iterator,
}
use lama_rv_workshop.Gc.Field.{
  field_begin_iterator, field_is_done_iterator, obj_next_field_iterator,
  obj_next_ptr_field_iterator, ptr_field_begin_iterator,
}
use lama_rv_workshop.Gc.Compact.{
  compute_loop, compute_locations, new_reference, fix_word, fix_words, scan_and_fix_region,
  scan_and_fix_region_roots, update_fields, update_objects, update_references, relocate_object,
  relocate_loop, physically_relocate, compact_into, compact_to, compact_phase,
}
use lama_rv_workshop.Gc.Mark.{
  queue_enqueue, queue_dequeue, visit, mark_fields, mark_loop, mark, gc_test_and_mark_root,
  mark_words, mark_roots, gc_root_scan_stack, scan_extra_roots, scan_global_area, mark_phase,
}
use lama_rv_workshop.Gc.Layout.{Layout, marked_at}
use lama_rv_workshop.Gc.Compact.Relocate.{Placed, Compacted, physically_relocate_lem}
use lama_rv_workshop.Gc.Compact.References.{is_root}
use lama_rv_workshop.Gc.Compact.Spec.{Compactable, Compacts}
use lama_rv_workshop.Gc.Compact.Phase.{next_heap, compact_phase_lem}
use lama_rv_workshop.Gc.Compact.Fields.{in_words}
use lama_rv_workshop.Gc.Compact.Objects.{fields_from, is_live_field}
use lama_rv_workshop.Gc.Mark.Row.{At, enqueued_at}
use lama_rv_workshop.Gc.Mark.Loop.{WellFormed}
use lama_rv_workshop.Gc.Mark.Phase.{Clean, IsRoot, MarkedFrom, is_mark_root, mark_phase_lem}
use lama_rv_workshop.Gc.Alloc.{gc_alloc}
use lama_rv_workshop.Gc.Collect.{Collectable, Mapped}
use lama_rv_workshop.Gc.Cycle.{live_words, gc_alloc_lem}
use lama_rv_workshop.Gc.Reach.{Reachable, mark_phase-Reachable}

abbrev pub three_mem : Mem
three_mem b =
    if b == 4096
    then 11
    else (if b == 4112
        then 4136
        else (if b == 4120
            then 25
            else (if b == 4136
                then 6513249
                else (if b == 4144 then 3 else (if b == 16392 then 4112 else 0)))))

abbrev pub three_heap : Chunk
three_heap = record { begin = 4096; end = 4608; current = 4160; size = 64 }

abbrev pub three_sizes : List ℕ
three_sizes = 24 ∷ 20 ∷ 16 ∷ []

abbrev pub three_state : State
three_state = record {
  mem = three_mem;
  heap = three_heap;
  roots = [];
  stack_top = 16384;
  stack_bottom = 16400;
  globals_start = 20480;
  globals_stop = 20480;
}

three-Layout : Layout three_mem 4096 three_sizes 4160
unfolding obj_size_header_ptr get_type_header_ptr
three-Layout = (
  refl,
  omega arith,
  omega arith,
  (refl, omega arith, omega arith, (refl, omega arith, omega arith, refl)),
)

size_at :
    (n k o : ℕ)
    → obj_size_header_ptr three_mem o ≡ ok k
    → obj_size_header_ptr three_mem o ≡ ok n
    → n ≡ k
size_at n k o e f = ok-injective n k (sym f ∙ e)

array_field :
    (n b : ℕ)
    → obj_size_header_ptr three_mem 4096 ≡ ok n
    → in_words (fields_from three_mem 4096 n) (4096 + n) b ≡ true
    → b ≡ 4112
array_field n b sized h =
    let same = size_at n 24 4096 three-Layout.0 sized in
    let it : in_words 4112 4120 b ≡ true = rw same at h in ground arith

string_field :
    (n b : ℕ)
    → obj_size_header_ptr three_mem 4120 ≡ ok n
    → in_words (fields_from three_mem 4120 n) (4120 + n) b ≢ true
string_field n b sized h =
    let same = size_at n 20 4120 three-Layout.3.0 sized in
    let it : in_words 4140 4140 b ≡ true = rw same at h in ground arith

empty_field :
    (n b : ℕ)
    → obj_size_header_ptr three_mem 4144 ≡ ok n
    → in_words (fields_from three_mem 4144 n) (4144 + n) b ≢ true
empty_field n b sized h =
    let same = size_at n 16 4144 three-Layout.3.3.0 sized in
    let it : in_words 4160 4160 b ≡ true = rw same at h in ground arith

three-WellFormed : WellFormed three_heap three_mem three_sizes three-Layout refl
unfolding is_valid_heap_pointer
three-WellFormed o n b (inl e) sized h =
    let here = array_field n b (rw e at sized) (rw e at h) in rw here (4120, inr (inl refl), refl)
three-WellFormed o n b (inr (inl e)) sized h = absurd (string_field n b (rw e at sized) (rw e at h))
three-WellFormed o n b (inr (inr (inl e))) sized h =
    absurd (empty_field n b (rw e at sized) (rw e at h))
three-WellFormed o n b (inr (inr (inr none))) sized h = elim none [ ]

plain :
    (o : ℕ)
    → At 4096 three_sizes o
    → (marked_at three_mem o ≡ false) × (enqueued_at three_mem o ≡ false)
plain o (inl e) = rw e (refl, refl)
plain o (inr (inl e)) = rw e (refl, refl)
plain o (inr (inr (inl e))) = rw e (refl, refl)
plain o (inr (inr (inr none))) = elim none [ ]

three-Clean : Clean three_heap three_mem three_sizes three-Layout refl three-WellFormed three_mem
three-Clean = record {
  frame = λ b off. refl;
  closed = λ o at e. absurd (true-false _ e (plain o at).0);
  clear = λ o at. (plain o at).1;
}

three_roots :
    (b : ℕ)
    → is_mark_root three_state b ≡ true
    → IsRoot three_heap three_mem three_sizes three-Layout refl three-WellFormed b
unfolding is_valid_heap_pointer
three_roots b e =
    let here : b ≡ 16392 = ground arith in
    rw here ((λ f. omega arith, (λ f. omega arith, (λ f. omega arith, tt))), (4096, inl refl, refl))

three-Collectable : Collectable three_state three_sizes
three-Collectable = record {
  row = three-Layout;
  aligned = refl;
  wf = three-WellFormed;
  clean = three-Clean;
  roots = three_roots;
}

mark_phase_lem_example :
    (m' : Mem) × (mark_phase three_state ≡ ok (record three_state { mem = m' }))
    × MarkedFrom three_state three_sizes three-Layout refl three-WellFormed m'
mark_phase_lem_example =
    mark_phase_lem three_state three_sizes three-Layout refl three-WellFormed three-Clean
      three_roots

abbrev outcome_of : Outcome State → State
outcome_of (ok s) = s
outcome_of _ = three_state

abbrev marked_three : State
marked_three = outcome_of (mark_phase three_state)

marks_three : mark_phase three_state ≡ ok marked_three
unfolding queue_enqueue queue_dequeue visit mark_fields mark_loop mark gc_test_and_mark_root
    mark_words mark_roots gc_root_scan_stack scan_extra_roots scan_global_area mark_phase
    field_begin_iterator field_is_done_iterator obj_next_field_iterator obj_next_ptr_field_iterator
    ptr_field_begin_iterator get_type_header_ptr get_type_row_ptr obj_size_header_ptr
    obj_size_row_ptr get_obj_header_ptr get_object_content_ptr get_end_of_obj get_forward_address
    set_forward_address is_marked mark_object unmark_object is_enqueued make_enqueued make_dequeued
    is_valid_pointer is_valid_heap_pointer heap_begin_iterator heap_next_obj_iterator
    heap_is_done_iterator compute_loop compute_locations new_reference fix_word fix_words
    scan_and_fix_region scan_and_fix_region_roots update_fields update_objects update_references
    relocate_object relocate_loop physically_relocate compact_into compact_to compact_phase
marks_three = refl

mark_phase-Reachable_example : (marked_at marked_three.mem 4120 ≡ true) ↔ Reachable three_state 4120
mark_phase-Reachable_example =
    mark_phase-Reachable three_state marked_three three_sizes 4120 three-Collectable marks_three
      refl

live_three : live_words marked_three three_sizes ≡ 6
unfolding queue_enqueue queue_dequeue visit mark_fields mark_loop mark gc_test_and_mark_root
    mark_words mark_roots gc_root_scan_stack scan_extra_roots scan_global_area mark_phase
    field_begin_iterator field_is_done_iterator obj_next_field_iterator obj_next_ptr_field_iterator
    ptr_field_begin_iterator get_type_header_ptr get_type_row_ptr obj_size_header_ptr
    obj_size_row_ptr get_obj_header_ptr get_object_content_ptr get_end_of_obj get_forward_address
    set_forward_address is_marked mark_object unmark_object is_enqueued make_enqueued make_dequeued
    is_valid_pointer is_valid_heap_pointer heap_begin_iterator heap_next_obj_iterator
    heap_is_done_iterator compute_loop compute_locations new_reference fix_word fix_words
    scan_and_fix_region scan_and_fix_region_roots update_fields update_objects update_references
    relocate_object relocate_loop physically_relocate compact_into compact_to compact_phase
live_three = refl

abbrev three_next : Chunk
three_next = record { begin = 65536; end = 66048; current = 65600; size = 64 }

region_three :
    (b : ℕ) → is_root three_heap three_next three_state b ≡ true → (b ≡ 16392) ⊎ (b ≡ 16400)
region_three b e = ground arith

three-Mapped : Mapped three_state three_next
unfolding is_valid_pointer
three-Mapped = record {
  fits = omega arith;
  positive = omega arith;
  words = (omega arith, omega arith);
  apart = inl (omega arith);
  old_roots =
      λ b e. elim (region_three b e) [ inl f ↦ inr (omega arith) | inr f ↦ inr (omega arith) ];
  new_roots =
      λ b e. elim (region_three b e) [ inl f ↦ inl (omega arith) | inr f ↦ inl (omega arith) ];
  marked_roots =
      λ b e. elim (region_three b e) [ inl f ↦ inl (rw f refl) | inr f ↦ inr (rw f refl) ];
}

-- Both objects that are reached are marked.
abbrev loud_mem : Mem
loud_mem = write (write three_mem 4104 1) 4128 1

abbrev loud_state : State
loud_state = record three_state { mem = loud_mem }

loud_fields : (b : ℕ) → is_live_field loud_mem 4096 three_sizes b ≡ true → b ≡ 4112
loud_fields b e = ground arith

loud-Compactable : Compactable loud_state three_sizes three_heap three_next
unfolding is_valid_pointer obj_size_header_ptr get_type_header_ptr
loud-Compactable = record {
  row = (
    refl,
    omega arith,
    omega arith,
    (refl, omega arith, omega arith, (refl, omega arith, omega arith, refl)),
  );
  fits = omega arith;
  aligned = refl;
  positive = omega arith;
  words = (omega arith, omega arith);
  apart = inl (omega arith);
  old_roots = three-Mapped.old_roots;
  new_roots = three-Mapped.new_roots;
  fields = λ b e. rw (loud_fields b e) (inr (inl (refl, refl)));
  roots = λ b e. elim (region_three b e) [ inl f ↦ rw f (inl (refl, refl)) | inr f ↦ rw f tt ];
}

compact_phase_lem_example :
    (s' : State) × (compact_phase (some 65536) 4 loud_state ≡ ok s')
    × Compacts loud_state three_sizes three_heap (next_heap loud_state three_sizes 65536 4) s'
compact_phase_lem_example = compact_phase_lem loud_state three_sizes 65536 4 loud-Compactable

next_three : next_heap marked_three three_sizes 65536 4 ≡ three_next
unfolding queue_enqueue queue_dequeue visit mark_fields mark_loop mark gc_test_and_mark_root
    mark_words mark_roots gc_root_scan_stack scan_extra_roots scan_global_area mark_phase
    field_begin_iterator field_is_done_iterator obj_next_field_iterator obj_next_ptr_field_iterator
    ptr_field_begin_iterator get_type_header_ptr get_type_row_ptr obj_size_header_ptr
    obj_size_row_ptr get_obj_header_ptr get_object_content_ptr get_end_of_obj get_forward_address
    set_forward_address is_marked mark_object unmark_object is_enqueued make_enqueued make_dequeued
    is_valid_pointer is_valid_heap_pointer heap_begin_iterator heap_next_obj_iterator
    heap_is_done_iterator compute_loop compute_locations new_reference fix_word fix_words
    scan_and_fix_region scan_and_fix_region_roots update_fields update_objects update_references
    relocate_object relocate_loop physically_relocate compact_into compact_to compact_phase
next_three = refl

room_three : live_words marked_three three_sizes * 2 + 4 < word_mod
room_three = rw live_three (omega arith)

marked-Mapped : Mapped three_state (next_heap marked_three three_sizes 65536 4)
marked-Mapped = rw next_three three-Mapped

gc_alloc_lem_example :
    (s2 s' : State) × (gc_alloc (some 65536) 4 three_state ≡ ok (s', some s2.heap.current))
    × Compacts marked_three three_sizes three_heap (next_heap marked_three three_sizes 65536 4) s2
    × (s'.heap.current ≡ s2.heap.current + 4 * 8)
    × (s'.heap.current ≤ s'.heap.end)
    × ((b : ℕ) → s2.heap.current ≤ b → b < s'.heap.current → s'.mem b ≡ 0)
    × ((b : ℕ) → (b < s2.heap.current) ⊎ (s'.heap.current ≤ b) → s'.mem b ≡ s2.mem b)
gc_alloc_lem_example =
    gc_alloc_lem three_state marked_three three_sizes 65536 4 three-Collectable marks_three
      marked-Mapped room_three

-- Only the string is marked, and goes to where the array is.
abbrev gap_mem : Mem
gap_mem = write three_mem 4128 4097

gap-Layout : Layout gap_mem 4096 three_sizes 4160
unfolding obj_size_header_ptr get_type_header_ptr
gap-Layout = (
  refl,
  omega arith,
  omega arith,
  (refl, omega arith, omega arith, (refl, omega arith, omega arith, refl)),
)

gap-Placed : Placed three_heap three_heap gap_mem 4096 three_sizes 4096
gap-Placed = (tt, omega arith, (refl, omega arith, (tt, omega arith, tt)))

physically_relocate_lem_example :
    (m' : Mem) × (physically_relocate three_heap three_heap gap_mem ≡ ok m')
    × Compacted three_heap three_heap gap_mem 4096 three_sizes 4096 m'
physically_relocate_lem_example =
    physically_relocate_lem three_heap three_heap gap_mem three_sizes gap-Layout gap-Placed
