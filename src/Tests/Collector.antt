-- ===== src/Tests/Collector.antt =====
-- A small heap for runtime/gc.c: a marked array of one element at 4096, and behind it a string of
-- three characters that is not marked.
use lama_rv_workshop.Base.{◌/◌, ◌≡◌, refl, arith, ◌==◌, [], ◌∷◌, if◌then◌else◌, none}
use lama_rv_workshop.Base.Outcome.{ok}
use lama_rv_workshop.Runtime.Value.{array_tag}
use lama_rv_workshop.Gc.State.{Mem, Chunk, State}
use lama_rv_workshop.Gc.Object.{obj_size_header_ptr, get_type_header_ptr, array_size}
use lama_rv_workshop.Gc.Layout.{Layout, live_bytes}
use lama_rv_workshop.Gc.Compact.{compute_locations}
use lama_rv_workshop.Gc.Compact.Locations.{Computed, compute_locations_lem}
use lama_rv_workshop.Gc.Alloc.{alloc_array}
use lama_rv_workshop.Gc.Alloc.Laws.{Fresh, alloc_array-Fresh}

abbrev pub small_mem : Mem
small_mem b =
    if b == 4096
    then 11
    else (if b == 4104
        then 1
        else (if b == 4112
            then 7
            else (if b == 4120
                then 25
                else (if b == 8192 then 21 else (if b == 8200 then 43 else 0)))))

abbrev pub small_heap : Chunk
small_heap = record { begin = 4096; end = 4608; current = 4144; size = 64 }

abbrev pub small_state : State
small_state = record {
  mem = small_mem;
  heap = small_heap;
  roots = [];
  stack_top = 16384;
  stack_bottom = 16448;
  globals_start = 20480;
  globals_stop = 20480;
}

pub small-Layout : Layout small_mem 4096 (24 ∷ 20 ∷ []) 4144
unfolding obj_size_header_ptr get_type_header_ptr
small-Layout = (refl, omega arith, omega arith, (refl, omega arith, omega arith, refl))

compute_locations_lem_example :
    (m' : Mem) × (compute_locations small_heap small_mem
      ≡ ok (m', live_bytes small_mem 4096 (24 ∷ 20 ∷ []) / 8))
    × Computed small_mem 4096 (24 ∷ 20 ∷ []) 4096 m'
compute_locations_lem_example =
    compute_locations_lem small_heap small_mem (24 ∷ 20 ∷ []) small-Layout

live_test : live_bytes small_mem 4096 (24 ∷ 20 ∷ []) ≡ 24
live_test = refl

alloc_array-Fresh_example :
    (s' : State) × (alloc_array none 2 small_state ≡ ok (s', 4144))
    × Fresh small_state (24 ∷ 20 ∷ []) (array_size 2) array_tag 2 s'
alloc_array-Fresh_example =
    alloc_array-Fresh none small_state (24 ∷ 20 ∷ []) 2 small-Layout (omega arith) (omega arith)
