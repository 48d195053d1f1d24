-- ===== src/Gc/Bump.antt =====
-- Start and end of the collector, and allocation where the heap has room.
use lama_rv_workshop.Base.{ℕ, ◌+◌, ◌*◌, leb, if◌then◌else◌, Option, none, some, []}
use lama_rv_workshop.Gc.State.{clear, State}

abbrev pub minimum_heap_capacity : ℕ
minimum_heap_capacity = 64

-- `gc_alloc_on_existing_heap`; `none` is NULL.
unfoldable pub gc_alloc_on_existing_heap : State → ℕ → State × Option ℕ
gc_alloc_on_existing_heap s size =
    let p = s.heap.current in
    if leb (p + size * 8) s.heap.end
    then (
      record s {
        heap = record (s.heap) { current = p + size * 8 };
        mem = clear s.mem p (size * 8);
      },
      some p,
    )
    else (s, none)

-- `__init`, given what `mmap` returns; `none` is MAP_FAILED, after which the process exits.
unfoldable pub init : Option ℕ → State → Option State
init none s = none
init (some p) s = some (record s {
  mem = clear s.mem p (minimum_heap_capacity * 8);
  heap = record {
    begin = p;
    end = p + minimum_heap_capacity * 8;
    current = p;
    size = minimum_heap_capacity;
  };
  roots = [];
})

-- `__shutdown`; that the old heap is unmapped is not modelled.
unfoldable pub shutdown : State → State
shutdown s = record s {
  heap = record { begin = 0; end = 0; current = 0; size = 0 };
  stack_top = 0;
  stack_bottom = 0;
}
