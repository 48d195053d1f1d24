-- ===== src/Tests/Hashing.antt =====
-- The hash of an array of one string, in two heaps.
use lama_rv_workshop.Base.{◌≡◌, refl, inr, ◌==◌, if◌then◌else◌}
use lama_rv_workshop.Runtime.Pattern.{c_string}
use lama_rv_workshop.Runtime.Hash.{hash_calls, lhash}
use lama_rv_workshop.Runtime.Hash.Same.{Alike, arrays, texts, lhash-Alike}
use lama_rv_workshop.Gc.State.{Mem, Chunk}
use lama_rv_workshop.Gc.Object.{is_valid_heap_pointer}
use lama_rv_workshop.Tests.Collection.{three_mem, three_heap}

abbrev moved_mem : Mem
moved_mem b =
    if b == 12288
    then 11
    else (if b == 12304
        then 12328
        else (if b == 12312 then 25 else (if b == 12328 then 6513249 else 0)))

abbrev moved_heap : Chunk
moved_heap = record { begin = 12288; end = 12800; current = 12336; size = 64 }

moved-Alike : Alike 5 6 three_heap moved_heap three_mem moved_mem hash_calls 4112 12304
unfolding is_valid_heap_pointer c_string
moved-Alike = inr (
    inr (record {
      boxed = (refl, refl);
      inside = (refl, refl);
      tags = refl;
      lengths = refl;
      contents = arrays refl (
        inr (
            inr (record {
              boxed = (refl, refl);
              inside = (refl, refl);
              tags = refl;
              lengths = refl;
              contents = texts refl refl;
            })),
        tt,
      );
    }))

lhash-Alike_example : lhash 5 three_heap three_mem 4112 ≡ lhash 6 moved_heap moved_mem 12304
lhash-Alike_example =
    lhash-Alike 5 6 three_heap moved_heap three_mem moved_mem 4112 12304 moved-Alike
