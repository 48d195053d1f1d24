-- ===== src/Tests/Values.antt =====
-- Values of runtime/runtime.c: integers, names of constructors, hashes.
use lama_rv_workshop.Base.{ℕ, ◌-◌, ◌^◌, ◌<◌, ◌≡◌, ◌≢◌, refl, arith, not, List, [], ◌∷◌, take, All}
use lama_rv_workshop.Base.Int.{pos, negsuc, ◌+ℤ◌, ◌-ℤ◌, ◌*ℤ◌, quot, rem, ltb_ℤ, eqb_ℤ, ◌<ℤ◌}
use lama_rv_workshop.Base.Outcome.{ok}
use lama_rv_workshop.Runtime.Value.{box}
use lama_rv_workshop.Runtime.Infix.{
  infix_or, infix_and, infix_eq, infix_ne, infix_le, infix_lt, infix_ge, infix_gt, infix_plus,
  infix_minus, infix_times, infix_div, infix_rem, box_int, box_bool, int_of,
}
use lama_rv_workshop.Runtime.Infix.Laws.{
  infix_ring, infix_order, infix_division, infix_checks, refused, distance,
}
use lama_rv_workshop.Runtime.TagHash.{
  tag_hash, de_hash, char_pos, hash_loop, de_hash_loop, strncmp_eq,
}
use lama_rv_workshop.Runtime.TagHash.Laws.{InAlphabet, tag_hash_total, tag_hash-injective}
use lama_rv_workshop.Runtime.TagHash.Underscore.{tag_hash-underscore}
use lama_rv_workshop.Runtime.Compare.{compare, flat_compare}
use lama_rv_workshop.Runtime.Compare.Laws.{compare_ints, compare_wraps, flat_compare-boxed}
use lama_rv_workshop.Runtime.Hash.{hash_append, lhash, inner_hash}
use lama_rv_workshop.Runtime.Hash.Laws.{lhash_small}
use lama_rv_workshop.Base.Word.{sub_word}
use lama_rv_workshop.Tests.Collector.{small_heap, small_mem}

infix_ring_example :
    (infix_plus (box_int (pos 7)) (box_int (negsuc 2)) ≡ ok (box_int (pos 7 +ℤ negsuc 2)))
    × (infix_minus (box_int (pos 7)) (box_int (negsuc 2)) ≡ ok (box_int (pos 7 -ℤ negsuc 2)))
    × (infix_times (box_int (pos 7)) (box_int (negsuc 2)) ≡ ok (box_int (pos 7 *ℤ negsuc 2)))
infix_ring_example =
    infix_ring (pos 7) (negsuc 2) (omega arith, omega arith) (omega arith, omega arith)

infix_order_example :
    (infix_lt (box_int (pos 7)) (box_int (negsuc 2)) ≡ ok (box_bool (ltb_ℤ (pos 7) (negsuc 2))))
    × (infix_le (box_int (pos 7)) (box_int (negsuc 2))
        ≡ ok (box_bool (not (ltb_ℤ (negsuc 2) (pos 7)))))
    × (infix_gt (box_int (pos 7)) (box_int (negsuc 2)) ≡ ok (box_bool (ltb_ℤ (negsuc 2) (pos 7))))
    × (infix_ge (box_int (pos 7)) (box_int (negsuc 2))
        ≡ ok (box_bool (not (ltb_ℤ (pos 7) (negsuc 2)))))
    × (infix_eq (box_int (pos 7)) (box_int (negsuc 2)) ≡ ok (box_bool (eqb_ℤ (pos 7) (negsuc 2))))
    × (infix_ne (box_int (pos 7)) (box_int (negsuc 2))
        ≡ ok (box_bool (not (eqb_ℤ (pos 7) (negsuc 2)))))
infix_order_example =
    infix_order (pos 7) (negsuc 2) (omega arith, omega arith) (omega arith, omega arith)

infix_division_example :
    (infix_div (box_int (negsuc 6)) (box_int (pos 2)) ≡ ok (box_int (quot (negsuc 6) (pos 2))))
    × (infix_rem (box_int (negsuc 6)) (box_int (pos 2)) ≡ ok (box_int (rem (negsuc 6) (pos 2))))
infix_division_example =
    infix_division (negsuc 6) (pos 2) (omega arith, omega arith) (omega arith, omega arith)
      (λ e. cc)

infix_checks_example :
    (infix_plus 4096 3 ≡ refused "captured +:1" "captured +:2" 4096)
    × (infix_times 4096 3 ≡ refused "captured *:1" "captured *:2" 4096)
    × (infix_div 4096 3 ≡ refused "captured /:1" "captured /:2" 4096)
    × (infix_rem 4096 3 ≡ refused "captured %:1" "captured %:2" 4096)
    × (infix_lt 4096 3 ≡ refused "captured <:1" "captured <:2" 4096)
    × (infix_le 4096 3 ≡ refused "captured <=:1" "captured <=:2" 4096)
    × (infix_gt 4096 3 ≡ refused "captured >:1" "captured >:2" 4096)
    × (infix_ge 4096 3 ≡ refused "captured >=:1" "captured >=:2" 4096)
    × (infix_ne 4096 3 ≡ refused "captured !=:1" "captured !=:2" 4096)
    × (infix_and 4096 3 ≡ refused "captured &&:1" "captured &&:2" 4096)
    × (infix_or 4096 3 ≡ refused "captured !!:1" "captured !!:2" 4096)
    × (infix_minus 4096 3 ≡ distance 4096 3)
infix_checks_example = infix_checks 4096 3 refl

-- The name `cons`, and `_x`.
abbrev cons : List ℕ
cons = 99 ∷ 111 ∷ 110 ∷ 115 ∷ []

abbrev hidden : List ℕ
hidden = 95 ∷ 120 ∷ []

cons-InAlphabet : All InAlphabet cons
unfolding char_pos
cons-InAlphabet = ((3, refl), ((15, refl), ((14, refl), ((19, refl), tt))))

hash_of_cons : tag_hash cons ≡ ok 1697575
unfolding tag_hash hash_loop de_hash de_hash_loop char_pos strncmp_eq
hash_of_cons = refl

tag_hash_total_example :
    (h : ℕ) × (h < 2 ^ 60) × (tag_hash cons ≡ ok (box h)) × (de_hash h ≡ ok (take 10 cons))
tag_hash_total_example = tag_hash_total cons cons-InAlphabet refl

tag_hash-injective_example : take 10 cons ≡ take 10 cons
tag_hash-injective_example = tag_hash-injective cons cons hash_of_cons hash_of_cons

tag_hash-underscore_example : tag_hash hidden ≢ ok 49
tag_hash-underscore_example = tag_hash-underscore hidden 49 refl

compare_ints_example :
    compare (λ s t. pos 0) small_heap small_mem 1 (box_int (pos 7)) (box_int (negsuc 2))
    ≡ ok (box_int (pos 7 -ℤ negsuc 2))
compare_ints_example =
    compare_ints (λ s t. pos 0) small_heap small_mem 0 (pos 7) (negsuc 2) (omega arith, omega arith)
      (omega arith, omega arith)

compare_wraps_example :
    (c : ℕ) × (compare
        (λ s t. pos 0)
        small_heap
        small_mem
        1
        (box_int (pos (2 ^ 62 - 1)))
        (box_int (negsuc 0))
      ≡ ok c)
    × (int_of c <ℤ pos 0)
unfolding ◌-ℤ◌
compare_wraps_example =
    compare_wraps (λ s t. pos 0) small_heap small_mem 0 (pos (2 ^ 62 - 1)) (negsuc 0)
      (omega arith, omega arith) (omega arith, omega arith) (omega arith)

flat_compare-boxed_example : flat_compare 4112 3 ≡ box (sub_word 4112 3)
flat_compare-boxed_example = flat_compare-boxed 4112 3 refl

hash_of_three : lhash 5 small_heap small_mem 7 ≡ ok 1
unfolding lhash inner_hash hash_append
hash_of_three = refl

lhash_small_example : lhash 5 small_heap small_mem (box 7) ≡ ok (box 0)
lhash_small_example = lhash_small 5 small_heap small_mem 7 (omega arith)
