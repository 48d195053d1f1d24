-- ===== src/Runtime/Hash/Laws.antt =====
-- `HASH_APPEND` loses nothing of what it appends.
use lama_rv_workshop.Base.{ℕ, ◌+◌, ◌*◌, ◌/◌, ◌%◌, ◌^◌, ◌<◌, ◌≡◌, refl, true, arith}
use lama_rv_workshop.Base.Word.{word_mod}
use lama_rv_workshop.Base.Outcome.{ok}
use lama_rv_workshop.Runtime.Value.{is_unboxed, unbox, box}
use lama_rv_workshop.Runtime.Hash.{hash_append, inner_hash, lhash}
use lama_rv_workshop.Gc.State.{Mem, Chunk}

-- From a given hash, two words that are appended with the same result are the same.
pub hash_append-injective :
    (acc x y : ℕ) → x < word_mod → y < word_mod → hash_append acc x ≡ hash_append acc y → x ≡ y
unfolding hash_append
hash_append-injective acc x y hx hy h = omega arith

-- All integers from 0 to 2 ^ 32 - 1 have the hash 0.
pub lhash_small :
    (fuel : ℕ) (heap : Chunk) (m : Mem) (n : ℕ)
    → n < 2 ^ 32
    → lhash fuel heap m (box n) ≡ ok (box 0)
unfolding lhash inner_hash hash_append
lhash_small fuel heap m n h =
    let unboxed : is_unboxed (box n) ≡ true = ground arith in
    let back : unbox (box n) ≡ n = ground arith in
    let low : ((0 + n) % 2 ^ 64 * 2 ^ 32 % 2 ^ 64 + (0 + n) % 2 ^ 64 / 2 ^ 32) % 2 ^ 22 ≡ 0 =
      omega arith in
    rw (unboxed, back, low) refl
