-- ===== src/Runtime/Hash.antt =====
-- `Lhash` of runtime/runtime.c.
pub mod Laws
pub mod Same
use lama_rv_workshop.Base.{
  ℕ, zero, suc, ◌+◌, ◌-◌, ◌*◌, ◌/◌, ◌%◌, ◌^◌, Bool, ◌==◌, if◌then◌else◌, List, [], ◌∷◌,
}
use lama_rv_workshop.Base.Word.{word_mod, add_word}
use lama_rv_workshop.Base.Outcome.{Outcome, ok, failure, message, ◌>>=◌}
use lama_rv_workshop.Runtime.Value.{
  is_unboxed, unbox, box, string_tag, array_tag, sexp_tag, closure_tag,
}
use lama_rv_workshop.Runtime.Access.{tag_at, len_at}
use lama_rv_workshop.Runtime.Pattern.{c_string}
use lama_rv_workshop.Gc.State.{Mem, Chunk}
use lama_rv_workshop.Gc.Object.{is_valid_heap_pointer}

-- `HASH_APPEND`: the sum, rotated by half a word.
unfoldable pub hash_append : ℕ → ℕ → ℕ
hash_append acc x = add_word acc x * 2 ^ 32 % word_mod + add_word acc x / 2 ^ 32

-- The calls that `HASH_DEPTH` allows.
abbrev pub hash_calls : ℕ
hash_calls = 4

unfoldable pub hash_bytes : List ℕ → ℕ → ℕ
hash_bytes [] acc = acc
hash_bytes (c ∷ cs) acc = hash_bytes cs (hash_append acc c)

module _ (fuel : ℕ) (heap : Chunk) (m : Mem) where
  -- The loop over the fields, given the recursive call.
  unfoldable pub hash_fields : (ℕ → ℕ → Outcome ℕ) → ℕ → ℕ → ℕ → Outcome ℕ
  hash_fields inner zero a acc = ok acc
  hash_fields inner (suc left) a acc = do
    acc' ← inner acc (m a)
    hash_fields inner left (a + 8) acc'

  -- The `switch` on the object's tag. `fuel` is for the end of a text.
  unfoldable pub hash_object : (ℕ → ℕ → Outcome ℕ) → ℕ → ℕ → ℕ → ℕ → Outcome ℕ
  hash_object inner t l p acc =
      if t == string_tag
      then (do s ← c_string fuel m p; ok (hash_bytes s acc))
      else if t == closure_tag
      then hash_fields inner (l - 1) (p + 8) (hash_append acc (m p))
      else if t == array_tag
      then hash_fields inner l p acc
      else if t == sexp_tag
      then hash_fields inner l (p + 8) (hash_append acc (m p))
      else failure (message "invalid data_header in hash")

  -- `inner_hash`, on the calls that are left.
  unfoldable pub inner_hash : ℕ → ℕ → ℕ → Outcome ℕ
  inner_hash zero acc p = ok acc
  inner_hash (suc left) acc p =
      if is_unboxed p
      then ok (hash_append acc (unbox p))
      else if is_valid_heap_pointer heap p
      then hash_object (inner_hash left) (tag_at m p) (len_at m p) p
          (hash_append (hash_append acc (tag_at m p)) (len_at m p))
      else ok (hash_append acc p)

  -- `0x3fffff & h` keeps 22 bits.
  unfoldable pub lhash : ℕ → Outcome ℕ
  lhash p = do h ← inner_hash hash_calls 0 p; ok (box (h % 2 ^ 22))
