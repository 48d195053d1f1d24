-- ===== src/Gc/Object/Laws.antt =====
-- The mark bit, the queue bit and the forward address share a word without disturbing one another,
-- and what a header alone decides.
use lama_rv_workshop.Base.{ℕ, ◌+◌, ◌*◌, ◌%◌, ◌≡◌, refl, true, false, arith}
use lama_rv_workshop.Base.Outcome.{ok}
use lama_rv_workshop.Gc.State.{Mem}
use lama_rv_workshop.Gc.Object.{
  get_type_header_ptr, obj_size_header_ptr, get_object_content_ptr, heap_next_obj_iterator,
  bytes_to_words, get_mark_bit, set_mark_bit, reset_mark_bit, enqueued_bit, enqueue_bit,
  dequeue_bit, forward_part, set_forward_part, forward_slot,
}

-- The bytes that an object of `n` bytes occupies.
abbrev pub block : ℕ → ℕ
block n = bytes_to_words n * 8

-- Setting the forward address to an aligned address keeps the mark bit and the queue bit, and
-- setting or clearing one bit keeps the other and the address.
pub forward_word_laws :
    (x addr : ℕ)
    → addr % 4 ≡ 0
    → ((forward_part (set_forward_part x addr) ≡ addr)
        × (get_mark_bit (set_forward_part x addr) ≡ get_mark_bit x)
        × (enqueued_bit (set_forward_part x addr) ≡ enqueued_bit x))
      × ((forward_part (set_mark_bit x) ≡ forward_part x)
          × (get_mark_bit (set_mark_bit x) ≡ true)
          × (enqueued_bit (set_mark_bit x) ≡ enqueued_bit x)
          × (forward_part (reset_mark_bit x) ≡ forward_part x)
          × (get_mark_bit (reset_mark_bit x) ≡ false)
          × (enqueued_bit (reset_mark_bit x) ≡ enqueued_bit x))
      × ((forward_part (enqueue_bit x) ≡ forward_part x)
          × (get_mark_bit (enqueue_bit x) ≡ get_mark_bit x)
          × (enqueued_bit (enqueue_bit x) ≡ true)
          × (forward_part (dequeue_bit x) ≡ forward_part x)
          × (get_mark_bit (dequeue_bit x) ≡ get_mark_bit x)
          × (enqueued_bit (dequeue_bit x) ≡ false))
forward_word_laws x addr h = (
  (ground arith, ground arith, ground arith),
  (ground arith, ground arith, ground arith, ground arith, ground arith, ground arith),
  (ground arith, ground arith, ground arith, ground arith, ground arith, ground arith),
)

pub obj_size_of_header :
    (m m' : Mem) (a : ℕ) → m' a ≡ m a → obj_size_header_ptr m' a ≡ obj_size_header_ptr m a
unfolding obj_size_header_ptr
obj_size_of_header m m' a e = rw e refl

pub header_of_size :
    (m m' : Mem) (a b : ℕ) → m' b ≡ m a → obj_size_header_ptr m' b ≡ obj_size_header_ptr m a
unfolding obj_size_header_ptr
header_of_size m m' a b e = rw e refl

module _ (m : Mem) (a n : ℕ) (sized : obj_size_header_ptr m a ≡ ok n) where
  pub content_of_size : get_object_content_ptr m a ≡ ok (a + 16)
  unfolding obj_size_header_ptr get_object_content_ptr get_type_header_ptr
  content_of_size = ground arith

  pub next_of_size : heap_next_obj_iterator m a ≡ ok (a + block n)
  unfolding heap_next_obj_iterator
  next_of_size = rw sized refl

pub slot_of_content : (a : ℕ) → forward_slot (a + 16) ≡ a + 8
slot_of_content a = omega arith
