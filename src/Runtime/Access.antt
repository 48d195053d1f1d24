-- ===== src/Runtime/Access.antt =====
-- Reading and writing objects: `LkindOf`, `Llength`, `Belem`, `Bsta` and the like of
-- runtime/runtime.c. Indices are not checked against lengths, as in the source: an index out of
-- range reads or writes the word that it leads to. `char` is unsigned, as on RISC-V.
pub mod Laws
use lama_rv_workshop.Base.{ℕ, ◌+◌, ◌-◌, ◌*◌, ◌%◌, Bool, ◌&&◌, ◌==◌, if◌then◌else◌}
use lama_rv_workshop.Base.Word.{add_word, sub_word, mul_word}
use lama_rv_workshop.Base.Outcome.{Outcome, ok, failure, message, ◌>>=◌, ◌>>◌}
use lama_rv_workshop.Runtime.Value.{
  is_unboxed, unbox, box, tag_of, len_of, string_tag, sexp_tag, unboxed_tag, assert_boxed,
  assert_unboxed,
}
use lama_rv_workshop.Gc.State.{Mem, write, byte_at, write_byte}
use lama_rv_workshop.Gc.Object.{data_header_sz}

-- `TO_DATA(p)->data_header`, and the tag and the length in it.
abbrev pub header : Mem → ℕ → ℕ
header m p = m (sub_word p data_header_sz)

abbrev pub tag_at : Mem → ℕ → ℕ
tag_at m p = tag_of (header m p)

abbrev pub len_at : Mem → ℕ → ℕ
len_at m p = len_of (header m p)

-- The addresses `((aint *)p)[i]`, `((sexp *)TO_DATA(p))->contents` and `((char *)p)[i]`.
abbrev pub word_address : ℕ → ℕ → ℕ
word_address p i = add_word p (mul_word i 8)

abbrev pub sexp_contents : ℕ → ℕ
sexp_contents p = add_word p 8

abbrev pub byte_address : ℕ → ℕ → ℕ
byte_address p i = add_word p i

-- `LkindOf`
unfoldable pub kind_of : Mem → ℕ → ℕ
kind_of m p = if is_unboxed p then unboxed_tag else tag_at m p

-- `LcompareTags`
unfoldable pub compare_tags : Mem → ℕ → ℕ → Outcome ℕ
compare_tags m p q = do
  assert_boxed "compareTags, 0" p
  assert_boxed "compareTags, 1" q
  if tag_at m p == sexp_tag && tag_at m q == sexp_tag
      then ok (box (sub_word (m p) (m q)))
      else failure (message "not a sexpr in compareTags")

-- `Llength`
unfoldable pub llength : Mem → ℕ → Outcome ℕ
llength m p = do assert_boxed ".length" p; ok (box (len_at m p))

-- The address of element `i` of an object with the given tag that is no string.
abbrev pub slot : ℕ → ℕ → ℕ → ℕ
slot tag p i = word_address (if tag == sexp_tag then sexp_contents p else p) i

-- `Belem`
unfoldable pub elem : Mem → ℕ → ℕ → Outcome ℕ
elem m p i = do
  assert_boxed ".elem:1" p
  assert_unboxed ".elem:2" i
  ok (
      if tag_at m p == string_tag
      then box (byte_at m (byte_address p (unbox i)))
      else m (slot (tag_at m p) p (unbox i)))

-- `Lfst` and `Lhd`, `Lsnd` and `Ltl`
unfoldable pub fst : Mem → ℕ → Outcome ℕ
fst m v = elem m v (box 0)

unfoldable pub snd : Mem → ℕ → Outcome ℕ
snd m v = elem m v (box 1)

-- `Bsta`: memory and the value after it.
unfoldable pub sta : Mem → ℕ → ℕ → ℕ → Outcome (Mem × ℕ)
sta m x i v =
    if is_unboxed i
    then (do
      assert_boxed ".sta:3" x
      ok (
        if tag_at m x == string_tag
            then write_byte m (byte_address x (unbox i)) (unbox v)
            else write m (slot (tag_at m x) x (unbox i)) v,
        v,
      ))
    else ok (write m x v, v)
