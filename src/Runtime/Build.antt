-- ===== src/Runtime/Build.antt =====
-- Functions of runtime/runtime.c that allocate: arrays, S-expressions, closures and strings.
-- `frame` is `__builtin_frame_address(0)`, and `mapping` is what `mmap` returns if the collector
-- runs. Arguments come in memory, `args` being the address of the first one.
pub mod Roots
pub mod Laws
pub mod Sexp
pub mod Closure
pub mod Zeros
pub mod Observed
pub mod Matched
use lama_rv_workshop.Base.{
  ℕ, zero, suc, ◌+◌, ◌-◌, ◌*◌, ◌%◌, Bool, true, false, not, ◌||◌, ◌&&◌, ◌==◌, ltb, leb,
  if◌then◌else◌, Option, List, [], ◌∷◌,
}
use lama_rv_workshop.Base.Int.{ltb_ℤ}
use lama_rv_workshop.Base.Word.{sign_bit, add_word, sub_word, signed}
use lama_rv_workshop.Base.Outcome.{Outcome, ok, failure, exited, out_of_fuel, message, ◌>>=◌, ◌>>◌}
use lama_rv_workshop.Runtime.Value.{
  is_unboxed, unbox, box, len_of, string_tag, array_tag, sexp_tag, closure_tag, assert_unboxed,
}
use lama_rv_workshop.Runtime.Access.{tag_at, len_at}
use lama_rv_workshop.Runtime.Pattern.{assert_string}
use lama_rv_workshop.Gc.State.{Mem, write, byte_at, write_byte, move, State}
use lama_rv_workshop.Gc.Object.{array_size, closure_size, sexp_size, data_header_sz}
use lama_rv_workshop.Gc.Roots.{push_extra_root, pop_extra_root}
use lama_rv_workshop.Gc.Alloc.{alloc_string, alloc_array, alloc_sexp, alloc_closure}

-- `PRE_GC()`: the state and `flag`. A failed assertion ends the process.
unfoldable pub pre_gc : ℕ → State → Outcome (State × Bool)
pre_gc frame s =
    let flag = s.stack_top == 0 in
    let top = if flag then frame else s.stack_top in
    if top == 0 || (not (top % 16 == 0) || not (leb frame top))
    then exited
    else ok (record s { stack_top = top }, flag)

-- `POST_GC()`
unfoldable pub post_gc : ℕ → Bool → State → Outcome State
post_gc frame flag s =
    if leb frame s.stack_top then ok (if flag then record s { stack_top = 0 } else s) else exited

-- The loops that register the arguments in order.
unfoldable pub push_all : List ℕ → State → Outcome State
push_all [] s = ok s
push_all (p ∷ ps) s = do s' ← push_extra_root p s; push_all ps s'

-- The loops that drop them again, last one first.
unfoldable pub pop_all : List ℕ → State → Outcome State
pop_all [] s = ok s
pop_all (p ∷ ps) s = do s' ← pop_all ps s; pop_extra_root p s'

-- `&args[0]` up to `&args[n - 1]`.
abbrev pub addresses : ℕ → ℕ → List ℕ
addresses args zero = []
addresses args (suc n) = args ∷ addresses (args + 8) n

-- The rounds of `for (i = 0; i < n; i++)` for a signed `n`.
abbrev pub count : ℕ → ℕ
count n = if ltb n sign_bit then n else 0

-- `to[i] = from[i]` for `n` words.
unfoldable pub copy_words : ℕ → Mem → ℕ → ℕ → Mem
copy_words zero m to from = m
copy_words (suc n) m to from = copy_words n (write m to (m from)) (to + 8) (from + 8)

-- `Barray`
unfoldable pub barray : ℕ → Option ℕ → ℕ → ℕ → State → Outcome (State × ℕ)
barray frame mapping args bn s = do
  let n = unbox bn
  (s1, flag) ← pre_gc frame s
  s2 ← push_all (addresses args (count n)) s1
  (s3, r) ← alloc_array mapping n s2
  let s4 = record s3 { mem = copy_words (count n) s3.mem (r + 16) args }
  s5 ← pop_all (addresses args (count n)) s4
  s6 ← post_gc frame flag s5
  ok (s6, r + 16)

-- `Bsexp`: the last argument is the tag.
unfoldable pub bsexp : ℕ → Option ℕ → ℕ → ℕ → State → Outcome (State × ℕ)
bsexp frame mapping args bn s = do
  let n = unbox bn
  (s1, flag) ← pre_gc frame s
  let fields_cnt = sub_word n 1
  s2 ← push_all (addresses args (count fields_cnt)) s1
  (s3, r) ← alloc_sexp mapping fields_cnt s2
  let m1 = copy_words (count fields_cnt) (write s3.mem (r + 16) 0) (r + 24) args
  let m2 = write m1 (r + 16) (unbox (m1 (args + 8 * fields_cnt)))
  s5 ← pop_all (addresses args (count fields_cnt)) (record s3 { mem = m2 })
  s6 ← post_gc frame flag s5
  ok (s6, r + 16)

-- `Bclosure`: the code address, which is no root, and the captured values.
unfoldable pub bclosure : ℕ → Option ℕ → ℕ → ℕ → State → Outcome (State × ℕ)
bclosure frame mapping args bn s = do
  let n = unbox bn
  (s1, flag) ← pre_gc frame s
  s2 ← push_all (addresses (args + 8) (count n)) s1
  (s3, r) ← alloc_closure mapping (add_word n 1) s2
  let m1 = write s3.mem (r + 16) (s3.mem args)
  let m2 = copy_words (count n) m1 (r + 24) (args + 8)
  s5 ← pop_all (addresses (args + 8) (count n)) (record s3 { mem = m2 })
  s6 ← post_gc frame flag s5
  ok (s6, r + 16)

-- `while (n--) *p++ = BOX(0)`
unfoldable pub fill_zeros : ℕ → Mem → ℕ → Mem
fill_zeros zero m p = m
fill_zeros (suc n) m p = fill_zeros n (write m p (box 0)) (p + 8)

-- `LmakeArray`
unfoldable pub make_array : ℕ → Option ℕ → ℕ → State → Outcome (State × ℕ)
make_array frame mapping length s = do
  assert_unboxed "makeArray:1" length
  (s1, flag) ← pre_gc frame s
  let n = unbox length
  (s2, r) ← alloc_array mapping n s1
  s3 ← post_gc frame flag (record s2 { mem = fill_zeros n s2.mem (r + 16) })
  ok (s3, r + 16)

-- `LmakeString`
unfoldable pub make_string : ℕ → Option ℕ → ℕ → State → Outcome (State × ℕ)
make_string frame mapping length s = do
  let n = unbox length
  assert_unboxed "makeString" length
  (s1, flag) ← pre_gc frame s
  (s2, r) ← alloc_string mapping n s1
  s3 ← post_gc frame flag s2
  ok (s3, r + 16)

-- `strlen`, on fuel.
unfoldable pub strlen : ℕ → Mem → ℕ → Outcome ℕ
strlen zero m a = out_of_fuel
strlen (suc fuel) m a = if byte_at m a == 0 then ok 0 else do n ← strlen fuel m (a + 1); ok (suc n)

-- `memset(to, 0, n)` and `strncpy(to, from, n)` by bytes.
unfoldable pub pad_zeros : ℕ → Mem → ℕ → Mem
pad_zeros zero m to = m
pad_zeros (suc n) m to = pad_zeros n (write_byte m to 0) (to + 1)

unfoldable pub strncpy : ℕ → Mem → ℕ → ℕ → Mem
strncpy zero m to from = m
strncpy (suc n) m to from =
    let rest = strncpy n (write_byte m to (byte_at m from)) (to + 1) (from + 1) in
    if byte_at m from == 0 then pad_zeros n (write_byte m to 0) (to + 1) else rest

-- `Bstring`; `fuel` is for `strlen`, and `inner` is the frame of its call of `LmakeString`.
unfoldable pub bstring : ℕ → ℕ → ℕ → Option ℕ → ℕ → State → Outcome (State × ℕ)
bstring fuel frame inner mapping args s = do
  n ← strlen fuel s.mem (s.mem args)
  (s1, flag) ← pre_gc frame s
  s2 ← push_extra_root args s1
  (s3, p) ← make_string inner mapping (box n) s2
  s4 ← pop_extra_root args s3
  s5 ← post_gc frame flag (record s4 { mem = strncpy (n + 1) s4.mem p (s4.mem args) })
  ok (s5, p)

-- `Li__Infix_4343`, the concatenation `++`.
unfoldable pub strcat : ℕ → Option ℕ → ℕ → State → Outcome (State × ℕ)
strcat frame mapping args s = do
  assert_string s.mem "++:1" (s.mem args)
  assert_string s.mem "++:2" (s.mem (args + 8))
  (s1, flag) ← pre_gc frame s
  s2 ← push_extra_root args s1
  s3 ← push_extra_root (args + 8) s2
  (s4, d) ← alloc_string mapping (len_at s.mem (s.mem args) + len_at s.mem (s.mem (args + 8))) s3
  s5 ← pop_extra_root (args + 8) s4
  s6 ← pop_extra_root args s5
  let a = s6.mem args
  let b = s6.mem (args + 8)
  let la = len_at s6.mem a
  let lb = len_at s6.mem b
  let m1 = strncpy la s6.mem (d + 16) a
  let m2 = strncpy lb m1 (d + 16 + la) b
  let m3 = write_byte m2 (d + 16 + la + lb) 0
  s7 ← post_gc frame flag (record s6 { mem = m3 })
  ok (s7, d + 16)

-- `Lsubstring`: subject, position and length. The sum of the last two is compared as unsigned.
unfoldable pub substring : ℕ → Option ℕ → ℕ → State → Outcome (State × ℕ)
substring frame mapping args s = do
  let pp = unbox (s.mem (args + 8))
  let ll = unbox (s.mem (args + 16))
  assert_string s.mem "substring:1" (s.mem args)
  assert_unboxed "substring:2" (s.mem (args + 8))
  assert_unboxed "substring:3" (s.mem (args + 16))
  if leb (add_word pp ll) (len_at s.mem (s.mem args))
      then (do
        (s1, flag) ← pre_gc frame s
        s2 ← push_extra_root args s1
        (s3, r) ← alloc_string mapping ll s2
        s4 ← pop_extra_root args s3
        let from = add_word (s4.mem args) pp
        s5 ← post_gc frame flag (record s4 { mem = strncpy ll s4.mem (r + 16) from })
        ok (s5, r + 16))
      else failure (message "substring: index out of bounds")

-- The copy of `size` bytes of the object of `args[0]` over the new object at `obj`.
abbrev pub clone_object : ℕ → ℕ → State × ℕ → State × ℕ
clone_object args size (s, obj) =
    (record s { mem = move s.mem obj (s.mem args - data_header_sz) size }, obj + 16)

-- The `switch` of `Lclone` on the object's tag; `inner` and `innermost` are the frames of the calls
-- of `Bstring` and of `LmakeString`. `slot` is the address of `Bstring`'s argument.
unfoldable pub clone_by_tag : ℕ → ℕ → ℕ → ℕ → Option ℕ → ℕ → ℕ → ℕ → State → Outcome (State × ℕ)
clone_by_tag fuel slot inner innermost mapping args t l s =
    if t == string_tag
    then bstring fuel inner innermost mapping slot
        (record s { mem = write s.mem slot (s.mem args) })
    else if t == array_tag
    then (do r ← alloc_array mapping l s; ok (clone_object args (array_size l) r))
    else if t == closure_tag
    then (do r ← alloc_closure mapping l s; ok (clone_object args (closure_size l) r))
    else if t == sexp_tag
    then (do r ← alloc_sexp mapping l s; ok (clone_object args (sexp_size l) r))
    else failure (message "invalid data_header in clone")

-- `Lclone`
unfoldable pub clone : ℕ → ℕ → ℕ → ℕ → ℕ → Option ℕ → ℕ → State → Outcome (State × ℕ)
clone fuel slot frame inner innermost mapping args s =
    if is_unboxed (s.mem args) then ok (s, s.mem args) else do
      (s1, flag) ← pre_gc frame s
      let t = tag_at s.mem (s.mem args)
      let l = len_at s.mem (s.mem args)
      s2 ← push_extra_root args s1
      (s3, res) ← clone_by_tag fuel slot inner innermost mapping args t l s2
      s4 ← pop_extra_root args s3
      s5 ← post_gc frame flag s4
      ok (s5, res)
