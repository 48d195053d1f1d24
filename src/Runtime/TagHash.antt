-- ===== src/Runtime/TagHash.antt =====
-- Hashes of constructor names: `LtagHash` and `de_hash` of runtime/runtime.c. A C string is the list
-- of its bytes before the final zero byte.
pub mod Laws
pub mod Underscore
use Prim.Native.Char.{Char, code}
use Prim.Native.String.{String}
use lama_rv_workshop.Base.{
  ℕ, zero, suc, ◌+◌, ◌-◌, ◌*◌, ◌/◌, ◌%◌, Bool, true, false, ◌&&◌, ◌==◌, ltb, if◌then◌else◌, Option,
  none, some, List, [], ◌∷◌, get_or,
}
use lama_rv_workshop.Base.Word.{word_mod, sign_bit}
use lama_rv_workshop.Base.Outcome.{Outcome, ok, failure, fault, message, ◌>>=◌}
use lama_rv_workshop.Runtime.Value.{box}

-- The bytes of an ASCII text.
abbrev pub codes : String → List ℕ
codes String.[] = []
codes (String.◌∷◌ c s) = code c ∷ codes s

abbrev pub chars : List ℕ
chars = codes "_abcdefghijklmnopqrstuvwxyzABCDEFGHIJKLMNOPQRSTUVWXYZ0123456789'"

abbrev pub max_sexp_taglen : ℕ
max_sexp_taglen = 10

-- The search for a character; `none` where the end of `chars` is met.
unfoldable pub char_pos : List ℕ → ℕ → ℕ → Option ℕ
char_pos [] c pos = none
char_pos (q ∷ qs) c pos = if q == c then some pos else char_pos qs c (pos + 1)

-- `n >> 6` on a signed word.
abbrev pub sar6 : ℕ → ℕ
sar6 n = n / 64 + (if ltb n sign_bit then 0 else word_mod - word_mod / 64)

-- The `while` of `de_hash`, with the places left in the static buffer before `p` and the text that
-- stands behind `p`. A write before the buffer is undefined.
unfoldable pub de_hash_loop : ℕ → ℕ → List ℕ → Outcome (List ℕ)
de_hash_loop zero n acc = if n == 0 then ok acc else fault
de_hash_loop (suc room) n acc =
    let rest = de_hash_loop room (sar6 n) (get_or chars (n % 64) 0 ∷ acc) in
    if n == 0 then ok acc else rest

unfoldable pub de_hash : ℕ → Outcome (List ℕ)
de_hash n = de_hash_loop max_sexp_taglen n []

-- The step `h = (h << 6) | pos`: the shift clears the bits that `pos` sets.
abbrev pub shift_in : ℕ → ℕ → ℕ
shift_in h pos = h * 64 % word_mod + pos

-- The `while` of `LtagHash`, with the rounds that `limit` leaves.
unfoldable pub hash_loop : ℕ → List ℕ → ℕ → Outcome ℕ
hash_loop zero p h = ok h
hash_loop (suc left) [] h = ok h
hash_loop (suc left) (c ∷ p) h = elim (char_pos chars c 0) [
  | none ↦ failure (message "tagHash: character not found")
  | some pos ↦ hash_loop left p (shift_in h pos)
]

-- `strncmp(a, b, n) == 0`
unfoldable pub strncmp_eq : ℕ → List ℕ → List ℕ → Bool
strncmp_eq zero a b = true
strncmp_eq (suc n) [] [] = true
strncmp_eq (suc n) [] (y ∷ b) = false
strncmp_eq (suc n) (x ∷ a) [] = false
strncmp_eq (suc n) (x ∷ a) (y ∷ b) = x == y && strncmp_eq n a b

-- `LtagHash`
unfoldable pub tag_hash : List ℕ → Outcome ℕ
tag_hash s = do
  h ← hash_loop max_sexp_taglen s 0
  name ← de_hash h
  if strncmp_eq max_sexp_taglen s name then ok (box h) else failure (message "tagHash")
