-- ===== src/Base/Word.antt =====
-- 64-bit words as native numbers below 2 ^ 64, and the signed integers that they stand for.
use Prim.Native.Nat.{ℕ, ◌+◌, ◌-◌, ◌*◌, ◌/◌, ◌%◌, ◌^◌, ◌<◌}
use mathlib.Core.Path.{◌≡◌}
use mathlib.Core.Bool.{Bool}
use native.Mathlib.Omega.{arith}
use lama_rv_workshop.Base.Tests.{ltb, if◌then◌else◌}
use lama_rv_workshop.Base.Int.{ℤ, pos, negsuc, ◌≤ℤ◌, ◌<ℤ◌, ltb_ℤ}

abbrev pub word_mod : ℕ
word_mod = 2 ^ 64

abbrev pub sign_bit : ℕ
sign_bit = 2 ^ 63

-- The integer that a word stands for in two's complement.
abbrev pub signed : ℕ → ℤ
signed w = if ltb w sign_bit then pos w else negsuc (word_mod - w - 1)

-- The word of an integer: reduction modulo 2 ^ 64.
abbrev pub to_word : ℤ → ℕ
to_word (pos n) = n % word_mod
to_word (negsuc n) = word_mod - 1 - n % word_mod

abbrev pub add_word : ℕ → ℕ → ℕ
add_word a b = (a + b) % word_mod

abbrev pub sub_word : ℕ → ℕ → ℕ
sub_word a b = (a + (word_mod - b)) % word_mod

abbrev pub mul_word : ℕ → ℕ → ℕ
mul_word a b = a * b % word_mod

-- The signed order.
abbrev pub slt_word : ℕ → ℕ → Bool
slt_word a b = ltb_ℤ (signed a) (signed b)

-- `w >> 1` on a signed word copies the sign bit.
abbrev pub sar1 : ℕ → ℕ
sar1 w = w / 2 + (if ltb w sign_bit then 0 else sign_bit)

pub signed-to_word :
    (z : ℤ) → negsuc (sign_bit - 1) ≤ℤ z → z <ℤ pos sign_bit → signed (to_word z) ≡ z
signed-to_word (pos n) lo hi = ground arith
signed-to_word (negsuc n) lo hi = ground arith

pub to_word-signed : (w : ℕ) → w < word_mod → to_word (signed w) ≡ w
to_word-signed w h = ground arith
