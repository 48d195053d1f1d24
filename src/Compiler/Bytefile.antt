-- ===== src/Compiler/Bytefile.antt =====
-- The file with the bytecode, comp/src/bytefile.cpp. `content` is what the file holds; pointers into
-- `buffer` are places in it. A CHECK that fails ends the process.
use Prim.Native.Char.{Char, char, nul, IsScalar}
use Prim.Native.Nat.{Ordering, compare}
use Prim.Native.String
use Prim.Native.String.{String}
use lama_rv_workshop.Base.{
  ℕ, ◌+◌, ◌*◌, ◌%◌, ◌^◌, ◌≡◌, refl, ltb, leb, ◌==◌, if◌then◌else◌, List, [], ◌∷◌, drop, length,
}
use lama_rv_workshop.Base.Int.{ℤ, pos, negsuc, ltb_ℤ}
use lama_rv_workshop.Base.Word.{word_mod, to_word}
use lama_rv_workshop.Base.Outcome.{Outcome, ok, exited, fault, ◌>>=◌}
use lama_rv_workshop.Compiler.Instruction.{to_int}

-- `bytefile`, without the global area, which nothing reads. The three counts are not negative once
-- `read_file` is through.
pub record Bytefile : Type 0 where
  pub size : ℤ
  pub stringtab_size : ℕ
  pub public_symbols_number : ℕ
  pub global_area_size : ℕ
  pub string_ptr : ℕ
  pub code_ptr : ℕ
  pub buffer : List ℕ

-- The places of `stringtab_size` and of `buffer` in the struct, and its size, which is a multiple of 8.
abbrev pub header_offset : ℕ
header_offset = 40

abbrev pub buffer_offset : ℕ
buffer_offset = 52

abbrev pub struct_size : ℕ
struct_size = 56

-- Four bytes, the lowest first.
abbrev pub int_of : List ℕ → Outcome ℤ
int_of (a ∷ b ∷ c ∷ d ∷ rest) = ok (to_int (a + 2 ^ 8 * b + 2 ^ 16 * c + 2 ^ 24 * d))
int_of _ = fault

abbrev pub int_at : List ℕ → ℕ → Outcome ℤ
int_at bytes place = int_of (drop place bytes)

-- `CHECK_GE(_, 0)`
abbrev pub check_count : ℤ → Outcome ℕ
check_count (pos n) = ok n
check_count (negsuc n) = exited

-- The sum of the sections as the `int` it is kept in, given that the product of two `int`s fits.
abbrev pub sections_size : ℕ → ℕ → ℕ → ℤ
sections_size strings publics globals =
    to_int ((strings + publics * 2 * 4 + globals * 4) % word_mod)

unfoldable pub read_file : List ℕ → Outcome Bytefile
read_file content = do
  strings ← int_at content 0
  globals ← int_at content 4
  publics ← int_at content 8
  stringtab_size ← check_count strings
  public_symbols_number ← check_count publics
  global_area_size ← check_count globals
  let size = to_int ((header_offset + length content) % word_mod)
  let needed =
      (to_word (sections_size stringtab_size public_symbols_number global_area_size) + struct_size)
      % word_mod
  let string_ptr = public_symbols_number * 2 * 4
  if leb (2 ^ 31) (public_symbols_number * 2)
      then fault
      else (if leb needed (to_word size)
          then ok (record {
            size = size;
            stringtab_size = stringtab_size;
            public_symbols_number = public_symbols_number;
            global_area_size = global_area_size;
            string_ptr = string_ptr;
            code_ptr = string_ptr + stringtab_size;
            buffer = drop 12 content;
          })
          else exited)

-- The checks of an index against a count.
abbrev pub check_index : ℤ → ℕ → Outcome ℕ
check_index (pos n) count = if ltb n count then ok n else exited
check_index (negsuc n) count = exited

unfoldable pub get_string : Bytefile → ℤ → Outcome ℕ
get_string f place = do n ← check_index place f.stringtab_size; ok (f.string_ptr + n)

unfoldable pub get_public_name : Bytefile → ℤ → Outcome ℕ
get_public_name f i = do
  n ← check_index i f.public_symbols_number
  name ← int_at f.buffer (4 * (n * 2))
  get_string f name

unfoldable pub get_public_offset : Bytefile → ℤ → Outcome ℤ
get_public_offset f i = do
  n ← check_index i f.public_symbols_number
  offset ← int_at f.buffer (4 * (n * 2 + 1))
  if ltb_ℤ f.size offset then exited else ok offset

-- The bytes before the next one that is zero: what a `char const*` is taken for.
abbrev pub until_nul : List ℕ → Outcome (List ℕ)
until_nul [] = fault
until_nul (b ∷ bytes) = if b == 0 then ok [] else (until_nul bytes >>= (λ rest. ok (b ∷ rest)))

abbrev pub c_string : Bytefile → ℕ → Outcome (List ℕ)
c_string f place = until_nul (drop place f.buffer)

-- A byte as a character, and bytes as text.
abbrev char_if : (b : ℕ) (o : Ordering) → compare b 55296 ≡ o → Char
char_if b Ordering.lt e = char b (rw (e, IsScalar) tt)
char_if b Ordering.eq e = nul
char_if b Ordering.gt e = nul

abbrev pub text_of : List ℕ → String
text_of [] = Prim.Native.String.[]
text_of (b ∷ bytes) = Prim.Native.String.◌∷◌ (char_if b (compare b 55296) refl) (text_of bytes)
