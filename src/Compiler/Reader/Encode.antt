-- ===== src/Compiler/Reader/Encode.antt =====
-- The bytes of instructions, which `read_inst` of comp/src/read.cpp reads back.
use lama_rv_workshop.Base.{
  ℕ, zero, suc, ◌+◌, ◌*◌, ◌/◌, ◌%◌, ◌^◌, ◌≡◌, ◌≤◌, ◌<◌, refl, leb, true, false, List, [], ◌∷◌, ◌++◌,
  length, drop, length-append, arith, ap, sym, ◌∙◌, lt→ltb, le→ltb_false,
}
use native.Mathlib.Nat.{mod-eq_of_lt}
use mathlib.Core.List.{append_assoc}
use lama_rv_workshop.Base.Int.{ℤ, pos, negsuc, pos_part, ltb_ℤ}
use lama_rv_workshop.Base.Outcome.{ok, ◌>>=◌}
use lama_rv_workshop.Compiler.Instruction.{to_int}
use lama_rv_workshop.Compiler.Bytefile.{Bytefile, int_of, buffer_offset}
use lama_rv_workshop.Compiler.Reader.{InstReader, byte_of, can_read, read_byte, read_int}

-- An `int` that is not negative, the lowest byte first.
abbrev pub number : ℕ → List ℕ
number n = n % 256 ∷ n / 256 % 256 ∷ n / 65536 % 256 ∷ n / 16777216 ∷ []

int_of-number : (n : ℕ) (rest : List ℕ) → n < 2 ^ 31 → int_of (number n ++ rest) ≡ ok (pos n)
int_of-number n rest small =
    ap ok (ap to_int whole ∙ rw (low, lt→ltb n (2 ^ 31) small, to_int) refl)
  where
    whole :
        n % 256 + 2 ^ 8 * (n / 256 % 256) + 2 ^ 16 * (n / 65536 % 256) + 2 ^ 24 * (n / 16777216) ≡ n
    whole = omega (arith, small)

    low : n % 2 ^ 32 ≡ n
    low = mod-eq_of_lt (omega (arith, small))

drop-nil : (j : ℕ) → drop {A = ℕ} j [] ≡ []
drop-nil zero = refl
drop-nil (suc j) = refl

drop-add : (k j : ℕ) (zs : List ℕ) → drop (k + j) zs ≡ drop j (drop k zs)
drop-add zero j zs = ap (λ n. drop n zs) (omega arith)
drop-add (suc k) j [] = drop-nil (suc k + j) ∙ sym (drop-nil j)
drop-add (suc k) j (z ∷ zs) =
    let step : suc k + j ≡ suc (k + j) = omega arith in
    ap (λ n. drop n (z ∷ zs)) step ∙ drop-add k j zs

drop_append : (xs ys : List ℕ) → drop (length xs) (xs ++ ys) ≡ ys
drop_append [] ys = refl
drop_append (x ∷ xs) ys = drop_append xs ys

-- The bytes `bytes` stand at the reader, in the code and in the file.
pub record At (file : Bytefile) (r : InstReader) (bytes rest : List ℕ) : Type 0 where
  pub there : drop r.ip file.buffer ≡ bytes ++ rest
  pub in_code : file.code_ptr ≤ r.ip
  pub in_file : buffer_offset + (r.ip + length bytes) ≤ pos_part file.size

abbrev pub forward : ℕ → InstReader → InstReader
forward n r = record r { ip = r.ip + n }

in_size : (size : ℤ) (m : ℕ) → 0 < m → m ≤ pos_part size → ltb_ℤ size (pos m) ≡ false
in_size (pos k) m some_bytes le = le→ltb_false (k + 0) (m + 0) (omega (arith, le))
in_size (negsuc k) m some_bytes le = absurd (omega (arith, some_bytes, le))

module _ (file : Bytefile) where
  readable :
      (n : ℕ) (r : InstReader)
      → file.code_ptr ≤ r.ip
      → buffer_offset + (r.ip + n) ≤ pos_part file.size
      → can_read file n r ≡ true
  readable n r above fits = rw (above', inside, can_read) refl
    where
      above' : leb file.code_ptr r.ip ≡ true
      above' = ground arith

      inside : ltb_ℤ file.size (pos (buffer_offset + r.ip + n)) ≡ false
      inside = in_size file.size (buffer_offset + r.ip + n) (omega arith) (omega (arith, fits))

  -- Behind the first part of the bytes.
  pub behind :
      (r : InstReader) (xs ys rest : List ℕ)
      → At file r (xs ++ ys) rest
      → At file (forward (length xs) r) ys rest
  behind r xs ys rest at = record {
    there =
        drop-add r.ip (length xs) file.buffer
        ∙ ap (drop (length xs)) (at.there ∙ append_assoc xs ys rest)
        ∙ drop_append xs (ys ++ rest);
    in_code = omega (arith, at.in_code);
    in_file = omega (arith, at.in_file, length-append xs ys);
  }

  pub read_byte-At :
      (b : ℕ) (ys rest : List ℕ) (r : InstReader)
      → At file r (b ∷ ys) rest
      → read_byte file r ≡ ok (b, forward 1 r)
  unfolding read_byte
  read_byte-At b ys rest r at =
      rw (readable 1 r at.in_code (omega (arith, at.in_file)), read_byte)
        (ap (λ bytes. byte_of bytes >>= (λ x. ok (x, forward 1 r))) at.there)

  pub read_int-At :
      (n : ℕ) (ys rest : List ℕ) (r : InstReader)
      → n < 2 ^ 31
      → At file r (number n ++ ys) rest
      → read_int file r ≡ ok (pos n, forward 4 r)
  unfolding read_int
  read_int-At n ys rest r small at =
      rw (readable 4 r at.in_code (omega (arith, at.in_file)), read_int)
        (ap (λ bytes. int_of bytes >>= (λ x. ok (x, forward 4 r))) at.there
          ∙ ap (λ m. m >>= (λ x. ok (x, forward 4 r))) (int_of-number n (ys ++ rest) small))
