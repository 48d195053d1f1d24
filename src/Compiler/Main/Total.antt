-- ===== src/Compiler/Main/Total.antt =====
-- The compiler comes to an end on every file.
use lama_rv_workshop.Base.{
  ℕ, zero, suc, ◌+◌, ◌*◌, ◌%◌, ◌^◌, ◌≡◌, ◌≤◌, ◌<◌, refl, ltb, leb, Bool-cases, inl, inr, ltb→lt,
  ◌==◌, Bool, Option, none, some, List, [], ◌∷◌, length, arith, ap,
}
use native.Mathlib.Nat.{mod-le, mul-le-mul_left}
use lama_rv_workshop.Base.Int.{ℤ, pos, negsuc, pos_part}
use lama_rv_workshop.Base.Word.{word_mod, to_word}
use lama_rv_workshop.Base.Outcome.{ok, ◌>>=◌, Post, Post-bind, Post-weaken, Post-if, Post-any}
use lama_rv_workshop.Compiler.Instruction.{Inst, to_int}
use lama_rv_workshop.Compiler.Bytefile.{
  Bytefile, int_of, int_at, check_count, sections_size, struct_size, read_file, get_public_offset,
  get_public_name, c_string,
}
use lama_rv_workshop.Compiler.Reader.{InstReader, get_offset, read_inst, check_publics, new_reader}
use lama_rv_workshop.Compiler.Reader.Forward.{Fits}
use lama_rv_workshop.Compiler.Reader.Bounds.{read_inst-Reads}
use lama_rv_workshop.Compiler.Reader.Ends.{
  get_public_offset_ends, get_public_name_ends, c_string_ends,
}
use lama_rv_workshop.Compiler.Driver.{Program, emit_program}
use lama_rv_workshop.Compiler.Driver.Total.{IsCompiled, emit_program-IsCompiled}
use lama_rv_workshop.Compiler.State.{Heights, Compiler}
use lama_rv_workshop.Compiler.Lines.{ip_labels}
use lama_rv_workshop.Compiler.Linked.{count}
use lama_rv_workshop.Compiler.Main.{emplace, read_program, public_offsets, compile_file}

emplace-length :
    (offset : ℕ) (inst : Inst) (p : Program)
    → Post (λ p'. length p' ≡ length p + 1) (emplace offset inst p)
unfolding emplace
emplace-length offset inst [] = omega arith
emplace-length offset inst ((at, other) ∷ rest) = Post-if _ (at == offset) _ _ tt (
    Post-if _ (ltb offset at) _ _ (omega arith) (
      Post-bind _ (emplace offset inst rest) _ (
        Post-weaken _ _ (emplace offset inst rest) (λ p' h. omega (arith, h))
          (emplace-length offset inst rest))))

-- With more fuel than bytes the reader comes to `Stop` or fails; it reads no more instructions than
-- bytes.
pub read_program_lem :
    (fuel : ℕ) (file : Bytefile) (r : InstReader) (p : Program)
    → 0 < fuel
    → pos_part file.size < fuel + r.ip
    → Post (λ p'. length p' + r.ip ≤ length p + pos_part file.size + 1) (read_program fuel file r p)
unfolding read_program
read_program_lem zero file r p some_fuel enough = omega (arith, some_fuel)
read_program_lem (suc fuel) file r p some_fuel enough = Post-bind _ (read_inst file r) _ (
    Post-weaken _ _ (read_inst file r)
      (λ q h. go q.0 q.1 h.0 h.1 (λ p1 bigger.
        Post-weaken _ _ (read_program fuel file q.1 p1) (λ p' few. omega (arith, few, bigger, h.0))
          (read_program_lem fuel file q.1 p1 (omega (arith, enough, h.0, h.1))
            (omega (arith, enough, h.0)))))
      (read_inst-Reads file r))
  where
    Few : Program → Type 0
    Few p' = length p' + r.ip ≤ length p + pos_part file.size + 1

    go :
        (inst : Option Inst) (r1 : InstReader)
        → r.ip < r1.ip
        → Fits file r1
        → ((p1 : Program) → length p1 ≡ length p + 1 → Post Few (read_program fuel file r1 p1))
        → Post Few (elim inst [
          | none ↦ ok p
          | some i ↦ (emplace (get_offset file r) i p >>= read_program fuel file r1)
        ])
    go none r1 further fits next = omega (arith, further, fits)
    go (some i) r1 further fits next = Post-bind Few (emplace (get_offset file r) i p) _ (
        Post-weaken _ _ (emplace (get_offset file r) i p) next
          (emplace-length (get_offset file r) i p))

public_offsets-length :
    (file : Bytefile) (i n : ℕ) → Post (λ offsets. length offsets ≡ n) (public_offsets file i n)
unfolding public_offsets
public_offsets-length file i zero = refl
public_offsets-length file i (suc n) =
    Post-any _ (get_public_offset file (pos i)) _ (get_public_offset_ends file (pos i)) (λ offset.
      Post-bind _ (public_offsets file (i + 1) n) _ (
        Post-weaken _ _ (public_offsets file (i + 1) n) (λ offsets e. ap (λ k. suc k) e)
          (public_offsets-length file (i + 1) n)))

check_publics_ends : (file : Bytefile) (i n : ℕ) → Post (λ _. Unit) (check_publics file i n)
check_publics_ends file i zero = tt
check_publics_ends file i (suc n) =
    Post-any _ (get_public_offset file (pos i)) _ (get_public_offset_ends file (pos i)) (λ offset.
      Post-any _ (get_public_name file (pos i)) _ (get_public_name_ends file (pos i)) (λ s.
        Post-any _ (c_string file s) _ (c_string_ends file s)
          (λ name. check_publics_ends file (i + 1) n)))

new_reader_starts : (file : Bytefile) → Post (λ r. r.ip ≡ file.code_ptr) (new_reader file)
unfolding new_reader
new_reader_starts file =
    Post-any _ (check_publics file 0 file.public_symbols_number) _ (check_publics_ends file 0 _)
      (λ done. refl)

to_int_small : (w : ℕ) → (pos_part (to_int w) < 2 ^ 31) × (pos_part (to_int w) ≤ w)
to_int_small w = elim (Bool-cases (ltb (w % 2 ^ 32) (2 ^ 31))) [
  | inl e ↦ rw (e, to_int) (ltb→lt (w % 2 ^ 32) (2 ^ 31) e, mod-le w (2 ^ 32))
  | inr e ↦ rw (e, to_int) (omega arith, omega arith)
]

int_of_small : (bytes : List ℕ) → Post (λ i. pos_part i < 2 ^ 31) (int_of bytes)
int_of_small [] = tt
int_of_small (a ∷ []) = tt
int_of_small (a ∷ b ∷ []) = tt
int_of_small (a ∷ b ∷ c ∷ []) = tt
int_of_small (a ∷ b ∷ c ∷ d ∷ rest) = (to_int_small _).0

check_count_small : (i : ℤ) → pos_part i < 2 ^ 31 → Post (λ n. n < 2 ^ 31) (check_count i)
check_count_small (pos n) h = h
check_count_small (negsuc n) h = tt

-- The size and the number of public functions of a file that is accepted.
read_file_bounds :
    (content : List ℕ)
    → Post
        (λ f. (pos_part f.size ≤ 40 + length content) × (f.public_symbols_number < 2 ^ 31))
        (read_file content)
unfolding read_file
read_file_bounds content = Post-any _ (int_at content 0) _ (ends 0) (λ strings.
    Post-any _ (int_at content 4) _ (ends 4) (λ globals. Post-bind _ (int_at content 8) _ (
      Post-weaken _ _ (int_at content 8)
        (λ publics small. Post-any _ (check_count strings) _ (count_ends strings) (λ s.
          Post-bind _ (check_count publics) _ (
            Post-weaken _ _ (check_count publics)
              (λ n few. Post-any _ (check_count globals) _ (count_ends globals) (λ g.
                Post-if _ (leb (2 ^ 31) (n * 2)) _ _ tt (
                  Post-if Small
                    (leb ((to_word (sections_size s n g) + struct_size) % word_mod)
                      (to_word (to_int ((40 + length content) % word_mod))))
                    _ _ (bound, few) tt)))
              (check_count_small publics small))))
        (int_of_small _))))
  where
    Small : Bytefile → Type 0
    Small f = (pos_part f.size ≤ 40 + length content) × (f.public_symbols_number < 2 ^ 31)

    ends : (place : ℕ) → Post (λ _. Unit) (int_at content place)
    ends place = Post-weaken _ _ (int_at content place) (λ i h. tt) (int_of_small _)

    count_ends : (i : ℤ) → Post (λ _. Unit) (check_count i)
    count_ends (pos n) = tt
    count_ends (negsuc n) = tt

    bound : pos_part (to_int ((40 + length content) % word_mod)) ≤ 40 + length content
    bound = omega (
      arith,
      (to_int_small ((40 + length content) % word_mod)).1,
      mod-le (40 + length content) word_mod,
    )

square_le : (n m : ℕ) → n ≤ m → n * (n + 1) ≤ m * (m + 1)
square_le n m le =
    let step : n + 1 ≤ m + 1 = omega (arith, le) in
    omega (arith, mul-le-mul_left n step, mul-le-mul_left (m + 1) le)

-- On every file, with more rounds of reading than its bytes and 41, and of emission than the
-- square of that and 2 ^ 31, the compiler comes to an end; and if it gives a result, no address
-- has two labels in it.
pub compile_file_lem :
    (peek_first : Bool) (pick : Heights → ℕ) (read_fuel emit_fuel : ℕ) (content : List ℕ)
    → 41 + length content < read_fuel
    → (length content + 41) * (length content + 42) + 2 ^ 31 < emit_fuel
    → Post
        (λ c. (t : ℕ) → count t (ip_labels c.out) ≤ 1)
        (compile_file peek_first pick read_fuel emit_fuel content)
unfolding compile_file
compile_file_lem peek_first pick read_fuel emit_fuel content enough enough' =
    Post-bind Once (read_file content) _ (
      Post-weaken _ _ (read_file content)
        (λ f small.
          Post-any Once (new_reader f) _
            (Post-weaken _ _ (new_reader f) (λ r e. tt) (new_reader_starts f))
            (λ r. Post-bind Once (read_program read_fuel f r []) _ (
              Post-weaken _ _ (read_program read_fuel f r [])
                (λ program few. Post-bind Once (public_offsets f 0 f.public_symbols_number) _ (
                  Post-weaken _ _ (public_offsets f 0 f.public_symbols_number)
                    (λ publics size.
                      emitted f program publics (omega (arith, few, small.0)) (rw size small.1))
                    (public_offsets-length f 0 f.public_symbols_number)))
                (read_program_lem read_fuel f r [] (omega (arith, enough))
                  (omega (arith, enough, small.0))))))
        (read_file_bounds content))
  where
    Once : Compiler → Type 0
    Once c = (t : ℕ) → count t (ip_labels c.out) ≤ 1

    emitted :
        (f : Bytefile) (program : Program) (publics : List ℕ)
        → length program ≤ length content + 41
        → length publics < 2 ^ 31
        → Post Once (emit_program peek_first pick emit_fuel program publics f.global_area_size)
    emitted f program publics few small =
        Post-weaken (IsCompiled program publics) Once _ (λ c h. h.0)
          (emit_program-IsCompiled peek_first pick emit_fuel program publics f.global_area_size
            (omega (arith, enough', small, square_le (length program) (length content + 41) few)))
