-- ===== src/Compiler/Reader.antt =====
-- The reader of instructions: comp/include/inst_reader.h and comp/src/read.cpp, and the loop that
-- reads the program, `main` of comp/src/lama_rv.cpp. A CHECK that fails and `LOG(FATAL)` end the
-- process.
pub mod Ends
pub mod Forward
pub mod Bounds
pub mod Encode
pub mod Roundtrip
use lama_rv_workshop.Base.{
  ℕ, zero, suc, ◌+◌, ◌-◌, ◌/◌, ◌%◌, ◌==◌, ltb, leb, if◌then◌else◌, Bool, true, false, Option, none,
  some, List, [], ◌∷◌, ◌++◌, length,
}
use lama_rv_workshop.Base.Int.{ℤ, pos, negsuc, ltb_ℤ, eqb_ℤ}
use lama_rv_workshop.Base.Word.{to_word}
use lama_rv_workshop.Base.Outcome.{Outcome, ok, exited, fault, out_of_fuel, ◌>>=◌}
use lama_rv_workshop.Compiler.Asm.{Label}
use lama_rv_workshop.Compiler.Binop.{BinopKind}
use lama_rv_workshop.Compiler.Instruction
use lama_rv_workshop.Compiler.Instruction.{Inst, Location, LocationEntry, to_int, box_int32}
use lama_rv_workshop.Compiler.Bytefile.{
  Bytefile, buffer_offset, int_at, get_string, get_public_name, get_public_offset, c_string,
  text_of,
}

-- `ip` is a place in the file's buffer. The map of the functions' names, which nothing reads, is
-- left out.
pub record InstReader : Type 0 where
  pub ip : ℕ
  pub function_index : ℕ
  pub strings : List (List ℕ)

-- What a number stands for in an `enum`.
abbrev pub lookup {ℓ} : {A : Type ℓ} → ℕ → List (ℕ × A) → Option A
lookup n [] = none
lookup n ((k, x) ∷ rest) = if k == n then some x else lookup n rest

abbrev pub locations : List (ℕ × Location)
locations =
    (0, Location.global) ∷ (1, Location.local) ∷ (2, Location.arg) ∷ (3, Location.captured) ∷ []

abbrev pub location_of : ℕ → Location
location_of n = elim (lookup n locations) [ none ↦ Location.other | some l ↦ l ]

abbrev pub binop_kinds : List (ℕ × BinopKind)
binop_kinds =
    (1, BinopKind.add)
    ∷ (2, BinopKind.sub)
    ∷ (3, BinopKind.mul)
    ∷ (4, BinopKind.div)
    ∷ (5, BinopKind.rem)
    ∷ (6, BinopKind.less_than)
    ∷ (7, BinopKind.less_equal)
    ∷ (8, BinopKind.greater_than)
    ∷ (9, BinopKind.greater_equal)
    ∷ (10, BinopKind.equal)
    ∷ (11, BinopKind.not_equal)
    ∷ (12, BinopKind.and)
    ∷ (13, BinopKind.or)
    ∷ []

pub data Opcode : Type 0 where
  const string sexp store_stack store_array jmp end return drop dup swap elem : Opcode
  cjmp_z cjmp_nz begin cbegin closure call_closure call tag array fail line : Opcode

abbrev pub opcodes : List (ℕ × Opcode)
opcodes =
    (16, const)
    ∷ (17, string)
    ∷ (18, sexp)
    ∷ (19, store_stack)
    ∷ (20, store_array)
    ∷ (21, jmp)
    ∷ (22, end)
    ∷ (23, return)
    ∷ (24, drop)
    ∷ (25, dup)
    ∷ (26, swap)
    ∷ (27, elem)
    ∷ (80, cjmp_z)
    ∷ (81, cjmp_nz)
    ∷ (82, begin)
    ∷ (83, cbegin)
    ∷ (84, closure)
    ∷ (85, call_closure)
    ∷ (86, call)
    ∷ (87, tag)
    ∷ (88, array)
    ∷ (89, fail)
    ∷ (90, line)
    ∷ []

pub data HighOpcode : Type 0 where
  binop load load_array store pattern_inst builtin stop : HighOpcode

abbrev pub high_opcodes : List (ℕ × HighOpcode)
high_opcodes =
    (0, binop)
    ∷ (2, load)
    ∷ (3, load_array)
    ∷ (4, store)
    ∷ (6, pattern_inst)
    ∷ (7, builtin)
    ∷ (15, stop)
    ∷ []

pub data BuiltinCall : Type 0 where
  read write length_of string_of array_of : BuiltinCall

abbrev pub builtin_calls : List (ℕ × BuiltinCall)
builtin_calls = (0, read) ∷ (1, write) ∷ (2, length_of) ∷ (3, string_of) ∷ (4, array_of) ∷ []

abbrev pub byte_of : List ℕ → Outcome ℕ
byte_of [] = fault
byte_of (b ∷ rest) = ok b

module _ (file : Bytefile) where
  -- `get_offset` as the `size_t` that it is used as.
  abbrev pub get_offset : InstReader → ℕ
  get_offset r = to_word (to_int (r.ip - file.code_ptr))

  -- `assert_can_read`
  abbrev pub can_read : ℕ → InstReader → Bool
  can_read bytes r =
      if leb file.code_ptr r.ip
      then (if ltb_ℤ file.size (pos (buffer_offset + r.ip + bytes)) then false else true)
      else false

  unfoldable pub read_byte : InstReader → Outcome (ℕ × InstReader)
  read_byte r =
      if can_read 1 r
      then (do
        b ← byte_of (lama_rv_workshop.Base.drop r.ip file.buffer)
        ok (b, record r { ip = r.ip + 1 }))
      else exited

  unfoldable pub read_int : InstReader → Outcome (ℤ × InstReader)
  read_int r =
      if can_read 4 r
      then (do n ← int_at file.buffer r.ip; ok (n, record r { ip = r.ip + 4 }))
      else exited

  -- `read_string`, given the place that was read; -1 stands for none.
  unfoldable pub read_string_at : ℤ → InstReader → Outcome (ℕ × InstReader)
  read_string_at place r =
      let again = (do (n, r1) ← read_int r; s ← get_string file n; ok (s, r1)) in
      if eqb_ℤ place (negsuc 0) then again else (do s ← get_string file place; ok (s, r))

  -- `read_string` without an argument, as the string's bytes.
  abbrev pub read_string : InstReader → Outcome (List ℕ × InstReader)
  read_string r = do (s, r1) ← read_string_at (negsuc 0) r; name ← c_string file s; ok (name, r1)

  unfoldable pub read_loc : InstReader → Outcome (LocationEntry × InstReader)
  read_loc r = do
    (kind, r1) ← read_byte r
    (index, r2) ← read_int r1
    ok (record { kind = location_of kind; index = index }, r2)

  -- The loop over what a closure captures.
  unfoldable pub read_locs : ℕ → InstReader → Outcome (List LocationEntry × InstReader)
  read_locs zero r = ok ([], r)
  read_locs (suc n) r = do (loc, r1) ← read_loc r; (locs, r2) ← read_locs n r1; ok (loc ∷ locs, r2)

  -- `Begin`, behind its opcode: `start` is the place of that.
  unfoldable pub read_begin : ℕ → InstReader → Outcome (Inst × InstReader)
  read_begin start r = do
    let index = r.function_index
    (argc, r1) ← read_int (record r { function_index = index + 1 })
    (locc, r2) ← read_int r1
    if ltb index file.public_symbols_number
        then (do
          offset ← get_public_offset file (pos index)
          let named = (do
            s ← get_public_name file (pos index)
            name ← c_string file s
            ok (Inst.begin (Label.function (text_of name)) (to_word argc) (to_word locc), r2))
          if to_word offset == start then named else exited)
        else ok (Inst.begin (Label.ip start) (to_word argc) (to_word locc), r2)

  -- An instruction with one number, with two, and without any.
  abbrev pub with_int : (ℤ → Inst) → InstReader → Outcome (Inst × InstReader)
  with_int make r = do (n, r1) ← read_int r; ok (make n, r1)

  abbrev pub with_ints : (ℤ → ℤ → Inst) → InstReader → Outcome (Inst × InstReader)
  with_ints make r = do (n, r1) ← read_int r; (m, r2) ← read_int r1; ok (make n m, r2)

  abbrev pub with_name : (List ℕ → ℤ → Inst) → InstReader → Outcome (Inst × InstReader)
  with_name make r = do (name, r1) ← read_string r; (n, r2) ← read_int r1; ok (make name n, r2)

  unfoldable pub read_string_inst : InstReader → Outcome (Inst × InstReader)
  read_string_inst r = do
    (ind, r1) ← read_int r
    (s, r2) ← read_string_at ind r1
    text ← c_string file s
    ok (Inst.string (length r2.strings), record r2 { strings = r2.strings ++ (text ∷ []) })

  -- A negative number of captured variables is no range to run over.
  unfoldable pub read_closure : InstReader → Outcome (Inst × InstReader)
  read_closure r = do
    (entry, r1) ← read_int r
    (n, r2) ← read_int r1
    elim n [
      | negsuc k ↦ fault
      | pos k ↦ (do (locs, r3) ← read_locs k r2; ok (Inst.closure (to_word entry) locs, r3))
    ]

  unfoldable pub read_op : Opcode → ℕ → InstReader → Outcome (Inst × InstReader)
  read_op const start r = with_int (λ n. Inst.const (box_int32 n)) r
  read_op string start r = read_string_inst r
  read_op sexp start r = with_name (λ name n. Inst.sexpression name (to_word n)) r
  read_op store_stack start r = ok (Inst.store_stack, r)
  read_op store_array start r = ok (Inst.store_array, r)
  read_op jmp start r = with_int (λ n. Inst.jump (to_word n)) r
  read_op end start r = ok (Inst.end, r)
  read_op return start r = ok (Inst.return, r)
  read_op drop start r = ok (Inst.drop, r)
  read_op dup start r = ok (Inst.duplicate, r)
  read_op swap start r = ok (Inst.swap, r)
  read_op elem start r = ok (Inst.elem, r)
  read_op cjmp_z start r = with_int (λ n. Inst.conditional_jump (to_word n) true) r
  read_op cjmp_nz start r = with_int (λ n. Inst.conditional_jump (to_word n) false) r
  read_op begin start r = read_begin start r
  read_op cbegin start r = with_ints (λ argc locc. Inst.cbegin (to_word argc) (to_word locc)) r
  read_op closure start r = read_closure r
  read_op call_closure start r = with_int (λ n. Inst.call_closure (to_word n)) r
  read_op call start r =
      with_ints (λ callee argc. Inst.call (Label.ip (to_word callee)) (to_word argc)) r
  read_op tag start r = with_name (λ name n. Inst.tag name (to_word n)) r
  read_op array start r = with_int (λ n. Inst.array (to_word n)) r
  read_op fail start r = with_ints (λ line col. Inst.fail (to_word line) (to_word col)) r
  read_op line start r = with_int (λ n. Inst.line (to_word n)) r

  unfoldable pub read_builtin : BuiltinCall → InstReader → Outcome (Inst × InstReader)
  read_builtin read r = ok (Inst.builtin_read, r)
  read_builtin write r = ok (Inst.builtin_write, r)
  read_builtin length_of r = ok (Inst.builtin_length, r)
  read_builtin string_of r = ok (Inst.builtin_string, r)
  read_builtin array_of r = with_int (λ n. Inst.builtin_array (to_word n)) r

  abbrev pub at_location : (LocationEntry → Inst) → ℕ → ℤ → Inst
  at_location make low n = make (record { kind = location_of low; index = n })

  -- By the high and the low bits; `Stop` ends the program.
  unfoldable pub read_high : HighOpcode → ℕ → InstReader → Outcome (Option Inst × InstReader)
  read_high binop low r = ok (some (Inst.binop (lookup low binop_kinds)), r)
  read_high load low r = with_int (at_location Inst.load low) r >>= (λ i. ok (some i.0, i.1))
  read_high load_array low r =
      with_int (λ n. Inst.load_array (to_word n) (location_of low)) r >>= (λ i. ok (some i.0, i.1))
  read_high store low r = with_int (at_location Inst.store low) r >>= (λ i. ok (some i.0, i.1))
  read_high pattern_inst low r = ok (some (Inst.pattern_inst low), r)
  read_high builtin low r = elim (lookup low builtin_calls) [
    | none ↦ exited
    | some b ↦ (read_builtin b r >>= (λ i. ok (some i.0, i.1)))
  ]
  read_high stop low r = ok (none, r)

  -- What the opcode `x` stands for.
  unfoldable pub read_opcode : ℕ → InstReader → Outcome (Option Inst × InstReader)
  read_opcode x r = elim (lookup x opcodes) [
    | some op ↦
        (read_op op (to_word (to_int (r.ip - file.code_ptr - 1))) r >>= (λ i. ok (some i.0, i.1)))
    | none ↦ elim (lookup (x / 16) high_opcodes) [
      | none ↦ exited
      | some high ↦ read_high high (x % 16) r
    ]
  ]

  unfoldable pub read_inst : InstReader → Outcome (Option Inst × InstReader)
  read_inst r = do (x, r1) ← read_byte r; read_opcode x r1

-- The constructor, with the checks of its loop over the public functions.
abbrev pub check_publics : Bytefile → ℕ → ℕ → Outcome (Unit {0})
check_publics file i zero = ok tt
check_publics file i (suc n) = do
  offset ← get_public_offset file (pos i)
  s ← get_public_name file (pos i)
  name ← c_string file s
  check_publics file (i + 1) n

unfoldable pub new_reader : Bytefile → Outcome InstReader
new_reader file = do
  done ← check_publics file 0 file.public_symbols_number
  ok (record { ip = file.code_ptr; function_index = 0; strings = [] })
