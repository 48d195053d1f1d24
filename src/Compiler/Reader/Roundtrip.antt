-- ===== src/Compiler/Reader/Roundtrip.antt =====
-- `read_inst` of comp/src/read.cpp gives back the instructions that were encoded.
use lama_rv_workshop.Base.{
  ℕ, ◌≡◌, ◌<◌, ◌^◌, refl, true, false, Option, none, some, List, [], ◌∷◌, ◌++◌, length, arith, ap,
  ◌∙◌,
}
use native.Mathlib.Nat.{mod-eq_of_lt}
use lama_rv_workshop.Base.Int.{ℤ, pos}
use lama_rv_workshop.Base.Word.{to_word}
use lama_rv_workshop.Base.Outcome.{Outcome, ok, ◌>>=◌}
use lama_rv_workshop.Compiler.Asm.{Label}
use lama_rv_workshop.Compiler.Binop.{BinopKind}
use lama_rv_workshop.Compiler.Instruction.{Inst}
use lama_rv_workshop.Compiler.Bytefile.{Bytefile}
use lama_rv_workshop.Compiler.Reader.{
  InstReader, read_int, with_int, with_ints, read_opcode, read_op, read_high, read_builtin,
  read_inst,
}
use lama_rv_workshop.Compiler.Reader.Encode.{number, At, forward, behind, read_byte-At, read_int-At}

abbrev pub op_code : BinopKind → ℕ
op_code BinopKind.add = 1
op_code BinopKind.sub = 2
op_code BinopKind.mul = 3
op_code BinopKind.div = 4
op_code BinopKind.rem = 5
op_code BinopKind.less_than = 6
op_code BinopKind.less_equal = 7
op_code BinopKind.greater_than = 8
op_code BinopKind.greater_equal = 9
op_code BinopKind.equal = 10
op_code BinopKind.not_equal = 11
op_code BinopKind.and = 12
op_code BinopKind.or = 13

-- The bytes of an instruction without a name, a captured variable or a place.
abbrev pub encode : Inst → List ℕ
encode Inst.store_stack = 19 ∷ []
encode Inst.store_array = 20 ∷ []
encode (Inst.jump target) = 21 ∷ number target
encode Inst.end = 22 ∷ []
encode Inst.return = 23 ∷ []
encode Inst.drop = 24 ∷ []
encode Inst.duplicate = 25 ∷ []
encode Inst.swap = 26 ∷ []
encode Inst.elem = 27 ∷ []
encode (Inst.conditional_jump target true) = 80 ∷ number target
encode (Inst.conditional_jump target false) = 81 ∷ number target
encode (Inst.cbegin argc locc) = 83 ∷ number argc ++ number locc
encode (Inst.call_closure argc) = 85 ∷ number argc
encode (Inst.call (Label.ip target) argc) = 86 ∷ number target ++ number argc
encode (Inst.array size) = 88 ∷ number size
encode (Inst.fail line col) = 89 ∷ number line ++ number col
encode (Inst.line line) = 90 ∷ number line
encode (Inst.binop (some op)) = op_code op ∷ []
encode Inst.builtin_read = 112 ∷ []
encode Inst.builtin_write = 113 ∷ []
encode Inst.builtin_length = 114 ∷ []
encode Inst.builtin_string = 115 ∷ []
encode (Inst.builtin_array len) = 116 ∷ number len
encode _ = []

abbrev Small : ℕ → Type 0
Small n = n < 2 ^ 31

-- The instructions that are encoded, with numbers that are not negative as `int`.
abbrev pub IsEncoded : Inst → Type 0
IsEncoded (Inst.jump target) = Small target
IsEncoded (Inst.conditional_jump target on_zero) = Small target
IsEncoded (Inst.cbegin argc locc) = Small argc × Small locc
IsEncoded (Inst.call_closure argc) = Small argc
IsEncoded (Inst.call (Label.ip target) argc) = Small target × Small argc
IsEncoded (Inst.array size) = Small size
IsEncoded (Inst.fail line col) = Small line × Small col
IsEncoded (Inst.line line) = Small line
IsEncoded (Inst.builtin_array len) = Small len
IsEncoded (Inst.binop (some op)) = Unit
IsEncoded Inst.store_stack = Unit
IsEncoded Inst.store_array = Unit
IsEncoded Inst.end = Unit
IsEncoded Inst.return = Unit
IsEncoded Inst.drop = Unit
IsEncoded Inst.duplicate = Unit
IsEncoded Inst.swap = Unit
IsEncoded Inst.elem = Unit
IsEncoded Inst.builtin_read = Unit
IsEncoded Inst.builtin_write = Unit
IsEncoded Inst.builtin_length = Unit
IsEncoded Inst.builtin_string = Unit
IsEncoded _ = ⊥

Small-to_word : (n : ℕ) → Small n → to_word (pos n) ≡ n
Small-to_word n small = mod-eq_of_lt (omega (arith, small))

module _ (file : Bytefile) where
  abbrev passed : Inst × InstReader → Outcome (Option Inst × InstReader)
  passed i = ok (some i.0, i.1)

  abbrev made : (ℤ → Inst) → ℤ × InstReader → Outcome (Inst × InstReader)
  made make q = ok (make q.0, q.1)

  abbrev made_two : (ℤ → ℤ → Inst) → ℤ × InstReader → Outcome (Inst × InstReader)
  made_two make q = read_int file q.1 >>= made (make q.0)

  -- An opcode by itself, with one number, and with two.
  coded_none :
      (b : ℕ) (inst : Inst) (rest : List ℕ) (r : InstReader)
      → ((r1 : InstReader) → read_opcode file b r1 ≡ ok (some inst, r1))
      → At file r (b ∷ []) rest
      → read_inst file r ≡ ok (some inst, forward 1 r)
  unfolding read_inst
  coded_none b inst rest r step at =
      ap (λ m. m >>= (λ q. read_opcode file q.0 q.1)) (read_byte-At file b [] rest r at)
      ∙ step (forward 1 r)

  coded_one :
      (b : ℕ) (make : ℤ → Inst) (n : ℕ) (rest : List ℕ) (r : InstReader)
      → ((r1 : InstReader) → read_opcode file b r1 ≡ (with_int file make r1 >>= passed))
      → Small n
      → At file r (b ∷ number n) rest
      → read_inst file r ≡ ok (some (make (pos n)), forward 5 r)
  unfolding read_inst
  coded_one b make n rest r step small at =
      ap (λ m. m >>= (λ q. read_opcode file q.0 q.1)) (read_byte-At file b (number n) rest r at)
      ∙ (step (forward 1 r)
          ∙ (ap (λ m. (m >>= made make) >>= passed)
                (read_int-At file n [] rest (forward 1 r) small
                  (behind file r (b ∷ []) (number n) rest at))
              ∙ ap (λ k. ok (some (make (pos n)), record r { ip = k })) (omega arith)))

  coded_two :
      (b : ℕ) (make : ℤ → ℤ → Inst) (n m : ℕ) (rest : List ℕ) (r : InstReader)
      → ((r1 : InstReader) → read_opcode file b r1 ≡ (with_ints file make r1 >>= passed))
      → Small n × Small m
      → At file r (b ∷ number n ++ number m) rest
      → read_inst file r ≡ ok (some (make (pos n) (pos m)), forward 9 r)
  unfolding read_inst
  coded_two b make n m rest r step small at =
      ap (λ m. m >>= (λ q. read_opcode file q.0 q.1))
        (read_byte-At file b (number n ++ number m) rest r at)
      ∙ (step (forward 1 r)
          ∙ (ap (λ o. (o >>= made_two make) >>= passed)
                (read_int-At file n (number m) rest (forward 1 r) small.0
                  (behind file r (b ∷ []) (number n ++ number m) rest at))
              ∙ (ap (λ o. (o >>= made (make (pos n))) >>= passed)
                    (read_int-At file m [] rest (forward 4 (forward 1 r)) small.1 (
                      behind file (forward 1 r) (number n) (number m) rest
                        (behind file r (b ∷ []) (number n ++ number m) rest at)))
                  ∙ ap (λ k. ok (some (make (pos n) (pos m)), record r { ip = k })) (omega arith))))

  -- Where the bytes of an instruction stand at the reader, in the code and in the file, read_inst
  -- gives the instruction back and goes on by as many bytes: for the operators, the operations on
  -- the stack, jumps, calls of addresses, Line, Fail and the builtins, with numbers below 2 ^ 31.
  pub read_inst-encode :
      (inst : Inst) (rest : List ℕ) (r : InstReader)
      → IsEncoded inst
      → At file r (encode inst) rest
      → read_inst file r ≡ ok (some inst, forward (length (encode inst)) r)
  unfolding read_opcode read_op read_high read_builtin
  read_inst-encode Inst.store_stack rest r h at = coded_none 19 _ rest r (λ r1. refl) at
  read_inst-encode Inst.store_array rest r h at = coded_none 20 _ rest r (λ r1. refl) at
  read_inst-encode (Inst.jump target) rest r h at =
      coded_one 21 (λ n. Inst.jump (to_word n)) target rest r (λ r1. refl) h at
      ∙ ap (λ n. ok (some (Inst.jump n), forward 5 r)) (Small-to_word target h)
  read_inst-encode (Inst.conditional_jump target true) rest r h at =
      coded_one 80 (λ n. Inst.conditional_jump (to_word n) true) target rest r (λ r1. refl) h at
      ∙ ap (λ n. ok (some (Inst.conditional_jump n true), forward 5 r)) (Small-to_word target h)
  read_inst-encode (Inst.conditional_jump target false) rest r h at =
      coded_one 81 (λ n. Inst.conditional_jump (to_word n) false) target rest r (λ r1. refl) h at
      ∙ ap (λ n. ok (some (Inst.conditional_jump n false), forward 5 r)) (Small-to_word target h)
  read_inst-encode Inst.end rest r h at = coded_none 22 _ rest r (λ r1. refl) at
  read_inst-encode Inst.return rest r h at = coded_none 23 _ rest r (λ r1. refl) at
  read_inst-encode Inst.drop rest r h at = coded_none 24 _ rest r (λ r1. refl) at
  read_inst-encode Inst.duplicate rest r h at = coded_none 25 _ rest r (λ r1. refl) at
  read_inst-encode Inst.swap rest r h at = coded_none 26 _ rest r (λ r1. refl) at
  read_inst-encode Inst.elem rest r h at = coded_none 27 _ rest r (λ r1. refl) at
  read_inst-encode Inst.builtin_read rest r h at = coded_none 112 _ rest r (λ r1. refl) at
  read_inst-encode Inst.builtin_write rest r h at = coded_none 113 _ rest r (λ r1. refl) at
  read_inst-encode Inst.builtin_length rest r h at = coded_none 114 _ rest r (λ r1. refl) at
  read_inst-encode Inst.builtin_string rest r h at = coded_none 115 _ rest r (λ r1. refl) at
  read_inst-encode (Inst.cbegin argc locc) rest r h at =
      coded_two 83 (λ n m. Inst.cbegin (to_word n) (to_word m)) argc locc rest r (λ r1. refl) h at
      ∙ (ap (λ k. ok (some (Inst.cbegin k (to_word (pos locc))), forward 9 r))
            (Small-to_word argc h.0)
          ∙ ap (λ k. ok (some (Inst.cbegin argc k), forward 9 r)) (Small-to_word locc h.1))
  read_inst-encode (Inst.call_closure argc) rest r h at =
      coded_one 85 (λ n. Inst.call_closure (to_word n)) argc rest r (λ r1. refl) h at
      ∙ ap (λ n. ok (some (Inst.call_closure n), forward 5 r)) (Small-to_word argc h)
  read_inst-encode (Inst.call (Label.ip target) argc) rest r h at =
      coded_two 86 (λ n m. Inst.call (Label.ip (to_word n)) (to_word m)) target argc rest r
        (λ r1. refl) h at
      ∙ (ap (λ k. ok (some (Inst.call (Label.ip k) (to_word (pos argc))), forward 9 r))
            (Small-to_word target h.0)
          ∙ ap (λ k. ok (some (Inst.call (Label.ip target) k), forward 9 r))
              (Small-to_word argc h.1))
  read_inst-encode (Inst.array size) rest r h at =
      coded_one 88 (λ n. Inst.array (to_word n)) size rest r (λ r1. refl) h at
      ∙ ap (λ n. ok (some (Inst.array n), forward 5 r)) (Small-to_word size h)
  read_inst-encode (Inst.fail line col) rest r h at =
      coded_two 89 (λ n m. Inst.fail (to_word n) (to_word m)) line col rest r (λ r1. refl) h at
      ∙ (ap (λ k. ok (some (Inst.fail k (to_word (pos col))), forward 9 r)) (Small-to_word line h.0)
          ∙ ap (λ k. ok (some (Inst.fail line k), forward 9 r)) (Small-to_word col h.1))
  read_inst-encode (Inst.line line) rest r h at =
      coded_one 90 (λ n. Inst.line (to_word n)) line rest r (λ r1. refl) h at
      ∙ ap (λ n. ok (some (Inst.line n), forward 5 r)) (Small-to_word line h)
  read_inst-encode (Inst.builtin_array len) rest r h at =
      coded_one 116 (λ n. Inst.builtin_array (to_word n)) len rest r (λ r1. refl) h at
      ∙ ap (λ n. ok (some (Inst.builtin_array n), forward 5 r)) (Small-to_word len h)
  read_inst-encode (Inst.binop (some BinopKind.add)) rest r h at =
      coded_none 1 _ rest r (λ r1. refl) at
  read_inst-encode (Inst.binop (some BinopKind.sub)) rest r h at =
      coded_none 2 _ rest r (λ r1. refl) at
  read_inst-encode (Inst.binop (some BinopKind.mul)) rest r h at =
      coded_none 3 _ rest r (λ r1. refl) at
  read_inst-encode (Inst.binop (some BinopKind.div)) rest r h at =
      coded_none 4 _ rest r (λ r1. refl) at
  read_inst-encode (Inst.binop (some BinopKind.rem)) rest r h at =
      coded_none 5 _ rest r (λ r1. refl) at
  read_inst-encode (Inst.binop (some BinopKind.less_than)) rest r h at =
      coded_none 6 _ rest r (λ r1. refl) at
  read_inst-encode (Inst.binop (some BinopKind.less_equal)) rest r h at =
      coded_none 7 _ rest r (λ r1. refl) at
  read_inst-encode (Inst.binop (some BinopKind.greater_than)) rest r h at =
      coded_none 8 _ rest r (λ r1. refl) at
  read_inst-encode (Inst.binop (some BinopKind.greater_equal)) rest r h at =
      coded_none 9 _ rest r (λ r1. refl) at
  read_inst-encode (Inst.binop (some BinopKind.equal)) rest r h at =
      coded_none 10 _ rest r (λ r1. refl) at
  read_inst-encode (Inst.binop (some BinopKind.not_equal)) rest r h at =
      coded_none 11 _ rest r (λ r1. refl) at
  read_inst-encode (Inst.binop (some BinopKind.and)) rest r h at =
      coded_none 12 _ rest r (λ r1. refl) at
  read_inst-encode (Inst.binop (some BinopKind.or)) rest r h at =
      coded_none 13 _ rest r (λ r1. refl) at
  read_inst-encode (Inst.const v) rest r h at = elim h [ ]
  read_inst-encode (Inst.string i) rest r h at = elim h [ ]
  read_inst-encode (Inst.sexpression n k) rest r h at = elim h [ ]
  read_inst-encode (Inst.begin l a k) rest r h at = elim h [ ]
  read_inst-encode (Inst.closure e k) rest r h at = elim h [ ]
  read_inst-encode (Inst.tag n k) rest r h at = elim h [ ]
  read_inst-encode (Inst.binop none) rest r h at = elim h [ ]
  read_inst-encode (Inst.load e) rest r h at = elim h [ ]
  read_inst-encode (Inst.load_array i k) rest r h at = elim h [ ]
  read_inst-encode (Inst.store e) rest r h at = elim h [ ]
  read_inst-encode (Inst.pattern_inst k) rest r h at = elim h [ ]
  read_inst-encode (Inst.call (Label.function f) n) rest r h at = elim h [ ]
  read_inst-encode (Inst.call (Label.string_at k) n) rest r h at = elim h [ ]
  read_inst-encode (Inst.call Label.fname n) rest r h at = elim h [ ]
