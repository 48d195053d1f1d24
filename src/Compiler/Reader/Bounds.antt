-- ===== src/Compiler/Reader/Bounds.antt =====
-- An instruction is read from the bytes of the file: comp/src/read.cpp.
use lama_rv_workshop.Base.{ℕ, ◌-◌, ◌/◌, ◌%◌, ◌<◌, Option, none, some, arith}
use lama_rv_workshop.Base.Word.{to_word}
use lama_rv_workshop.Base.Outcome.{Outcome, ok, exited, ◌>>=◌, Post, Post-bind, Post-weaken}
use lama_rv_workshop.Compiler.Instruction.{Inst, to_int}
use lama_rv_workshop.Compiler.Bytefile.{Bytefile}
use lama_rv_workshop.Compiler.Reader.{
  InstReader, lookup, opcodes, high_opcodes, builtin_calls, Opcode, HighOpcode, BuiltinCall,
  read_byte, read_op, read_builtin, read_high, read_opcode, read_inst,
}
use lama_rv_workshop.Compiler.Reader.Forward.{
  Fits, Forward, Reads, read_byte-Reads, Forward-refl, Reads-bind, with_int-Reads, with_ints-Reads,
  with_name-Reads, read_string_inst-Reads, read_closure-Reads, read_begin-Reads,
}

module _ (file : Bytefile) where
  read_op-Reads :
      (op : Opcode) (start : ℕ) (r : InstReader) → Reads file 0 r (read_op file op start r)
  unfolding read_op
  read_op-Reads Opcode.const start r = with_int-Reads file _ r
  read_op-Reads Opcode.string start r = read_string_inst-Reads file r
  read_op-Reads Opcode.sexp start r = with_name-Reads file _ r
  read_op-Reads Opcode.store_stack start r = Forward-refl file r
  read_op-Reads Opcode.store_array start r = Forward-refl file r
  read_op-Reads Opcode.jmp start r = with_int-Reads file _ r
  read_op-Reads Opcode.end start r = Forward-refl file r
  read_op-Reads Opcode.return start r = Forward-refl file r
  read_op-Reads Opcode.drop start r = Forward-refl file r
  read_op-Reads Opcode.dup start r = Forward-refl file r
  read_op-Reads Opcode.swap start r = Forward-refl file r
  read_op-Reads Opcode.elem start r = Forward-refl file r
  read_op-Reads Opcode.cjmp_z start r = with_int-Reads file _ r
  read_op-Reads Opcode.cjmp_nz start r = with_int-Reads file _ r
  read_op-Reads Opcode.begin start r = read_begin-Reads file start r
  read_op-Reads Opcode.cbegin start r = with_ints-Reads file _ r
  read_op-Reads Opcode.closure start r = read_closure-Reads file r
  read_op-Reads Opcode.call_closure start r = with_int-Reads file _ r
  read_op-Reads Opcode.call start r = with_ints-Reads file _ r
  read_op-Reads Opcode.tag start r = with_name-Reads file _ r
  read_op-Reads Opcode.array start r = with_int-Reads file _ r
  read_op-Reads Opcode.fail start r = with_ints-Reads file _ r
  read_op-Reads Opcode.line start r = with_int-Reads file _ r

  read_builtin-Reads : (b : BuiltinCall) (r : InstReader) → Reads file 0 r (read_builtin file b r)
  unfolding read_builtin
  read_builtin-Reads BuiltinCall.read r = Forward-refl file r
  read_builtin-Reads BuiltinCall.write r = Forward-refl file r
  read_builtin-Reads BuiltinCall.length_of r = Forward-refl file r
  read_builtin-Reads BuiltinCall.string_of r = Forward-refl file r
  read_builtin-Reads BuiltinCall.array_of r = with_int-Reads file _ r

  -- An instruction that was read is passed on.
  passed :
      (r : InstReader) (m : Outcome (Inst × InstReader))
      → Reads file 0 r m
      → Reads file 0 r (m >>= (λ i. ok (some i.0, i.1)))
  passed r m h = Reads-bind file 0 0 r m _ h (λ i. Forward-refl file i.1)

  read_high-Reads :
      (high : HighOpcode) (low : ℕ) (r : InstReader) → Reads file 0 r (read_high file high low r)
  unfolding read_high
  read_high-Reads HighOpcode.binop low r = Forward-refl file r
  read_high-Reads HighOpcode.load low r = passed r _ (with_int-Reads file _ r)
  read_high-Reads HighOpcode.load_array low r = passed r _ (with_int-Reads file _ r)
  read_high-Reads HighOpcode.store low r = passed r _ (with_int-Reads file _ r)
  read_high-Reads HighOpcode.pattern_inst low r = Forward-refl file r
  read_high-Reads HighOpcode.builtin low r = go (lookup low builtin_calls)
    where
      go :
          (b : Option BuiltinCall)
          → Reads file 0 r (elim b [
            | none ↦ exited
            | some b ↦ (read_builtin file b r >>= (λ i. ok (some i.0, i.1)))
          ])
      go none = tt
      go (some b) = passed r _ (read_builtin-Reads b r)
  read_high-Reads HighOpcode.stop low r = Forward-refl file r

  read_opcode-Reads : (x : ℕ) (r : InstReader) → Reads file 0 r (read_opcode file x r)
  unfolding read_opcode
  read_opcode-Reads x r = go (lookup x opcodes)
    where
      start : ℕ
      start = to_word (to_int (r.ip - file.code_ptr - 1))

      high_case :
          (h : Option HighOpcode)
          → Reads file 0 r (elim h [ none ↦ exited | some high ↦ read_high file high (x % 16) r ])
      high_case none = tt
      high_case (some high) = read_high-Reads high (x % 16) r

      go :
          (op : Option Opcode)
          → Reads file 0 r (elim op [
            | some op ↦ (read_op file op start r >>= (λ i. ok (some i.0, i.1)))
            | none ↦ elim (lookup (x / 16) high_opcodes) [
              | none ↦ exited
              | some high ↦ read_high file high (x % 16) r
            ]
          ])
      go (some op) = passed r _ (read_op-Reads op start r)
      go none = high_case (lookup (x / 16) high_opcodes)

  -- Reading an instruction ends; if it gives a result, the reader is at least one byte further on
  -- and not behind the end of the file.
  pub read_inst-Reads :
      (r : InstReader) → Post (λ q. (r.ip < q.1.ip) × Fits file q.1) (read_inst file r)
  unfolding read_inst
  read_inst-Reads r =
      Post-bind (λ q. (r.ip < q.1.ip) × Fits file q.1) (read_byte file r) _
        (Post-weaken (λ q. Forward file 1 r q.1 × Fits file q.1) _ (read_byte file r)
          (λ q h.
            Post-weaken (λ p. Forward file 0 q.1 p.1) _ (read_opcode file q.0 q.1)
              (λ p f. (omega (arith, h.0.further, f.further), f.fits h.1))
              (read_opcode-Reads q.0 q.1))
          (read_byte-Reads file r))
