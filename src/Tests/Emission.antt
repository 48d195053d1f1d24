-- ===== src/Tests/Emission.antt =====
-- A small program, its file, and the theorems on them.
use lama_rv_workshop.Base.{
  ℕ, ◌<◌, ◌≤◌, ◌^◌, drop, ◌≡◌, refl, true, none, some, List, [], ◌∷◌, ◌++◌, arith, ◌==◌,
  if◌then◌else◌,
}
use lama_rv_workshop.Base.Int.{pos, negsuc, ◌+ℤ◌, ◌*ℤ◌}
use lama_rv_workshop.Base.Outcome.{Outcome, ok, exited, Post}
use lama_rv_workshop.Runtime.TagHash.{tag_hash}
use lama_rv_workshop.Compiler.Asm.{Asm, Label}
use lama_rv_workshop.Compiler.Stack.{reg, pop, alloc, spilled_count}
use lama_rv_workshop.Compiler.Buffer.{to_reg, symb_emit_mv_from, symb_emit_mv_to}
use lama_rv_workshop.Compiler.Machine.{Cpu, read, write_reg, run}
use lama_rv_workshop.Compiler.Instruction.{Inst, is_terminator, can_print, Location}
use lama_rv_workshop.Compiler.TagHash.{static_tag_hash}
use lama_rv_workshop.Compiler.TagHash.Same.{as_static, static_tag_hash_lem}
use lama_rv_workshop.Compiler.Bytefile.{
  Bytefile, read_file, get_string, get_public_name, get_public_offset,
}
use lama_rv_workshop.Compiler.Reader.{
  InstReader, read_inst, read_byte, read_opcode, read_op, read_begin, read_int, read_high,
}
use lama_rv_workshop.Compiler.Reader.Encode.{forward}
use lama_rv_workshop.Compiler.Reader.Roundtrip.{encode, read_inst-encode}
use lama_rv_workshop.Compiler.Reader.Forward.{Fits}
use lama_rv_workshop.Compiler.Reader.Bounds.{read_inst-Reads}
use lama_rv_workshop.Compiler.State.{
  Compiler, add_jump_target, emplace_todo, should_emit, inst_begin,
}
use lama_rv_workshop.Compiler.Call.{
  compile_call, compile_call_in, count_args, load_args, push_args, emit_call,
}
use lama_rv_workshop.Compiler.Call.Balance.{Balanced, compile_call-Balanced}
use lama_rv_workshop.Compiler.Emit.{
  emit_begin, emit_load, emit_load_in, emit_conditional_jump, emit_const, emit_end, emit_code,
  load_arg, store_arg,
}
use lama_rv_workshop.Compiler.Emit.Arguments.{store_arg_lost}
use lama_rv_workshop.Compiler.Extends.{Extends}
use lama_rv_workshop.Compiler.CodeExtends.{emit_code-Extends}
use lama_rv_workshop.Compiler.Driver.{
  Program, emit_program, add_publics, emit_loop, emit_from, emit_block, emit_inst,
}
use lama_rv_workshop.Compiler.Driver.Total.{IsCompiled, emit_program-IsCompiled}
use lama_rv_workshop.Compiler.Lines.{ip_labels, ip_targets}
use lama_rv_workshop.Compiler.Linked.{count}
use lama_rv_workshop.Compiler.Main.{compile_file, read_program, emplace}
use lama_rv_workshop.Compiler.Main.Order.{read_list, read_program-read_list}
use lama_rv_workshop.Compiler.Main.Total.{compile_file_lem}

-- A function that calls itself on its argument unless that is zero.
abbrev program : Program
program =
    (0, Inst.begin (Label.function "f") 1 0)
    ∷ (9, Inst.load (record { kind = Location.arg; index = pos 0 }))
    ∷ (14, Inst.conditional_jump 33 true)
    ∷ (19, Inst.load (record { kind = Location.arg; index = pos 0 }))
    ∷ (24, Inst.call (Label.ip 0) 1)
    ∷ (32, Inst.end)
    ∷ (33, Inst.const (pos 1))
    ∷ (38, Inst.end)
    ∷ []

abbrev targets : Outcome Compiler → List ℕ × List ℕ
targets (ok c) = (ip_labels c.out, ip_targets c.out)
targets _ = ([], [])

compiled_program :
    targets (emit_program true (λ todo. 0) 100 program (0 ∷ []) 0)
    ≡ (0 ∷ 9 ∷ 14 ∷ 19 ∷ 24 ∷ 32 ∷ 33 ∷ 38 ∷ [], 33 ∷ 0 ∷ [])
unfolding emit_program add_publics add_jump_target emplace_todo emit_loop emit_from should_emit
    emit_block emit_inst can_print load_arg inst_begin emit_code emit_begin is_terminator emit_load
    emit_load_in emit_conditional_jump pop alloc compile_call count_args compile_call_in load_args
    push_args emit_call spilled_count emit_const emit_end to_reg symb_emit_mv_from symb_emit_mv_to
compiled_program = refl

emit_program-IsCompiled_example :
    Post (IsCompiled program (0 ∷ [])) (emit_program true (λ todo. 0) 100 program (0 ∷ []) 0)
emit_program-IsCompiled_example =
    emit_program-IsCompiled true (λ todo. 0) 100 program (0 ∷ []) 0 (omega arith)

-- A file with the function `f`, which returns 3.
abbrev content : List ℕ
content =
    2 ∷ 0 ∷ 0 ∷ 0 ∷ 0 ∷ 0 ∷ 0 ∷ 0 ∷ 1 ∷ 0 ∷ 0 ∷ 0 ∷ 0 ∷ 0 ∷ 0 ∷ 0 ∷ 0 ∷ 0 ∷ 0 ∷ 0 ∷ 102 ∷ 0 ∷ 82 ∷ 0
    ∷ 0 ∷ 0 ∷ 0 ∷ 0 ∷ 0 ∷ 0 ∷ 0 ∷ 16 ∷ 3 ∷ 0 ∷ 0 ∷ 0 ∷ 22 ∷ 255 ∷ []

abbrev read_labels : Outcome Program → List (ℕ × Inst)
read_labels (ok p) = p
read_labels _ = []

abbrev file : Bytefile
file = record {
  size = pos 78;
  stringtab_size = 2;
  public_symbols_number = 1;
  global_area_size = 0;
  string_ptr = 8;
  code_ptr = 10;
  buffer = drop 12 content;
}

abbrev start : InstReader
start = record { ip = 10; function_index = 0; strings = [] }

read_content : read_file content ≡ ok file
unfolding read_file
read_content = refl

read_labels_content :
    read_labels (read_program 50 file start [])
    ≡ (0, Inst.begin (Label.function "f") 0 0) ∷ (9, Inst.const (pos 7)) ∷ (14, Inst.end) ∷ []
unfolding read_program read_inst read_byte read_opcode read_op read_begin read_int emplace
    get_public_offset get_public_name get_string read_high ◌+ℤ◌ ◌*ℤ◌
read_labels_content = refl

compile_file_lem_example :
    Post
      (λ c. (t : ℕ) → count t (ip_labels c.out) ≤ 1)
      (compile_file true (λ todo. 0) 100 (2 ^ 32) content)
compile_file_lem_example =
    compile_file_lem true (λ todo. 0) 100 (2 ^ 32) content (omega arith) (omega arith)

read_inst-Reads_example : Post (λ q. (10 < q.1.ip) × Fits file q.1) (read_inst file start)
read_inst-Reads_example = read_inst-Reads file start

-- In a function, with seventeen values on the symbolic stack.
abbrev compiler : Compiler
compiler = record {
  current_frame = some (record { function_name = Label.ip 0; locals_count = 0; args_count = 0 });
  top = 17;
  out = [];
  globals_count = 0;
  done = [];
  todo = [];
}

emit_code-Extends_example :
    Post (Extends 1 compiler) (emit_code true (Inst.conditional_jump 33 true) compiler)
emit_code-Extends_example = emit_code-Extends true (Inst.conditional_jump 33 true) compiler

compile_call-Balanced_example :
    Post (Balanced compiler) (compile_call (Label.function "Belem") 2 none compiler)
compile_call-Balanced_example = compile_call-Balanced (Label.function "Belem") 2 none compiler

static_tag_hash_lem_example :
    static_tag_hash (67 ∷ 111 ∷ 110 ∷ 115 ∷ []) ≡ as_static (tag_hash (67 ∷ 111 ∷ 110 ∷ 115 ∷ []))
static_tag_hash_lem_example = static_tag_hash_lem (67 ∷ 111 ∷ 110 ∷ 115 ∷ [])

abbrev cpu : Cpu
cpu = record { regs = λ r. if r == 2 then 4096 else r; mem = λ b. b }

store_arg_lost_example :
    (store_arg (pos 3) (reg 9) ≡ load_arg (pos 3) (reg 9))
    × (lines : List Asm) × (store_arg (pos 3) (reg 9) ≡ ok lines)
    × (run lines cpu ≡ some (write_reg cpu 9 (read cpu 13)))
store_arg_lost_example = store_arg_lost 3 (reg 9) 9 cpu (omega arith)

read_program-read_list_example : read_program 50 file start [] ≡ read_list 50 file start []
read_program-read_list_example =
    read_program-read_list 50 file start [] (omega arith) (omega arith) tt

-- A file that holds the code of a call and nothing else.
abbrev call_file : Bytefile
call_file = record {
  size = pos 62;
  stringtab_size = 0;
  public_symbols_number = 0;
  global_area_size = 0;
  string_ptr = 0;
  code_ptr = 0;
  buffer = encode (Inst.call (Label.ip 258) 2) ++ (255 ∷ []);
}

abbrev call_start : InstReader
call_start = record { ip = 0; function_index = 0; strings = [] }

read_inst-encode_example :
    read_inst call_file call_start ≡ ok (some (Inst.call (Label.ip 258) 2), forward 9 call_start)
read_inst-encode_example =
    read_inst-encode call_file (Inst.call (Label.ip 258) 2) (255 ∷ []) call_start
      (omega arith, omega arith)
      (record { there = refl; in_code = omega arith; in_file = omega arith })

-- An instruction that cannot be printed, and an argument with a negative index.
swap_ends : emit_inst true 0 Inst.swap compiler ≡ exited
unfolding emit_inst inst_begin can_print
swap_ends = refl

negative_ends : store_arg (negsuc 0) (reg 9) ≡ exited
unfolding store_arg
negative_ends = refl
