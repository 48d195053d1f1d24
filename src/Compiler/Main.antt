-- ===== src/Compiler/Main.antt =====
-- `main` of comp/src/lama_rv.cpp, on what the file holds: the loop that reads the instructions into a
-- `std::map`, and the emission. A DCHECK that fails ends the process.
pub mod Total
pub mod Order
use lama_rv_workshop.Base.{
  ℕ, zero, suc, ◌+◌, ltb, ◌==◌, if◌then◌else◌, Bool, Option, none, some, List, [], ◌∷◌,
}
use lama_rv_workshop.Base.Int.{pos}
use lama_rv_workshop.Base.Word.{to_word}
use lama_rv_workshop.Base.Outcome.{Outcome, ok, exited, out_of_fuel, ◌>>=◌}
use lama_rv_workshop.Compiler.Instruction.{Inst}
use lama_rv_workshop.Compiler.Bytefile.{Bytefile, read_file, get_public_offset}
use lama_rv_workshop.Compiler.Reader.{InstReader, get_offset, read_inst, new_reader}
use lama_rv_workshop.Compiler.State.{Heights, Compiler}
use lama_rv_workshop.Compiler.Driver.{Program, emit_program}

-- `instructions.emplace`, which keeps the order of the addresses, with the DCHECK behind it.
unfoldable pub emplace : ℕ → Inst → Program → Outcome Program
emplace offset inst [] = ok ((offset, inst) ∷ [])
emplace offset inst ((at, other) ∷ rest) =
    let later = (emplace offset inst rest >>= (λ rest'. ok ((at, other) ∷ rest'))) in
    if at == offset
    then exited
    else (if ltb offset at then ok ((offset, inst) ∷ (at, other) ∷ rest) else later)

-- The loop of `main`.
unfoldable pub read_program : ℕ → Bytefile → InstReader → Program → Outcome Program
read_program zero file r program = out_of_fuel
read_program (suc fuel) file r program = do
  (inst, r1) ← read_inst file r
  elim inst [
    | none ↦ ok program
    | some i ↦ (emplace (get_offset file r) i program >>= read_program fuel file r1)
  ]

-- The offsets that the loop of `emit` asks for.
unfoldable pub public_offsets : Bytefile → ℕ → ℕ → Outcome (List ℕ)
public_offsets file i zero = ok []
public_offsets file i (suc n) = do
  offset ← get_public_offset file (pos i)
  offsets ← public_offsets file (i + 1) n
  ok (to_word offset ∷ offsets)

unfoldable pub compile_file : Bool → (Heights → ℕ) → ℕ → ℕ → List ℕ → Outcome Compiler
compile_file peek_first pick read_fuel emit_fuel content = do
  file ← read_file content
  r ← new_reader file
  program ← read_program read_fuel file r []
  publics ← public_offsets file 0 file.public_symbols_number
  emit_program peek_first pick emit_fuel program publics file.global_area_size
