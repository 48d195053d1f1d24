-- ===== src/Lib.antt =====
-- Verification of the runtime of Lama for RISC-V (runtime/) and of the compiler from Lama bytecode to
-- RISC-V assembly (comp/).
--
-- The compiler reads bytecode and prints assembly: it reads all instructions of a file, then emits
-- code from each address that a public function, a jump or a call names, until none is to do. The
-- values of the Lama stack are in registers
-- and, beyond fifteen of them, in memory (comp/include/symb_stack.h). The assembly calls the
-- functions of runtime/runtime.c on tagged words: an odd word is an integer of 63 bits, an even one
-- points at the contents of an object. Functions that build objects call the allocator of
-- runtime/gc.c, and register their arguments as extra roots around the call. Where the heap is full
-- the allocator collects: it marks what the stack, the extra roots and the globals reach, computes
-- where each marked object will be, redirects the references, and moves the objects together in a
-- new mapping.
--
-- Base: tests on native numbers, integers, 64-bit words, lists, and `Outcome`, which is a result, a
--   call of `failure`, the end of the process, undefined behaviour, or lack of fuel.
-- Runtime, for runtime/runtime.c and runtime/runtime_common.h:
--   Runtime.Value: UNBOXED, UNBOX, BOX, TAG, LEN and the assertions.
--   Runtime.Infix: the operators `Ls__Infix_*`.
--   Runtime.TagHash: LtagHash and de_hash.
--   Runtime.Access: LkindOf, LcompareTags, Llength, Belem, Lfst, Lsnd, Bsta.
--   Runtime.Pattern: Btag and the tests `B*_patt`.
--   Runtime.Build: PRE_GC, POST_GC, Barray, Bsexp, Bclosure, LmakeArray, LmakeString, Bstring,
--     Lsubstring, Li__Infix_4343 and Lclone.
--   Runtime.Compare: LflatCompare and Lcompare.
--   Runtime.Hash: HASH_APPEND, inner_hash and Lhash. Runtime.Hash.Same: values that are alike.
-- Gc, for runtime/gc.c and runtime/gc.h, with the functions' names:
--   Gc.State: memory, memory_chunk, and the global variables as one record.
--   Gc.Object: headers, sizes, mark and queue bits, forward addresses, the heap iterator.
--   Gc.Field: the iterators over an object's fields. Gc.Roots: the extra roots.
--   Gc.Bump: gc_alloc_on_existing_heap, __init, __shutdown.
--   Gc.Layout: heaps that are a row of objects, for the proofs.
--   Gc.Mark: mark_phase and what it calls. Its children follow the code: Row and Queue say what a
--     heap with a queue in its forward addresses is, Visit the loop's body, Scan an object's fields,
--     Dequeue and Loop the queue, Phase the roots and the whole.
--   Gc.Compact: compact_phase and what it calls. Locations is for compute_locations; Redirect,
--     Fields, Objects, Row and References for update_references; Relocate for physically_relocate;
--     Twin, Copy, Preserved and Places for how these meet in the new mapping, Spec for what is
--     assumed of the state and what results, Phase for the whole.
--   Gc.Collect: the compact phase on what the mark phase leaves. Gc.Reach: what roots reach.
--   Gc.Alloc: alloc, gc_alloc and the allocators of the four kinds of objects. Gc.Cycle: gc_alloc
--     with the phases of a collection.
-- Compiler, for comp/:
--   Compiler.Asm: comp/include/register.h, and lines of assembly and labels as data.
--   Compiler.Stack: comp/include/symb_stack.h.
--   Compiler.Buffer: the functions of comp/include/code_buffer.h on places of the symbolic stack.
--   Compiler.Machine: what the RISC-V instructions do, for the proofs.
--   Compiler.Binop: the operators in Binop::emit_code of comp/src/emit.cpp.
--   Compiler.Instruction: comp/include/instructions.h and comp/include/opcode.h, and which
--     instructions comp/src/print.cpp can print: emit prints each one into a comment.
--   Compiler.TagHash: comp/src/runtime.cpp.
--   Compiler.Bytefile: comp/src/bytefile.cpp on what the file holds.
--   Compiler.Reader: comp/include/inst_reader.h and comp/src/read.cpp.
--   Compiler.State: the state of comp/include/compiler.h and its jump targets.
--   Compiler.Call: compile_call of comp/include/compiler.h. Compiler.Emit: emit_code of every
--     instruction, comp/src/emit.cpp and comp/include/instructions.h.
--   Compiler.Driver: emit of comp/src/lama_rv.cpp. Compiler.Main: main of comp/src/lama_rv.cpp.
--   Compiler.Lines, Compiler.Extends, Compiler.CallExtends, Compiler.StackExtends,
--     Compiler.CodeExtends, Compiler.Linked: labels and jumps of what is emitted, for the proofs.
-- Tests: concrete heaps, values and names, the theorems on them, and one whole collection.
--
-- Memory is a word for each aligned address; bytes are parts of words, little-endian. The options
-- are those of the build: 64 bits, LAMA_ENV, without DEBUG_VERSION and FULL_INVARIANT_CHECKS.
-- Signed arithmetic that overflows is taken to wrap. What `mmap` returns, the frame's address and
-- `strcmp` are arguments of the functions that use them.
-- Loops over the heap run on `rounds heap`, its bytes and one more: each round passes an object,
-- which has sixteen bytes at least. `hash_calls` is the source's HASH_DEPTH and one more call. Loops
-- over the text of a string and the recursion of Lcompare run on fuel that is an argument, and so do
-- the loops of the compiler: reading takes a byte at least in each round, and emission ends an
-- address in each round or takes one off the list. `pick` is the entry that the hash table of what is
-- to do gives first, `peek_first` the order in which Duplicate evaluates its arguments.
--
-- Not modelled: printing of values and the string buffer, formatted output, files, regular
-- expressions and the other calls of the operating system in runtime/runtime.c; the dumps and
-- checks of runtime/gc.c that are compiled only for debugging; that mappings are given back; in
-- comp/, the header of the assembly, the disassembler and the text of the
-- printers.
pub mod Base
pub mod Runtime
pub mod Gc
pub mod Compiler
pub mod Tests
