-- ===== src/Lib.antt =====
-- The JIT compiler of buxn, a virtual machine for uxn, and the tools that watch it.
--
-- The parts of the program
--
-- src/jit.c compiles blocks of uxn code. `buxn_jit_queue_block` asks for the block at an address and
-- queues it; a block is compiled opcode by opcode by `buxn_jit_next_opcode`, which dispatches to one
-- function for each opcode. The opcodes pop and push operands in registers through a stack cache of
-- four cells for each of the VM's two stacks; a cell goes to memory (is spilled) when its cache is
-- full, when a register is needed, and before any way out of the block. Jumps with a known target
-- ask for the target's block and are linked when it has been compiled. src/hamt.h is the map from
-- addresses to blocks. src/addr_mapping.h, src/perf.c, src/gdb/hook.c and include/buxn/jit are the
-- hooks with which perf and gdb learn of the generated code, and src/gdb/reader.c is gdb's side of it.
-- src/cli.c is the program that runs a ROM.
--
-- Which file models what
--
-- - Hamt: src/hamt.h, `search` and `put` for BHAMT_SEARCH.
-- - Jit: `buxn_jit_t`, its queues, its block map and `buxn_jit_queue_block`.
-- - Lir: the calls of the code generator, as data. A compiler is the list of the calls made on it.
-- - Ctx: `buxn_jit_ctx_t`, and the monad in which the compiling functions are written: a context
--   goes in, a result and a context come out, or nothing where a BUXN_JIT_ASSERT fails.
-- - Regs: the mode flags and the reference counts of the operand registers.
-- - Cache: the stack cache, with the memmove of a spill and the slots of the array beyond the cells
--   in use; Cache/Spill also allocates registers.
-- - Micro and Jump: the micro operations. Opcodes: the opcodes, `jit_inc` for `buxn_jit_INC`, and the
--   dispatch, with the table of opcode bytes, which is in the VM's headers, as an argument.
-- - Machine: the interface of a machine that runs the calls, with what is relied on of the code
--   generator and of the VM's layout as its laws: the effect of moves, of arithmetic on 64-bit words,
--   of comparisons and of byte loads and stores, and that the VM's fields are arrays of bytes.
--   Machine/Concrete is a machine that has them.
-- - Refine: the stacks of the VM as lists of bytes, the invariant `Inv` that ties them to a context
--   and a machine, and the functions of the stack cache against it. Refine/Isa is a description of
--   the instruction set that does not know of src/jit.c; Refine/Ready says when operands can be
--   popped, Refine/Session follows an opcode through its pops and pushes, Refine/Straight has the
--   opcodes, Refine/Next their composition with the start of `buxn_jit_next_opcode`, and Refine/Run
--   runs of several opcodes, against the run that Refine/Interpret describes.
-- - Flow: what the functions of src/jit.c do to the place in the block and to the JIT: a relation that
--   each of them keeps, found by a rule for each way to build one.
-- - Compile: `buxn_jit_compile`, the three loops of `buxn_jit` (`translate`), `buxn_jit_execute` and
--   `buxn_jit_cleanup`. What sljit makes of a compiler's calls is the argument `generate`, and the run
--   of generated code and the VM's interpreter are arguments of `execute`.
-- - Hooks: the label map, the symbol search, the recording of addresses, the composite hook;
--   Hooks/Perf: the end of a block in src/perf.c, as the calls that write; Hooks/Gdb: src/gdb/hook.c,
--   with gdb's list of entries as two maps of links; Hooks/Reader: src/gdb/reader.c, as the calls of gdb.
-- - Cli: src/cli.c, the symbol file, the arguments, the ROM, the run and the devices.
-- - Tests: the theorems at concrete states.
--
-- Bounds
--
-- Registers hold 64-bit words, the counts of references are bytes, addresses have sixteen bits:
-- each wraps as in the source. So does the product of two constants in MUL, also above 2 ^ 31 - 1,
-- where the source multiplies signed numbers and C leaves the result open; only the compile-time
-- value of an operand depends on it. A search of symbols that reads beyond the table is a result of
-- its own. The loop of `buxn_jit_alloc_reg` runs on as many rounds as there are
-- cells in both caches, that of `buxn_jit_stack_cache_clear` on those of one cache, since a round
-- takes a cell away. `next_opcode` runs on fuel, which bounds how deep boolean jumps nest: only a
-- jump on a boolean compiles the next opcode inside its own. `block_loop` runs on fuel as well.
-- Each opcode moves on, and below the reset vector the block is closed, so that `enough`, a round
-- for each address and two more, is enough for both; what the model does without fuel is an
-- argument, which is never reached. `compile_all` takes a round for each block that waits or has
-- not been asked for, of which there are at most 2 ^ 16 and the queue.
--
-- What is not modelled
--
-- Verbose output; the calls of the hooks from src/jit.c, which change nothing of a context but the
-- label of the current opcode; the generation of machine code, and whether it fails for lack of
-- memory; the calls back into C, whose effect is the VM's. Of src/perf.c the opening and closing of
-- its files; of src/gdb/hook.c the mutex; of src/gdb/reader.c the processors other than x86-64; of
-- src/cli.c allocation, the debug file and the wiring of libraries. Jumps and calls are emitted but
-- have no law in the machine, so that what is shown of generated code is about straight-line code.
pub mod Prelude
pub mod Lir
pub mod Hamt
pub mod Jit
pub mod Ctx
pub mod Regs
pub mod Cache
pub mod Micro
pub mod Jump
pub mod Opcodes
pub mod Machine
pub mod Refine
pub mod Flow
pub mod Compile
pub mod Hooks
pub mod Cli
pub mod Tests
