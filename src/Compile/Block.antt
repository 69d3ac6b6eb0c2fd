-- ===== src/Compile/Block.antt =====
-- src/jit.c, `buxn_jit_compile`: one block, from its queue entry to its code. What sljit makes of the
-- calls on a compiler is the argument `generate`.
use buxn_jit.Prelude.{ℕ, zero, suc, ◌+◌, ◌^◌, Option, none, some, List, [], ◌∷◌, if◌then◌else◌}
use buxn_jit.Lir.{Instr}
use buxn_jit.Hamt.{put, prospector32}
use buxn_jit.Jit.{Jit, Block, Entry, find_block}
use buxn_jit.Ctx.{Ctx, M, pure, ◌>>=◌, ◌>>◌, get, skip}
use buxn_jit.Opcodes.Control.{Opcode, next_opcode}
use buxn_jit.Compile.Prologue.{new_ctx, prologue}

-- `sljit_generate_code`, and what is asked of the compiler after it: the code (none for NULL), the
-- addresses of the two labels, the executable offset and the size
pub record Code : Type 0 where
  pub fn : Option ℕ
  pub head_addr : ℕ
  pub body_addr : ℕ
  pub executable_offset : ℕ
  pub size : ℕ

-- A compiler is known by its number; its calls are in order, the first one first.
abbrev pub Generate : Type 0
Generate = ℕ → List Instr → ℕ → ℕ → Code

-- What compiling depends on: the VM's memory, the table of opcodes, sljit, and two numbers
pub record Env : Type 0 where
  pub image : ℕ → ℕ
  pub decode : ℕ → Opcode
  pub generate : Generate
  pub jit_ptr : ℕ
  pub reset_vector : ℕ

-- `while (ctx.compiler != NULL) { buxn_jit_next_opcode(&ctx); }`: `depth` bounds the opcodes
-- compiled inside one another, and `fuel` the rounds; if either runs out, the model goes on with
-- `bail`.
unfoldable pub block_loop : (ℕ → Opcode) → M (Unit {0}) → ℕ → ℕ → M (Unit {0})
unfolding next_opcode
block_loop decode bail depth zero = bail
block_loop decode bail depth (suc fuel) = do
  ctx ← get
  if ctx.finalized
      then skip
      else (do next_opcode decode bail depth; block_loop decode bail depth fuel)

-- All calls on the compiler of one block
unfoldable pub compile_within : Env → M (Unit {0}) → ℕ → ℕ → M (ℕ × ℕ)
unfolding prologue block_loop
compile_within env bail depth fuel = do
  labels ← prologue env.jit_ptr env.reset_vector
  block_loop env.decode bail depth fuel
  pure labels

-- A round for each address, and the one that finds the block closed
abbrev pub enough : ℕ
enough = 2 ^ 16 + 2

unfoldable pub compile_block : Env → M (ℕ × ℕ)
unfolding compile_within
compile_block env = compile_within env (λ ctx. none) enough enough

-- Writes through the pointer to a block of the map
unfoldable pub set_block : Jit → ℕ → (Block → Block) → Jit
set_block jit pc f = elim (find_block jit pc) [
  | none ↦ jit
  | some block ↦ record jit { root = put jit.root (prospector32 pc) pc (f block) }
]

abbrev pub with_code : Code → Block → Block
with_code code block = record block {
  fn = code.fn;
  head_addr = code.head_addr;
  body_addr = code.body_addr;
  executable_offset = code.executable_offset;
}

abbrev pub reverse_onto : List Instr → List Instr → List Instr
reverse_onto [] done = done
reverse_onto (i ∷ code) done = reverse_onto code (i ∷ done)

-- What follows the loop
unfoldable pub install : Env → Entry → ℕ × ℕ → Ctx → Jit
unfolding set_block
install env entry (head, body) ctx =
    let code = env.generate entry.compiler (reverse_onto ctx.code []) head body in
    let jit = set_block ctx.jit entry.block (with_code code) in
    record jit { code_size = jit.code_size + code.size }

-- `buxn_jit_compile`
unfoldable pub compile : Env → Jit → Entry → Option Jit
unfolding compile_block install
compile env jit entry = elim (compile_block env (new_ctx jit env.image entry)) [
  | none ↦ none
  | some (labels, ctx) ↦ some (install env entry labels ctx)
]
