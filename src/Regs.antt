-- ===== src/Regs.antt =====
-- src/jit.c, "Utils": the mode flags of an opcode, and the reference counts of the six operand
-- registers. A count is kept at the register's distance from BUXN_JIT_R_OP_MIN.
pub mod Flags
use buxn_jit.Prelude.{
  ℕ, zero, suc, ◌+◌, ◌-◌, ◌%◌, ◌==◌, leb, ltb, Bool, true, false, Option, none, some, bit_and, not,
  ◌&&◌, if◌then◌else◌, update,
}
use buxn_jit.Lir.{r_op_min, r_op_max}
use buxn_jit.Ctx.{Ctx, M, modify, assert, get, ◌>>=◌, ◌>>◌, has}

abbrev pub op_k : ℕ
op_k = 0x80

abbrev pub op_r : ℕ
op_r = 0x40

abbrev pub op_2 : ℕ
op_2 = 0x20

abbrev pub differs : ℕ → ℕ → Bool
differs a b = not (a == b)

-- The tests against JCI, JMI and JSI
abbrev pub not_immediate : ℕ → Bool
not_immediate opcode = differs opcode 0x20 && differs opcode 0x40 && differs opcode 0x60

unfoldable pub op_flag_2 : ℕ → Bool
op_flag_2 opcode = has opcode op_2 && not_immediate opcode

unfoldable pub op_flag_k : ℕ → Bool
op_flag_k opcode =
    has opcode op_k
    && not_immediate opcode
    && differs opcode 0x80
    && differs opcode 0xa0
    && differs opcode 0xc0
    && differs opcode 0xe0

unfoldable pub op_flag_r : ℕ → Bool
op_flag_r opcode = has opcode op_r && not_immediate opcode

-- BUXN_JIT_R_OP_MAX - BUXN_JIT_R_OP_MIN + 1
abbrev pub num_op_regs : ℕ
num_op_regs = 6

-- The loop of `buxn_jit_find_free_reg`, with `n` rounds to go from index `i`.
unfoldable pub find_free_from : (ℕ → ℕ) → ℕ → ℕ → Option ℕ
find_free_from counts zero i = none
find_free_from counts (suc n) i =
    let rest = find_free_from counts n (i + 1) in
    if counts i == 0 then some (r_op_min + i) else rest

unfoldable pub find_free_reg : Ctx → Option ℕ
unfolding find_free_from
find_free_reg ctx = find_free_from ctx.reg_ref_counts num_op_regs 0

abbrev pub is_op_reg : ℕ → Bool
is_op_reg reg = leb r_op_min reg && leb reg r_op_max

-- The counts are bytes.
unfoldable pub retain_reg : ℕ → M (Unit {0})
retain_reg reg = do
  assert (is_op_reg reg)
  modify λ ctx. record ctx {
    reg_ref_counts =
        update ctx.reg_ref_counts (reg - r_op_min)
          ((ctx.reg_ref_counts (reg - r_op_min) + 1) % 256);
  }

unfoldable pub release_reg : ℕ → M (Unit {0})
release_reg reg = do
  assert (is_op_reg reg)
  ctx ← get
  assert (ltb 0 (ctx.reg_ref_counts (reg - r_op_min)))
  modify λ ctx. record ctx {
    reg_ref_counts =
        update ctx.reg_ref_counts (reg - r_op_min) (ctx.reg_ref_counts (reg - r_op_min) - 1);
  }
