-- ===== src/Opcodes/Arith.antt =====
-- src/jit.c, "Opcodes": comparisons, arithmetic and bit operations. Constant folding is done in the
-- 16 bits of `const_value`, next to the emission of the operation itself.
use buxn_jit.Prelude.{
  ℕ, ◌+◌, ◌-◌, ◌*◌, ◌/◌, ◌%◌, ◌^◌, Bool, false, bit_and, bit_or, bit_xor, ◌&&◌, not, ◌==◌,
  if◌then◌else◌,
}
use buxn_jit.Lir.{
  Op2, Op2u, Cond, reg, imm, op0_div, op1, op2, op2u, op_flags, mov, add, sub, mul, shl, lshr, and,
  or, xor, sub_z, sub_greater, sub_less, always, equal, not_equal, greater, less, r_mem_base,
  r_mem_offset, r_tmp,
}
use buxn_jit.Ctx.{Operand, M, ◌>>=◌, ◌>>◌, emit, has, sem_const, sem_boolean}
use buxn_jit.Cache.Spill.{alloc_reg}
use buxn_jit.Micro.Stack.{flag_r, pop_ex, push_operand, pop_operand}
use buxn_jit.Micro.Memory.{wrap_around}
use buxn_jit.Jump.{emit_cmp, emit_jump, land_here}

-- EQU, NEQ, GTH and LTH, which differ in the flag that is set and read
unfoldable pub jit_compare : Op2u → Cond → M (Unit {0})
unfolding pop_operand push_operand alloc_reg
jit_compare op flag = do
  b ← pop_operand
  a ← pop_operand
  r ← alloc_reg
  emit (op2u op (reg a.reg) (reg b.reg))
  emit (op_flags flag r)
  push_operand (record { semantics = sem_boolean; is_short = false; const_value = 0; reg = r })

unfoldable pub jit_equ : M (Unit {0})
unfolding jit_compare
jit_equ = jit_compare sub_z equal

unfoldable pub jit_neq : M (Unit {0})
unfolding jit_compare
jit_neq = jit_compare sub_z not_equal

unfoldable pub jit_gth : M (Unit {0})
unfolding jit_compare
jit_gth = jit_compare sub_greater greater

unfoldable pub jit_lth : M (Unit {0})
unfolding jit_compare
jit_lth = jit_compare sub_less less

-- The semantics of a result: constant if both operands are
abbrev pub both_const : Operand → Operand → ℕ
both_const a b = if has a.semantics sem_const && has b.semantics sem_const then sem_const else 0

-- The initializer of `c` in the opcodes with two operands
abbrev pub result : Bool → Operand → Operand → ℕ → ℕ → Operand
result is_short a b const_value r = record {
  semantics = both_const a b;
  is_short = is_short;
  const_value = const_value;
  reg = r;
}

abbrev pub fold_add : ℕ → ℕ → ℕ
fold_add a b = (a + b) % 2 ^ 16

abbrev pub fold_sub : ℕ → ℕ → ℕ
fold_sub a b = (a + 2 ^ 16 - b) % 2 ^ 16

-- Both constants are promoted to `int`. Above 2 ^ 31 - 1 the product overflows, and C leaves the
-- result open; the model wraps around.
abbrev pub fold_mul : ℕ → ℕ → ℕ
fold_mul a b = a * b % 2 ^ 16

-- `(a >> (b & 0x0f)) << ((b & 0xf0) >> 4)`, in the 16 bits of the result
abbrev pub fold_sft : ℕ → ℕ → ℕ
fold_sft a b = a / 2 ^ bit_and b 0x0f * 2 ^ (bit_and b 0xf0 / 2 ^ 4) % 2 ^ 16

-- ADD, SUB and MUL
unfoldable pub jit_binary : Op2 → (ℕ → ℕ → ℕ) → M (Unit {0})
unfolding pop_operand push_operand alloc_reg wrap_around
jit_binary op fold = do
  b ← pop_operand
  a ← pop_operand
  r ← alloc_reg
  let c = result b.is_short a b (fold a.const_value b.const_value) r
  emit (op2 op r (reg a.reg) (reg b.reg))
  wrap_around c
  push_operand c

unfoldable pub jit_add : M (Unit {0})
unfolding jit_binary
jit_add = jit_binary add fold_add

unfoldable pub jit_sub : M (Unit {0})
unfolding jit_binary
jit_sub = jit_binary sub fold_sub

unfoldable pub jit_mul : M (Unit {0})
unfolding jit_binary
jit_mul = jit_binary mul fold_mul

-- AND, ORA and EOR
unfoldable pub jit_bitwise : Op2 → (ℕ → ℕ → ℕ) → M (Unit {0})
unfolding pop_operand push_operand alloc_reg
jit_bitwise op fold = do
  b ← pop_operand
  a ← pop_operand
  r ← alloc_reg
  emit (op2 op r (reg a.reg) (reg b.reg))
  push_operand (result b.is_short a b (fold a.const_value b.const_value) r)

unfoldable pub jit_and : M (Unit {0})
unfolding jit_bitwise
jit_and = jit_bitwise and bit_and

unfoldable pub jit_ora : M (Unit {0})
unfolding jit_bitwise
jit_ora = jit_bitwise or bit_or

unfoldable pub jit_eor : M (Unit {0})
unfolding jit_bitwise
jit_eor = jit_bitwise xor bit_xor

-- The constant of a quotient: set only for constant operands and a divisor other than 0
abbrev pub fold_div : Operand → Operand → ℕ
fold_div a b =
    if not (both_const a b == 0) && not (b.const_value == 0)
    then a.const_value / b.const_value
    else 0

unfoldable pub jit_div : M (Unit {0})
unfolding pop_operand push_operand alloc_reg
jit_div = do
  b ← pop_operand
  a ← pop_operand
  r ← alloc_reg
  set_zero ← emit_cmp equal false (reg b.reg) (imm 0)
  emit (op1 mov (reg r_tmp) (reg r_mem_base))
  emit (op1 mov (reg r_mem_base) (reg a.reg))
  emit (op1 mov (reg r_mem_offset) (reg b.reg))
  emit op0_div
  emit (op1 mov (reg r) (reg r_mem_base))
  emit (op1 mov (reg r_mem_base) (reg r_tmp))
  end ← emit_jump always false
  land_here set_zero
  emit (op1 mov (reg r) (imm 0))
  land_here end
  push_operand (result b.is_short a b (fold_div a b) r)

unfoldable pub jit_sft : M (Unit {0})
unfolding pop_ex pop_operand push_operand alloc_reg wrap_around
jit_sft = do
  side ← flag_r
  b ← pop_ex false side
  a ← pop_operand
  r ← alloc_reg
  let c = result a.is_short a b (fold_sft a.const_value b.const_value) r
  emit (op2 and r_tmp (reg b.reg) (imm 0x0f))
  emit (op2 lshr r (reg a.reg) (reg r_tmp))
  emit (op2 lshr r_tmp (reg b.reg) (imm 4))
  emit (op2 shl r (reg r) (reg r_tmp))
  wrap_around c
  push_operand c
