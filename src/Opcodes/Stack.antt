-- ===== src/Opcodes/Stack.antt =====
-- src/jit.c, "Opcodes": the opcodes that only move stack items, and INC.
use buxn_jit.Prelude.{ℕ, ◌+◌, ◌-◌, ◌%◌, ◌^◌, Bool, true, false, bit_and, not, if◌then◌else◌}
use buxn_jit.Lir.{reg, imm, op2, add, ret}
use buxn_jit.Ctx.{Operand, Ctx, M, ◌>>=◌, ◌>>◌, get, modify, skip, emit, has, sem_const}
use buxn_jit.Regs.{op_flag_2, op_flag_k, op_flag_r}
use buxn_jit.Cache.Pop.{discard}
use buxn_jit.Cache.Sweep.{clear_stack_caches}
use buxn_jit.Micro.Stack.{size, flag_r, push_ex, push_operand, pop_operand}
use buxn_jit.Micro.Memory.{wrap_around}
use buxn_jit.Jump.{finalize}

unfoldable pub jit_brk : M (Unit {0})
unfolding clear_stack_caches
jit_brk = do clear_stack_caches; emit (ret (imm 0x10000)); finalize

-- The operand of INC after `semantics &= ~BUXN_JIT_SEM_BOOLEAN` and the constant's increment
abbrev pub inc_operand : Operand → Operand
inc_operand operand =
    let semantics = bit_and operand.semantics 0xfd in
    record operand {
      semantics = semantics;
      const_value =
          if has semantics sem_const
          then (operand.const_value + 1) % 2 ^ 16
          else operand.const_value;
    }

unfoldable pub jit_inc : M (Unit {0})
unfolding pop_operand push_operand wrap_around
jit_inc = do
  operand ← pop_operand
  emit (op2 add operand.reg (reg operand.reg) (imm 1))
  wrap_around operand
  push_operand (inc_operand operand)

-- `ctx->rsp -= size`, `ctx->wsp -= size`
abbrev pub track_discard : Bool → ℕ → Ctx → Ctx
track_discard true n ctx = record ctx { rsp = (ctx.rsp + 256 - n) % 256 }
track_discard false n ctx = record ctx { wsp = (ctx.wsp + 256 - n) % 256 }

unfoldable pub jit_pop : M (Unit {0})
unfolding discard
jit_pop = do
  ctx ← get
  let two = op_flag_2 ctx.current_opcode
  let r = op_flag_r ctx.current_opcode
  if op_flag_k ctx.current_opcode
      then skip
      else (do modify (track_discard r (size two)); discard r two)

unfoldable pub jit_nip : M (Unit {0})
unfolding jit_pop pop_operand push_operand
jit_nip = do b ← pop_operand; jit_pop; push_operand b

unfoldable pub jit_swp : M (Unit {0})
unfolding pop_operand push_operand
jit_swp = do b ← pop_operand; a ← pop_operand; push_operand b; push_operand a

unfoldable pub jit_rot : M (Unit {0})
unfolding pop_operand push_operand
jit_rot = do
  c ← pop_operand
  b ← pop_operand
  a ← pop_operand
  push_operand b
  push_operand c
  push_operand a

unfoldable pub jit_dup : M (Unit {0})
unfolding pop_operand push_operand
jit_dup = do a ← pop_operand; push_operand a; push_operand a

unfoldable pub jit_ovr : M (Unit {0})
unfolding pop_operand push_operand
jit_ovr = do b ← pop_operand; a ← pop_operand; push_operand a; push_operand b; push_operand a

unfoldable pub jit_sth : M (Unit {0})
unfolding pop_operand push_ex
jit_sth = do a ← pop_operand; r ← flag_r; push_ex a (not r)
