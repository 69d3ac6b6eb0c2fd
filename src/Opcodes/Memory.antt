-- ===== src/Opcodes/Memory.antt =====
-- src/jit.c, "Opcodes": memory and device access. Devices are reached through calls back into C,
-- around which the stacks are written out.
use buxn_jit.Prelude.{Bool, true, false, none, if◌then◌else◌}
use buxn_jit.Lir.{
  Field, Helper, reg, imm, mem, op1, op2, icall, mov, mov_u8, mov_s8, mov_p, add, and, lshr, dei,
  dei2, deo, deo2, r_mem_base, r_mem_offset, r_tmp, s_vm,
}
use buxn_jit.Ctx.{Operand, M, pure, ◌>>=◌, ◌>>◌, get, modify, when, emit}
use buxn_jit.Cache.Spill.{set_mem_base, alloc_reg}
use buxn_jit.Cache.Sweep.{clear_stack_caches}
use buxn_jit.Micro.Stack.{flag_2, flag_r, pop_ex, push_operand, pop_operand}
use buxn_jit.Micro.Memory.{load, store, load_state, save_state, immediate}

-- An address of one byte or one short, from the opcode's own stack
unfoldable pub pop_addr : Bool → M Operand
unfolding pop_ex
pop_addr is_short = do side ← flag_r; pop_ex is_short side

-- The address of LDR and STR: the signed byte, relative to the next opcode
unfoldable pub pop_relative : M Operand
unfolding pop_addr
pop_relative = do
  addr ← pop_addr false
  emit (op1 mov_s8 (reg addr.reg) (reg addr.reg))
  ctx ← get
  emit (op2 add addr.reg (reg addr.reg) (imm ctx.pc))
  pure (record addr { is_short = true })

unfoldable pub load_push : Operand → M (Unit {0})
unfolding alloc_reg load push_operand
load_push addr = do r ← alloc_reg; v ← load r addr; push_operand v

unfoldable pub pop_store : Operand → M (Unit {0})
unfolding pop_operand store
pop_store addr = do v ← pop_operand; store addr v

unfoldable pub jit_ldz : M (Unit {0})
unfolding pop_addr load_push
jit_ldz = do addr ← pop_addr false; load_push addr

unfoldable pub jit_stz : M (Unit {0})
unfolding pop_addr pop_store
jit_stz = do addr ← pop_addr false; pop_store addr

unfoldable pub jit_ldr : M (Unit {0})
unfolding pop_relative load_push
jit_ldr = do addr ← pop_relative; load_push addr

-- In STR the value is popped before the address is made absolute.
unfoldable pub jit_str : M (Unit {0})
unfolding pop_addr pop_operand store
jit_str = do
  addr ← pop_addr false
  v ← pop_operand
  emit (op1 mov_s8 (reg addr.reg) (reg addr.reg))
  ctx ← get
  emit (op2 add addr.reg (reg addr.reg) (imm ctx.pc))
  store (record addr { is_short = true }) v

unfoldable pub jit_lda : M (Unit {0})
unfolding pop_addr load_push
jit_lda = do addr ← pop_addr true; load_push addr

unfoldable pub jit_sta : M (Unit {0})
unfolding pop_addr pop_store
jit_sta = do addr ← pop_addr true; pop_store addr

-- The call of a C helper with the VM and the address, the registers saved and restored around it
unfoldable pub call_helper : Operand → Helper → M (Unit {0})
unfolding clear_stack_caches save_state
call_helper addr helper = do
  clear_stack_caches
  save_state
  modify λ ctx. record ctx { mem_base = none }
  emit (op1 mov_p (reg r_mem_base) (reg s_vm))
  emit (op1 mov (reg r_mem_offset) (reg addr.reg))
  emit (icall helper)

unfoldable pub jit_dei : M (Unit {0})
unfolding pop_addr alloc_reg call_helper load_state push_operand
jit_dei = do
  addr ← pop_addr false
  two ← flag_2
  r ← alloc_reg
  call_helper addr (if two then dei2 else dei)
  emit (op1 mov (reg r) (reg r_mem_base))
  load_state
  push_operand (record { semantics = 0; is_short = two; const_value = 0; reg = r })

-- The write of DEO to the device page, before the helper is called
unfoldable pub store_device : Operand → Operand → M (Unit {0})
unfolding set_mem_base
store_device addr v = do
  set_mem_base Field.device
  emit (op1 mov_u8 (reg r_mem_offset) (reg addr.reg))
  when v.is_short (do
    emit (op2 lshr r_tmp (reg v.reg) (imm 8))
    emit (op1 mov_u8 mem (reg r_tmp))
    emit (op2 add r_mem_offset (reg r_mem_offset) (imm 1))
    emit (op2 and r_mem_offset (reg r_mem_offset) (imm 0xff)))
  emit (op1 mov_u8 mem (reg v.reg))

unfoldable pub jit_deo : M (Unit {0})
unfolding pop_addr pop_operand store_device call_helper load_state
jit_deo = do
  addr ← pop_addr false
  v ← pop_operand
  store_device addr v
  call_helper addr (if v.is_short then deo2 else deo)
  load_state

unfoldable pub jit_lit : M (Unit {0})
unfolding immediate push_operand
jit_lit = do two ← flag_2; lit ← immediate two; push_operand lit
