-- ===== src/Micro/Memory.antt =====
-- src/jit.c, "Micro ops": memory access, immediates, and the two stack pointers kept in registers.
use buxn_jit.Prelude.{ℕ, ◌+◌, ◌*◌, ◌%◌, ◌^◌, ltb, Bool, true, false, if◌then◌else◌}
use buxn_jit.Lir.{
  Field, reg, imm, mem, vm_byte, op1, op2, load_u16, mov_u8, mov_u16, rev_u16, add, shl, lshr, and,
  or, r_mem_offset, r_tmp, s_wsp, s_rsp,
}
use buxn_jit.Ctx.{Operand, M, pure, ◌>>=◌, ◌>>◌, get, modify, when, emit, sem_const, sem_imm_jmp}
use buxn_jit.Cache.Spill.{set_mem_base, alloc_reg}
use buxn_jit.Micro.Stack.{flag_2, size}

-- The mask of an address: shorts wrap at the end of memory, bytes in the zero page
abbrev pub addr_mask : Bool → ℕ
addr_mask true = 0xffff
addr_mask false = 0x00ff

abbrev pub next_addr : Operand → M (Unit {0})
next_addr addr = do
  emit (op2 add r_mem_offset (reg r_mem_offset) (imm 1))
  emit (op2 and r_mem_offset (reg r_mem_offset) (imm (addr_mask addr.is_short)))

-- `buxn_jit_load`
unfoldable pub load : ℕ → Operand → M Operand
unfolding set_mem_base
load dst addr = do
  two ← flag_2
  set_mem_base Field.memory
  emit (op1 mov_u16 (reg r_mem_offset) (reg addr.reg))
  emit (op1 mov_u8 (reg dst) mem)
  when two (do
    emit (op2 shl dst (reg dst) (imm 8))
    next_addr addr
    emit (op1 mov_u8 (reg r_tmp) mem)
    emit (op2 or dst (reg dst) (reg r_tmp)))
  pure (record { semantics = 0; is_short = two; const_value = 0; reg = dst })

-- `buxn_jit_store`
unfoldable pub store : Operand → Operand → M (Unit {0})
unfolding set_mem_base
store addr val = do
  set_mem_base Field.memory
  emit (op1 mov_u16 (reg r_mem_offset) (reg addr.reg))
  when val.is_short (do
    emit (op2 lshr r_tmp (reg val.reg) (imm 8))
    emit (op1 mov_u8 mem (reg r_tmp))
    next_addr addr)
  emit (op1 mov_u8 mem (reg val.reg))

-- `buxn_jit_load_state` and `buxn_jit_save_state`
unfoldable pub load_state : M (Unit {0})
load_state = do
  emit (op1 mov_u8 (reg s_wsp) (vm_byte Field.wsp))
  emit (op1 mov_u8 (reg s_rsp) (vm_byte Field.rsp))

unfoldable pub save_state : M (Unit {0})
save_state = do
  emit (op1 mov_u8 (vm_byte Field.wsp) (reg s_wsp))
  emit (op1 mov_u8 (vm_byte Field.rsp) (reg s_rsp))

abbrev pub advance_pc : ℕ → M (Unit {0})
advance_pc n = modify λ ctx. record ctx { pc = (ctx.pc + n) % 2 ^ 16 }

-- The big-endian short at an address of the memory image
abbrev pub image_short : (ℕ → ℕ) → ℕ → ℕ
image_short image pc = image (pc % 2 ^ 16) * 2 ^ 8 + image ((pc + 1) % 2 ^ 16)

-- `buxn_jit_immediate`, on a little-endian target
unfoldable pub immediate : Bool → M Operand
unfolding alloc_reg set_mem_base
immediate is_short = do
  r ← alloc_reg
  ctx ← get
  set_mem_base Field.memory
  emit (op1 mov_u16 (reg r_mem_offset) (imm ctx.pc))
  if is_short
      then (if ltb ctx.pc 0xffff
          then (do emit (load_u16 r); emit (op1 rev_u16 (reg r) (reg r)))
          else (do
            emit (op1 mov_u8 (reg r) mem)
            emit (op2 shl r (reg r) (imm 8))
            emit (op1 mov_u16 (reg r_mem_offset) (imm (ctx.pc + 1)))
            emit (op1 mov_u8 (reg r_tmp) mem)
            emit (op2 or r (reg r) (reg r_tmp))))
      else emit (op1 mov_u8 (reg r) mem)
  advance_pc (size is_short)
  pure (record {
    semantics = sem_const;
    is_short = is_short;
    const_value = if is_short then image_short ctx.image ctx.pc else ctx.image ctx.pc;
    reg = r;
  })

-- `buxn_jit_immediate_jump_target`
unfoldable pub immediate_jump_target : M Operand
immediate_jump_target = do
  ctx ← get
  let pc = (ctx.pc + 2) % 2 ^ 16
  let target = (image_short ctx.image ctx.pc + pc) % 2 ^ 16
  modify λ c. record c { pc = pc }
  emit (op1 mov_u16 (reg r_tmp) (imm target))
  pure (record {
    semantics = sem_const + sem_imm_jmp;
    is_short = true;
    const_value = target;
    reg = r_tmp;
  })

-- `buxn_jit_wrap_around`
unfoldable pub wrap_around : Operand → M (Unit {0})
wrap_around operand = do
  two ← flag_2
  emit (op2 and operand.reg (reg operand.reg) (imm (addr_mask two)))
