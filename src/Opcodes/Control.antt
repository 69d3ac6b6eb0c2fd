-- ===== src/Opcodes/Control.antt =====
-- src/jit.c, "Opcodes": jumps and calls, and `buxn_jit_next_opcode`. The table from opcode bytes to
-- opcodes, BUXN_OPCODE_DISPATCH, comes from the VM's headers: it is the argument `decode`.
use buxn_jit.Prelude.{
  ℕ, zero, suc, ◌+◌, ◌%◌, ◌^◌, ltb, Bool, true, false, none, some, not, if◌then◌else◌,
}
use buxn_jit.Lir.{reg, imm, op1, mov_u8, mov_u16, ret, s_wsp, s_rsp}
use buxn_jit.Ctx.{Operand, M, ◌>>=◌, ◌>>◌, get, modify, when, emit, has, sem_boolean}
use buxn_jit.Regs.{op_flag_k}
use buxn_jit.Cache.Spill.{alloc_reg}
use buxn_jit.Cache.Sweep.{flush, retain, clear_stack_caches}
use buxn_jit.Micro.Stack.{flag_r, push_ex, pop_ex, pop_operand}
use buxn_jit.Micro.Memory.{immediate_jump_target}
use buxn_jit.Jump.{jump, conditional_jump, finalize}
use buxn_jit.Opcodes.Stack.{
  jit_brk, jit_inc, jit_pop, jit_nip, jit_swp, jit_rot, jit_dup, jit_ovr, jit_sth,
}
use buxn_jit.Opcodes.Arith.{
  jit_equ, jit_neq, jit_gth, jit_lth, jit_add, jit_sub, jit_mul, jit_div, jit_and, jit_ora, jit_eor,
  jit_sft,
}
use buxn_jit.Opcodes.Memory.{
  jit_ldz, jit_stz, jit_ldr, jit_str, jit_lda, jit_sta, jit_dei, jit_deo, jit_lit,
}

pub data Opcode : Type 0 where
  brk inc pop nip swp rot dup ovr equ neq gth lth jmp jcn jsr sth : Opcode
  ldz stz ldr str lda sta dei deo add sub mul div and ora eor sft : Opcode
  jci jmi jsi lit : Opcode

module _ (next : M (Unit {0})) where
  unfoldable pub jit_jmp : M (Unit {0})
  unfolding pop_operand jump
  jit_jmp = do
    target ← pop_operand
    jump next target 0
    when (not (has target.semantics sem_boolean)) finalize

  unfoldable pub jit_jcn : M (Unit {0})
  unfolding pop_operand pop_ex conditional_jump
  jit_jcn = do
    target ← pop_operand
    side ← flag_r
    condition ← pop_ex false side
    conditional_jump next condition target

  -- The push of the return address, and the jump, of JSR and JSI
  unfoldable pub call_target : Operand → Bool → M (Unit {0})
  unfolding alloc_reg push_ex jump
  call_target target side = do
    r ← alloc_reg
    ctx ← get
    emit (op1 mov_u16 (reg r) (imm ctx.pc))
    push_ex (record { semantics = 0; is_short = true; const_value = 0; reg = r }) side
    jump next target ctx.pc

  unfoldable pub jit_jsr : M (Unit {0})
  unfolding pop_operand call_target
  jit_jsr = do target ← pop_operand; side ← flag_r; call_target target (not side)

  unfoldable pub jit_jci : M (Unit {0})
  unfolding pop_ex immediate_jump_target conditional_jump
  jit_jci = do
    condition ← pop_ex false false
    target ← immediate_jump_target
    conditional_jump next condition target

  unfoldable pub jit_jmi : M (Unit {0})
  unfolding immediate_jump_target jump
  jit_jmi = do target ← immediate_jump_target; jump next target 0; finalize

  unfoldable pub jit_jsi : M (Unit {0})
  unfolding immediate_jump_target call_target
  jit_jsi = do target ← immediate_jump_target; call_target target true

-- The `switch` of `buxn_jit_next_opcode`
unfoldable pub dispatch : Opcode → M (Unit {0}) → M (Unit {0})
dispatch brk next = jit_brk
dispatch inc next = jit_inc
dispatch pop next = jit_pop
dispatch nip next = jit_nip
dispatch swp next = jit_swp
dispatch rot next = jit_rot
dispatch dup next = jit_dup
dispatch ovr next = jit_ovr
dispatch equ next = jit_equ
dispatch neq next = jit_neq
dispatch gth next = jit_gth
dispatch lth next = jit_lth
dispatch jmp next = jit_jmp next
dispatch jcn next = jit_jcn next
dispatch jsr next = jit_jsr next
dispatch sth next = jit_sth
dispatch ldz next = jit_ldz
dispatch stz next = jit_stz
dispatch ldr next = jit_ldr
dispatch str next = jit_str
dispatch lda next = jit_lda
dispatch sta next = jit_sta
dispatch dei next = jit_dei
dispatch deo next = jit_deo
dispatch add next = jit_add
dispatch sub next = jit_sub
dispatch mul next = jit_mul
dispatch div next = jit_div
dispatch and next = jit_and
dispatch ora next = jit_ora
dispatch eor next = jit_eor
dispatch sft next = jit_sft
dispatch jci next = jit_jci next
dispatch jmi next = jit_jmi next
dispatch jsi next = jit_jsi next
dispatch lit next = jit_lit

-- The keep mode: pops go through copies of the stack pointers, and the cache is flushed.
unfoldable pub enter_keep : M (Unit {0})
unfolding alloc_reg flush
enter_keep = do
  modify λ ctx. record ctx { shadow = some (ctx.wsp, ctx.rsp) }
  swsp ← alloc_reg
  srsp ← alloc_reg
  emit (op1 mov_u8 (reg swsp) (reg s_wsp))
  emit (op1 mov_u8 (reg srsp) (reg s_rsp))
  modify λ ctx. record ctx { wsp_reg = swsp; rsp_reg = srsp }
  side ← flag_r
  flush side

unfoldable pub leave_keep : M (Unit {0})
leave_keep = modify λ ctx. record ctx { shadow = none; wsp_reg = s_wsp; rsp_reg = s_rsp }

-- What precedes the `switch` for an address outside the zero page
unfoldable pub begin_opcode : M (Unit {0})
unfolding retain enter_keep leave_keep
begin_opcode = do
  modify λ ctx. record ctx { reg_ref_counts = λ i. 0 }
  retain false
  retain true
  modify λ ctx. record ctx { current_opcode = ctx.image ctx.pc; pc = (ctx.pc + 1) % 2 ^ 16 }
  ctx ← get
  if op_flag_k ctx.current_opcode then enter_keep else leave_keep

unfoldable pub leave_to_interpreter : M (Unit {0})
unfolding clear_stack_caches
leave_to_interpreter = do clear_stack_caches; ctx ← get; emit (ret (imm ctx.pc)); finalize

-- `buxn_jit_next_opcode`, less the hook. The fuel bounds the opcodes compiled inside one another; if
-- it runs out, the model goes on with `bail`.
unfoldable pub next_opcode : (ℕ → Opcode) → M (Unit {0}) → ℕ → M (Unit {0})
unfolding begin_opcode leave_to_interpreter dispatch
next_opcode decode bail zero = bail
next_opcode decode bail (suc fuel) = do
  ctx ← get
  if ltb ctx.pc 256 then leave_to_interpreter else (do
    begin_opcode
    ctx' ← get
    dispatch (decode ctx'.current_opcode) (next_opcode decode bail fuel))
