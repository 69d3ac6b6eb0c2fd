-- ===== src/Jump.antt =====
-- src/jit.c, "Micro ops": jumps. A jump with a known target is emitted with a place for the address
-- of the target's block, which is asked for here and linked later; the fallback is a return of the
-- target to the trampoline. `next` is `buxn_jit_next_opcode`.
use buxn_jit.Prelude.{
  ℕ, ◌+◌, ◌-◌, ◌%◌, ◌^◌, ltb, Bool, true, false, none, some, ◌==◌, if◌then◌else◌,
}
use buxn_jit.Lir.{
  Cond, Place, reg, imm, op1, op2, op2u, mov_s8, add, and_z, always, equal, not_equal, is_zero, cmp,
  label, set_label, call, ret, r_mem_base,
}
use buxn_jit.Lir
use buxn_jit.Jit.{LinkType, link_to_head, link_to_body, request_link}
use buxn_jit.Ctx.{
  Operand, M, pure, ◌>>=◌, ◌>>◌, get, modify, skip, emit, fresh_id, has, sem_const, sem_boolean,
  sem_imm_jmp,
}
use buxn_jit.Cache.Sweep.{clear_stack_caches}

-- `sljit_emit_cmp` and `sljit_emit_jump`: they hand out the jump.
abbrev pub emit_cmp : Cond → Bool → Place → Place → M ℕ
emit_cmp cond rewritable a b = do j ← fresh_id; emit (cmp cond rewritable a b j); pure j

abbrev pub emit_jump : Cond → Bool → M ℕ
emit_jump cond rewritable = do j ← fresh_id; emit (Lir.jump cond rewritable j); pure j

-- `sljit_set_label(jump, sljit_emit_label(compiler))`
abbrev pub land_here : ℕ → M (Unit {0})
land_here j = do l ← fresh_id; emit (label l); emit (set_label j l)

-- An entry of the link queue, for a jump of this block; the address of a block has sixteen bits
abbrev pub link : LinkType → ℕ → ℕ → M (Unit {0})
link type target j =
    modify λ ctx. record ctx { jit = request_link ctx.jit type (target % 2 ^ 16) ctx.compiler j }

-- The part of `buxn_jit_jump_abs` for a constant target and no return address
unfoldable pub jump_const : Operand → M (Unit {0})
jump_const target = do
  j ←
      if has target.semantics sem_imm_jmp
      then emit_jump always true
      else emit_cmp equal true (reg target.reg) (imm target.const_value)
  land_here j
  link link_to_body target.const_value j

-- The part for a constant target that is called; the result is the jump out
unfoldable pub call_const : Operand → ℕ → M ℕ
call_const target return_addr = do
  skip_call ← if has target.semantics sem_imm_jmp then pure none else (do
    j ← emit_cmp not_equal false (reg target.reg) (imm target.const_value)
    pure (some j))
  modify λ ctx. record ctx { mem_base = none }
  c ← fresh_id
  emit (call true c)
  ctx ← get
  emit (set_label c ctx.call_fallback)
  exit ← emit_cmp equal false (reg r_mem_base) (imm return_addr)
  emit (ret (reg r_mem_base))
  elim skip_call [ none ↦ skip | some j ↦ land_here j ]
  link link_to_head target.const_value c
  pure exit

-- `buxn_jit_jump_abs`
unfoldable pub jump_abs : Operand → ℕ → M (Unit {0})
unfolding jump_const call_const
jump_abs target return_addr =
    if has target.semantics sem_const
    then if return_addr == 0
      then (do jump_const target; emit (ret (reg target.reg)))
      else (do exit ← call_const target return_addr; emit (ret (reg target.reg)); land_here exit)
    else emit (ret (reg target.reg))

-- `(uint16_t)((int32_t)pc + (int32_t)(int8_t)c)`
unfoldable pub relative : ℕ → ℕ → ℕ
relative pc c =
    let b = c % 2 ^ 8 in if ltb b 128 then (pc + b) % 2 ^ 16 else (pc + 2 ^ 16 + b - 2 ^ 8) % 2 ^ 16

-- `buxn_jit_jump`
unfoldable pub jump : M (Unit {0}) → Operand → ℕ → M (Unit {0})
unfolding clear_stack_caches jump_abs relative
jump next target return_addr = do
  clear_stack_caches
  if target.is_short
      then jump_abs target return_addr
      else if has target.semantics sem_boolean
      then (do
        before ← get
        j ← emit_cmp not_equal false (reg target.reg) (imm 0)
        next
        modify λ ctx. record ctx { finalized = before.finalized }
        clear_stack_caches
        land_here j)
      else (do
        emit (op1 mov_s8 (reg target.reg) (reg target.reg))
        ctx ← get
        emit (op2 add target.reg (reg target.reg) (imm ctx.pc))
        jump_abs (record target { const_value = relative ctx.pc target.const_value }) return_addr)

-- `buxn_jit_conditional_jump`
unfoldable pub conditional_jump : M (Unit {0}) → Operand → Operand → M (Unit {0})
unfolding jump
conditional_jump next condition target = do
  clear_stack_caches
  emit (op2u and_z (reg condition.reg) (imm 0xff))
  j ← emit_jump is_zero false
  jump next target 0
  land_here j

-- `buxn_jit_finalize`
abbrev pub finalize : M (Unit {0})
finalize = modify λ ctx. record ctx { finalized = true }
