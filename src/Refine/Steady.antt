-- ===== src/Refine/Steady.antt =====
-- The opcodes that work on one stack keep the place in the block and the memory image,
-- and take few operands.
use buxn_jit.Prelude.{◌≤◌, ◌≢◌, refl, Bool, [], length, arith}
use buxn_jit.Ctx.{M}
use buxn_jit.Opcodes.Control.{
  Opcode, jmp, jcn, jsr, jci, jmi, jsi, lit, brk, sth, ldz, stz, ldr, str, lda, sta, dei, deo, div,
  inc, pop, nip, swp, rot, dup, ovr, equ, neq, gth, lth, add, sub, mul, and, ora, eor, sft,
  dispatch,
}
use buxn_jit.Flow.Keeps.{Keeps}
use buxn_jit.Flow.Steady.{Steady}
use buxn_jit.Flow.Opcodes.{
  jit_inc-Steady, jit_pop-Steady, jit_nip-Steady, jit_swp-Steady, jit_rot-Steady, jit_dup-Steady,
  jit_ovr-Steady, jit_equ-Steady, jit_neq-Steady, jit_gth-Steady, jit_lth-Steady, jit_add-Steady,
  jit_sub-Steady, jit_mul-Steady, jit_and-Steady, jit_ora-Steady, jit_eor-Steady, jit_sft-Steady,
}
use buxn_jit.Refine.Isa.{operands}

pub one_stack-Steady :
    (op : Opcode) (two : Bool) (next : M (Unit {0}))
    → operands op two ≢ []
    → Keeps Steady (dispatch op next)
unfolding dispatch
one_stack-Steady inc two next h = jit_inc-Steady
one_stack-Steady pop two next h = jit_pop-Steady
one_stack-Steady nip two next h = jit_nip-Steady
one_stack-Steady swp two next h = jit_swp-Steady
one_stack-Steady rot two next h = jit_rot-Steady
one_stack-Steady dup two next h = jit_dup-Steady
one_stack-Steady ovr two next h = jit_ovr-Steady
one_stack-Steady equ two next h = jit_equ-Steady
one_stack-Steady neq two next h = jit_neq-Steady
one_stack-Steady gth two next h = jit_gth-Steady
one_stack-Steady lth two next h = jit_lth-Steady
one_stack-Steady add two next h = jit_add-Steady
one_stack-Steady sub two next h = jit_sub-Steady
one_stack-Steady mul two next h = jit_mul-Steady
one_stack-Steady and two next h = jit_and-Steady
one_stack-Steady ora two next h = jit_ora-Steady
one_stack-Steady eor two next h = jit_eor-Steady
one_stack-Steady sft two next h = jit_sft-Steady
one_stack-Steady jmp two next h = absurd (h refl)
one_stack-Steady jcn two next h = absurd (h refl)
one_stack-Steady jsr two next h = absurd (h refl)
one_stack-Steady jci two next h = absurd (h refl)
one_stack-Steady jmi two next h = absurd (h refl)
one_stack-Steady jsi two next h = absurd (h refl)
one_stack-Steady lit two next h = absurd (h refl)
one_stack-Steady brk two next h = absurd (h refl)
one_stack-Steady sth two next h = absurd (h refl)
one_stack-Steady ldz two next h = absurd (h refl)
one_stack-Steady stz two next h = absurd (h refl)
one_stack-Steady ldr two next h = absurd (h refl)
one_stack-Steady str two next h = absurd (h refl)
one_stack-Steady lda two next h = absurd (h refl)
one_stack-Steady sta two next h = absurd (h refl)
one_stack-Steady dei two next h = absurd (h refl)
one_stack-Steady deo two next h = absurd (h refl)
one_stack-Steady div two next h = absurd (h refl)

-- No opcode takes more than three operands.
pub operands-few : (op : Opcode) (two : Bool) → length (operands op two) ≤ 3
operands-few inc two = omega arith
operands-few pop two = omega arith
operands-few nip two = omega arith
operands-few swp two = omega arith
operands-few rot two = omega arith
operands-few dup two = omega arith
operands-few ovr two = omega arith
operands-few equ two = omega arith
operands-few neq two = omega arith
operands-few gth two = omega arith
operands-few lth two = omega arith
operands-few add two = omega arith
operands-few sub two = omega arith
operands-few mul two = omega arith
operands-few and two = omega arith
operands-few ora two = omega arith
operands-few eor two = omega arith
operands-few sft two = omega arith
operands-few jmp two = omega arith
operands-few jcn two = omega arith
operands-few jsr two = omega arith
operands-few jci two = omega arith
operands-few jmi two = omega arith
operands-few jsi two = omega arith
operands-few lit two = omega arith
operands-few brk two = omega arith
operands-few sth two = omega arith
operands-few ldz two = omega arith
operands-few stz two = omega arith
operands-few ldr two = omega arith
operands-few str two = omega arith
operands-few lda two = omega arith
operands-few sta two = omega arith
operands-few dei two = omega arith
operands-few deo two = omega arith
operands-few div two = omega arith
