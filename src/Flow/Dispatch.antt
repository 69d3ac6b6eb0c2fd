-- ===== src/Flow/Dispatch.antt =====
-- src/jit.c: each opcode, and what precedes it, moves on in the block by at most three bytes.
use buxn_jit.Prelude.{ℕ, ◌+◌, ◌^◌, ◌%◌, ◌≡◌, refl, some}
use buxn_jit.Jit.Potential.{Grows-refl}
use buxn_jit.Ctx.{Ctx, M, modify}
use buxn_jit.Opcodes.Stack.{
  jit_brk, jit_inc, jit_pop, jit_nip, jit_swp, jit_rot, jit_dup, jit_ovr, jit_sth,
}
use buxn_jit.Opcodes.Arith.{
  jit_equ, jit_neq, jit_gth, jit_lth, jit_add, jit_sub, jit_mul, jit_div, jit_and, jit_ora, jit_eor,
  jit_sft,
}
use buxn_jit.Opcodes.Memory.{jit_ldz, jit_stz, jit_ldr, jit_str, jit_lda, jit_sta, jit_dei, jit_deo}
use buxn_jit.Opcodes.Control.{Opcode, dispatch, enter_keep, leave_keep, begin_opcode}
use buxn_jit.Flow.Keeps.{Keeps}
use buxn_jit.Flow.Steady.{Steady, steady_rules}
use buxn_jit.Flow.Caches.{alloc_reg-Steady}
use buxn_jit.Flow.Sweeps.{retain-Steady, flush-Steady}
use buxn_jit.Flow.Micro.{flag_r-Steady}
use buxn_jit.Flow.Opcodes.{
  jit_brk-Steady, jit_inc-Steady, jit_pop-Steady, jit_nip-Steady, jit_swp-Steady, jit_rot-Steady,
  jit_dup-Steady, jit_ovr-Steady, jit_equ-Steady, jit_neq-Steady, jit_gth-Steady, jit_lth-Steady,
  jit_sth-Steady, jit_ldz-Steady, jit_stz-Steady, jit_ldr-Steady, jit_str-Steady, jit_lda-Steady,
  jit_sta-Steady, jit_dei-Steady, jit_deo-Steady, jit_add-Steady, jit_sub-Steady, jit_mul-Steady,
  jit_div-Steady, jit_and-Steady, jit_ora-Steady, jit_eor-Steady, jit_sft-Steady,
}
use buxn_jit.Flow.Progress.{Stays, Steady-Stays, Advances, Advances-later, Advances-now}
use buxn_jit.Flow.Forward.{
  Leaves, Reach, Stays-Leaves, jit_jmp-Stays, jit_jcn-Stays, jit_jsr-Stays, jit_lit-Leaves,
  jit_jci-Leaves, jit_jmi-Leaves, jit_jsi-Leaves,
}

enter_keep-Steady : Keeps Steady enter_keep
unfolding enter_keep
enter_keep-Steady =
    search (alloc_reg-Steady, flush-Steady, flag_r-Steady, steady_rules) depth 40 fits 5000

leave_keep-Steady : Keeps Steady leave_keep
unfolding leave_keep
leave_keep-Steady = search steady_rules

fetch-Advances :
    Keeps
      (Advances 1)
      (modify λ ctx. record ctx { current_opcode = ctx.image ctx.pc; pc = (ctx.pc + 1) % 2 ^ 16 })
fetch-Advances = record {
  at = λ ctx a ctx' e. rw⁻¹ (made ctx ctx' a e) (record { pc = refl; jit = Grows-refl ctx.jit });
}
  where
    made :
        (ctx ctx' : Ctx) (a : Unit {0})
        → modify
            (λ ctx. record ctx { current_opcode = ctx.image ctx.pc; pc = (ctx.pc + 1) % 2 ^ 16 })
            ctx
          ≡ some (a, ctx')
        → record ctx { current_opcode = ctx.image ctx.pc; pc = (ctx.pc + 1) % 2 ^ 16 } ≡ ctx'
    made ctx ctx' a e = cc

pub begin_opcode-Advances : Keeps (Advances 1) begin_opcode
unfolding begin_opcode
begin_opcode-Advances =
    search
      (
        Advances-later 1,
        Advances-now 1,
        fetch-Advances,
        retain-Steady,
        enter_keep-Steady,
        leave_keep-Steady,
        steady_rules,
      )
      depth 40 fits 5000

module _ (n q : ℕ) (r : Reach n q) where
  still : (f : M (Unit {0})) → Keeps Steady f → Keeps (Leaves n q) f
  still f k = Stays-Leaves n q f r.none_read (Steady-Stays n f k)

  pub dispatch-Leaves :
      (op : Opcode) (next : M (Unit {0}))
      → Keeps (Stays n) next
      → Keeps (Leaves n q) (dispatch op next)
  unfolding dispatch
  dispatch-Leaves Opcode.jmp next ih = Stays-Leaves n q _ r.none_read (jit_jmp-Stays n next ih)
  dispatch-Leaves Opcode.jcn next ih = Stays-Leaves n q _ r.none_read (jit_jcn-Stays n next ih)
  dispatch-Leaves Opcode.jsr next ih = Stays-Leaves n q _ r.none_read (jit_jsr-Stays n next ih)
  dispatch-Leaves Opcode.jci next ih = jit_jci-Leaves n q r next ih
  dispatch-Leaves Opcode.jmi next ih = jit_jmi-Leaves n q r next ih
  dispatch-Leaves Opcode.jsi next ih = jit_jsi-Leaves n q r next ih
  dispatch-Leaves Opcode.lit next ih = jit_lit-Leaves n q r
  dispatch-Leaves Opcode.brk next ih = still jit_brk jit_brk-Steady
  dispatch-Leaves Opcode.inc next ih = still jit_inc jit_inc-Steady
  dispatch-Leaves Opcode.pop next ih = still jit_pop jit_pop-Steady
  dispatch-Leaves Opcode.nip next ih = still jit_nip jit_nip-Steady
  dispatch-Leaves Opcode.swp next ih = still jit_swp jit_swp-Steady
  dispatch-Leaves Opcode.rot next ih = still jit_rot jit_rot-Steady
  dispatch-Leaves Opcode.dup next ih = still jit_dup jit_dup-Steady
  dispatch-Leaves Opcode.ovr next ih = still jit_ovr jit_ovr-Steady
  dispatch-Leaves Opcode.equ next ih = still jit_equ jit_equ-Steady
  dispatch-Leaves Opcode.neq next ih = still jit_neq jit_neq-Steady
  dispatch-Leaves Opcode.gth next ih = still jit_gth jit_gth-Steady
  dispatch-Leaves Opcode.lth next ih = still jit_lth jit_lth-Steady
  dispatch-Leaves Opcode.sth next ih = still jit_sth jit_sth-Steady
  dispatch-Leaves Opcode.ldz next ih = still jit_ldz jit_ldz-Steady
  dispatch-Leaves Opcode.stz next ih = still jit_stz jit_stz-Steady
  dispatch-Leaves Opcode.ldr next ih = still jit_ldr jit_ldr-Steady
  dispatch-Leaves Opcode.str next ih = still jit_str jit_str-Steady
  dispatch-Leaves Opcode.lda next ih = still jit_lda jit_lda-Steady
  dispatch-Leaves Opcode.sta next ih = still jit_sta jit_sta-Steady
  dispatch-Leaves Opcode.dei next ih = still jit_dei jit_dei-Steady
  dispatch-Leaves Opcode.deo next ih = still jit_deo jit_deo-Steady
  dispatch-Leaves Opcode.add next ih = still jit_add jit_add-Steady
  dispatch-Leaves Opcode.sub next ih = still jit_sub jit_sub-Steady
  dispatch-Leaves Opcode.mul next ih = still jit_mul jit_mul-Steady
  dispatch-Leaves Opcode.div next ih = still jit_div jit_div-Steady
  dispatch-Leaves Opcode.and next ih = still jit_and jit_and-Steady
  dispatch-Leaves Opcode.ora next ih = still jit_ora jit_ora-Steady
  dispatch-Leaves Opcode.eor next ih = still jit_eor jit_eor-Steady
  dispatch-Leaves Opcode.sft next ih = still jit_sft jit_sft-Steady
