-- ===== src/Flow/Opcodes.antt =====
-- src/jit.c, "Opcodes": those that neither read an immediate nor jump are steady.
use buxn_jit.Prelude.{ℕ, Bool, true, false, bit_and, bit_or, bit_xor}
use buxn_jit.Lir.{
  Op2, Op2u, Cond, Helper, sub_z, sub_greater, sub_less, equal, not_equal, greater, less, add, sub,
  mul, and, or, xor,
}
use buxn_jit.Ctx.{Operand, modify}
use buxn_jit.Opcodes.Stack.{
  jit_brk, jit_inc, jit_pop, jit_nip, jit_swp, jit_rot, jit_dup, jit_ovr, jit_sth, track_discard,
}
use buxn_jit.Opcodes.Arith.{
  fold_add, fold_sub, fold_mul, jit_compare, jit_equ, jit_neq, jit_gth, jit_lth, jit_binary,
  jit_add, jit_sub, jit_mul, jit_bitwise, jit_and, jit_ora, jit_eor, jit_div, jit_sft,
}
use buxn_jit.Opcodes.Memory.{
  pop_addr, pop_relative, load_push, pop_store, jit_ldz, jit_stz, jit_ldr, jit_str, jit_lda,
  jit_sta, call_helper, jit_dei, store_device, jit_deo,
}
use buxn_jit.Flow.Keeps.{Keeps}
use buxn_jit.Flow.Steady.{Steady, steady_rules}
use buxn_jit.Flow.Caches.{set_mem_base-Steady, alloc_reg-Steady}
use buxn_jit.Flow.Sweeps.{discard-Steady, clear_stack_caches-Steady}
use buxn_jit.Flow.Micro.{
  flag_2-Steady, flag_r-Steady, push_ex-Steady, pop_ex-Steady, push_operand-Steady,
  pop_operand-Steady, load-Steady, store-Steady, load_state-Steady, save_state-Steady,
  wrap_around-Steady, emit_cmp-Steady, emit_jump-Steady, land_here-Steady,
}

pub ruleset micro_steady = (
  set_mem_base-Steady, alloc_reg-Steady, discard-Steady, clear_stack_caches-Steady, flag_2-Steady,
  flag_r-Steady, push_ex-Steady, pop_ex-Steady, push_operand-Steady, pop_operand-Steady,
  load-Steady, store-Steady, load_state-Steady, save_state-Steady, wrap_around-Steady, steady_rules,
)

track_discard-Steady : (side : Bool) (n : ℕ) → Keeps Steady (modify (track_discard side n))
track_discard-Steady true n = search steady_rules
track_discard-Steady false n = search steady_rules

pub jit_brk-Steady : Keeps Steady jit_brk
unfolding jit_brk
jit_brk-Steady = search micro_steady depth 40 fits 5000

pub jit_inc-Steady : Keeps Steady jit_inc
unfolding jit_inc
jit_inc-Steady = search micro_steady depth 40 fits 5000

pub jit_pop-Steady : Keeps Steady jit_pop
unfolding jit_pop
jit_pop-Steady = search (track_discard-Steady, micro_steady) depth 40 fits 5000

pub jit_nip-Steady : Keeps Steady jit_nip
unfolding jit_nip
jit_nip-Steady = search (jit_pop-Steady, micro_steady) depth 40 fits 5000

pub jit_swp-Steady : Keeps Steady jit_swp
unfolding jit_swp
jit_swp-Steady = search micro_steady depth 40 fits 5000

pub jit_rot-Steady : Keeps Steady jit_rot
unfolding jit_rot
jit_rot-Steady = search micro_steady depth 40 fits 5000

pub jit_dup-Steady : Keeps Steady jit_dup
unfolding jit_dup
jit_dup-Steady = search micro_steady depth 40 fits 5000

pub jit_ovr-Steady : Keeps Steady jit_ovr
unfolding jit_ovr
jit_ovr-Steady = search micro_steady depth 40 fits 5000

pub jit_sth-Steady : Keeps Steady jit_sth
unfolding jit_sth
jit_sth-Steady = search micro_steady depth 40 fits 5000

pub jit_compare-Steady : (op : Op2u) (flag : Cond) → Keeps Steady (jit_compare op flag)
unfolding jit_compare
jit_compare-Steady op flag = search micro_steady depth 40 fits 5000

pub jit_binary-Steady : (op : Op2) (fold : ℕ → ℕ → ℕ) → Keeps Steady (jit_binary op fold)
unfolding jit_binary
jit_binary-Steady op fold = search micro_steady depth 40 fits 5000

pub jit_bitwise-Steady : (op : Op2) (fold : ℕ → ℕ → ℕ) → Keeps Steady (jit_bitwise op fold)
unfolding jit_bitwise
jit_bitwise-Steady op fold = search micro_steady depth 40 fits 5000

pub jit_div-Steady : Keeps Steady jit_div
unfolding jit_div
jit_div-Steady =
    search (emit_cmp-Steady, emit_jump-Steady, land_here-Steady, micro_steady) depth 40 fits 5000

pub jit_sft-Steady : Keeps Steady jit_sft
unfolding jit_sft
jit_sft-Steady = search micro_steady depth 40 fits 5000

pub pop_addr-Steady : (is_short : Bool) → Keeps Steady (pop_addr is_short)
unfolding pop_addr
pop_addr-Steady is_short = search micro_steady depth 40 fits 5000

pub pop_relative-Steady : Keeps Steady pop_relative
unfolding pop_relative
pop_relative-Steady = search (pop_addr-Steady, micro_steady) depth 40 fits 5000

pub load_push-Steady : (addr : Operand) → Keeps Steady (load_push addr)
unfolding load_push
load_push-Steady addr = search micro_steady depth 40 fits 5000

pub pop_store-Steady : (addr : Operand) → Keeps Steady (pop_store addr)
unfolding pop_store
pop_store-Steady addr = search micro_steady depth 40 fits 5000

pub jit_ldz-Steady : Keeps Steady jit_ldz
unfolding jit_ldz
jit_ldz-Steady = search (pop_addr-Steady, load_push-Steady, micro_steady) depth 40 fits 5000

pub jit_lda-Steady : Keeps Steady jit_lda
unfolding jit_lda
jit_lda-Steady = search (pop_addr-Steady, load_push-Steady, micro_steady) depth 40 fits 5000

pub jit_stz-Steady : Keeps Steady jit_stz
unfolding jit_stz
jit_stz-Steady = search (pop_addr-Steady, pop_store-Steady, micro_steady) depth 40 fits 5000

pub jit_sta-Steady : Keeps Steady jit_sta
unfolding jit_sta
jit_sta-Steady = search (pop_addr-Steady, pop_store-Steady, micro_steady) depth 40 fits 5000

pub jit_ldr-Steady : Keeps Steady jit_ldr
unfolding jit_ldr
jit_ldr-Steady = search (pop_relative-Steady, load_push-Steady, micro_steady) depth 40 fits 5000

pub jit_str-Steady : Keeps Steady jit_str
unfolding jit_str
jit_str-Steady = search (pop_addr-Steady, micro_steady) depth 40 fits 5000

pub call_helper-Steady : (addr : Operand) (helper : Helper) → Keeps Steady (call_helper addr helper)
unfolding call_helper
call_helper-Steady addr helper = search micro_steady depth 40 fits 5000

pub jit_dei-Steady : Keeps Steady jit_dei
unfolding jit_dei
jit_dei-Steady = search (pop_addr-Steady, call_helper-Steady, micro_steady) depth 40 fits 5000

pub store_device-Steady : (addr v : Operand) → Keeps Steady (store_device addr v)
unfolding store_device
store_device-Steady addr v = search micro_steady depth 40 fits 5000

pub jit_deo-Steady : Keeps Steady jit_deo
unfolding jit_deo
jit_deo-Steady =
    search (pop_addr-Steady, call_helper-Steady, store_device-Steady, micro_steady) depth 40 fits
      5000

pub jit_equ-Steady : Keeps Steady jit_equ
unfolding jit_equ
jit_equ-Steady = jit_compare-Steady sub_z equal

pub jit_neq-Steady : Keeps Steady jit_neq
unfolding jit_neq
jit_neq-Steady = jit_compare-Steady sub_z not_equal

pub jit_gth-Steady : Keeps Steady jit_gth
unfolding jit_gth
jit_gth-Steady = jit_compare-Steady sub_greater greater

pub jit_lth-Steady : Keeps Steady jit_lth
unfolding jit_lth
jit_lth-Steady = jit_compare-Steady sub_less less

pub jit_add-Steady : Keeps Steady jit_add
unfolding jit_add
jit_add-Steady = jit_binary-Steady add fold_add

pub jit_sub-Steady : Keeps Steady jit_sub
unfolding jit_sub
jit_sub-Steady = jit_binary-Steady sub fold_sub

pub jit_mul-Steady : Keeps Steady jit_mul
unfolding jit_mul
jit_mul-Steady = jit_binary-Steady mul fold_mul

pub jit_and-Steady : Keeps Steady jit_and
unfolding jit_and
jit_and-Steady = jit_bitwise-Steady and bit_and

pub jit_ora-Steady : Keeps Steady jit_ora
unfolding jit_ora
jit_ora-Steady = jit_bitwise-Steady or bit_or

pub jit_eor-Steady : Keeps Steady jit_eor
unfolding jit_eor
jit_eor-Steady = jit_bitwise-Steady xor bit_xor
