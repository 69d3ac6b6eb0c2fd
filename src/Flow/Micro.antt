-- ===== src/Flow/Micro.antt =====
-- src/jit.c, "Micro ops": all but the reads of immediates are steady.
use buxn_jit.Prelude.{
  if◌then◌else◌, ℕ, Bool, true, false, ◌≡◌, Option, none, some, arith, ◌^◌, ◌%◌, refl,
}
use buxn_jit.Lir.{Cond, Place, equal, not_equal, reg, imm, ret, call, set_label, r_mem_base}
use buxn_jit.Jit.{LinkType, link_to_head}
use buxn_jit.Jit.Potential.{request_link-Grows}
use buxn_jit.Ctx.{
  Operand, Ctx, M, ◌>>=◌, ◌>>◌, pure, get, emit, fresh_id, has, sem_imm_jmp, modify, skip,
}
use buxn_jit.Micro.Stack.{
  push_ex, pop_ex, push_operand, pop_operand, track_push, set_effective_ptr, flag_2, flag_r,
}
use buxn_jit.Micro.Memory.{load, store, load_state, save_state, wrap_around}
use buxn_jit.Jump.{jump_const, call_const, jump_abs, link, land_here, emit_cmp, emit_jump}
use buxn_jit.Flow.Keeps.{Keeps, Keeps-modify}
use buxn_jit.Flow.Steady.{Steady, Steady-IsPreorder, Steady-made, Steady-bind, steady_rules}
use buxn_jit.Flow.Caches.{set_mem_base-Steady, push_cell-Steady}
use buxn_jit.Flow.Sweeps.{pop-Steady}

pub flag_2-Steady : Keeps Steady flag_2
flag_2-Steady = record { at = λ ctx a ctx' e. rw (same ctx ctx' a e) (Steady-IsPreorder.same ctx') }
  where
    same : (ctx ctx' : Ctx) (a : Bool) → flag_2 ctx ≡ some (a, ctx') → ctx ≡ ctx'
    same ctx ctx' a e = cc

pub flag_r-Steady : Keeps Steady flag_r
flag_r-Steady = record { at = λ ctx a ctx' e. rw (same ctx ctx' a e) (Steady-IsPreorder.same ctx') }
  where
    same : (ctx ctx' : Ctx) (a : Bool) → flag_r ctx ≡ some (a, ctx') → ctx ≡ ctx'
    same ctx ctx' a e = cc

track_push-Steady :
    (operand : Operand) (side : Bool) → Keeps Steady (modify (track_push operand side))
track_push-Steady operand true = search steady_rules
track_push-Steady operand false = search steady_rules

pub push_ex-Steady : (operand : Operand) (flag_r : Bool) → Keeps Steady (push_ex operand flag_r)
unfolding push_ex
push_ex-Steady operand flag_r =
    search (track_push-Steady, push_cell-Steady, steady_rules) depth 40 fits 5000

pub push_operand-Steady : (operand : Operand) → Keeps Steady (push_operand operand)
unfolding push_operand
push_operand-Steady operand =
    search (push_ex-Steady, flag_r-Steady, steady_rules) depth 40 fits 5000

set_effective_ptr-Steady :
    (side : Bool) (n : ℕ) (shadow : Option (ℕ × ℕ)) (ctx : Ctx)
    → Steady ctx (set_effective_ptr side n shadow ctx)
set_effective_ptr-Steady true n none ctx = Steady-made ctx _ refl refl refl refl
set_effective_ptr-Steady false n none ctx = Steady-made ctx _ refl refl refl refl
set_effective_ptr-Steady true n (some (w, r)) ctx = Steady-made ctx _ refl refl refl refl
set_effective_ptr-Steady false n (some (w, r)) ctx = Steady-made ctx _ refl refl refl refl

move_ptr-Steady :
    (side : Bool) (n : ℕ) (shadow : Option (ℕ × ℕ))
    → Keeps Steady (modify (set_effective_ptr side n shadow))
move_ptr-Steady side n shadow =
    Keeps-modify Steady-IsPreorder _ (set_effective_ptr-Steady side n shadow)

pub pop_ex-Steady : (two side : Bool) → Keeps Steady (pop_ex two side)
unfolding pop_ex
pop_ex-Steady two side = search (move_ptr-Steady, pop-Steady, steady_rules) depth 40 fits 5000

pub pop_operand-Steady : Keeps Steady pop_operand
unfolding pop_operand
pop_operand-Steady =
    search (pop_ex-Steady, flag_2-Steady, flag_r-Steady, steady_rules) depth 40 fits 5000

pub load-Steady : (dst : ℕ) (addr : Operand) → Keeps Steady (load dst addr)
unfolding load
load-Steady dst addr = search (set_mem_base-Steady, flag_2-Steady, steady_rules) depth 40 fits 5000

pub store-Steady : (addr val : Operand) → Keeps Steady (store addr val)
unfolding store
store-Steady addr val = search (set_mem_base-Steady, steady_rules) depth 40 fits 5000

pub load_state-Steady : Keeps Steady load_state
unfolding load_state
load_state-Steady = search steady_rules depth 40 fits 5000

pub save_state-Steady : Keeps Steady save_state
unfolding save_state
save_state-Steady = search steady_rules depth 40 fits 5000

pub wrap_around-Steady : (operand : Operand) → Keeps Steady (wrap_around operand)
unfolding wrap_around
wrap_around-Steady operand = search (flag_2-Steady, steady_rules) depth 40 fits 5000

pub link-Steady : (type : LinkType) (target j : ℕ) → Keeps Steady (link type target j)
link-Steady type target j = Keeps-modify Steady-IsPreorder _ λ ctx. record {
  pc = refl;
  image = refl;
  compiler = refl;
  jit = request_link-Grows ctx.jit type (target % 2 ^ 16) ctx.compiler j (omega arith);
}

pub land_here-Steady : (j : ℕ) → Keeps Steady (land_here j)
land_here-Steady j = search steady_rules depth 40 fits 5000

pub emit_cmp-Steady :
    (cond : Cond) (rewritable : Bool) (a b : Place) → Keeps Steady (emit_cmp cond rewritable a b)
emit_cmp-Steady cond rewritable a b = search steady_rules depth 40 fits 5000

pub emit_jump-Steady : (cond : Cond) (rewritable : Bool) → Keeps Steady (emit_jump cond rewritable)
emit_jump-Steady cond rewritable = search steady_rules depth 40 fits 5000

pub jump_const-Steady : (target : Operand) → Keeps Steady (jump_const target)
unfolding jump_const
jump_const-Steady target = search (link-Steady, steady_rules) depth 40 fits 5000

returned-Steady :
    (skip_call : Option ℕ) (target : Operand) (return_addr : ℕ)
    → Keeps Steady (do
      modify λ ctx. record ctx { mem_base = none }
      c ← fresh_id
      emit (call true c)
      ctx ← get
      emit (set_label c ctx.call_fallback)
      exit ← emit_cmp equal false (reg r_mem_base) (imm return_addr)
      emit (ret (reg r_mem_base))
      elim skip_call [ none ↦ skip | some j ↦ land_here j ]
      link link_to_head target.const_value c
      pure exit)
returned-Steady none target return_addr = search (link-Steady, steady_rules) depth 40 fits 5000
returned-Steady (some j) target return_addr = search (link-Steady, steady_rules) depth 40 fits 5000

abbrev test_target : Operand → M (Option ℕ)
test_target target =
    if has target.semantics sem_imm_jmp
    then pure none
    else (do j ← emit_cmp not_equal false (reg target.reg) (imm target.const_value); pure (some j))

test_target-Steady : (target : Operand) → Keeps Steady (test_target target)
test_target-Steady target = search steady_rules depth 40 fits 5000

pub call_const-Steady :
    (target : Operand) (return_addr : ℕ) → Keeps Steady (call_const target return_addr)
unfolding call_const
call_const-Steady target return_addr =
    Steady-bind (test_target target) _ (test_target-Steady target)
      λ skip_call. returned-Steady skip_call target return_addr

pub jump_abs-Steady :
    (target : Operand) (return_addr : ℕ) → Keeps Steady (jump_abs target return_addr)
unfolding jump_abs
jump_abs-Steady target return_addr =
    search (jump_const-Steady, call_const-Steady, steady_rules) depth 40 fits 5000
