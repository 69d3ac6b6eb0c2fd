-- ===== src/Flow/Agree.antt =====
-- src/jit.c: jumps and calls compile what they compile inside them where they stand, so that two ways to
-- do that which agree there cannot be told apart.
use buxn_jit.Prelude.{
  ℕ, ◌+◌, ◌^◌, ◌%◌, ◌≡◌, refl, ◌∙◌, ap, Bool, true, false, Option, none, some, not, if◌then◌else◌,
}
use buxn_jit.Lir.{reg, imm, not_equal, op1, op2, op2u, mov_s8, mov_u16, add, and_z, is_zero}
use buxn_jit.Ctx.{Ctx, Operand, M, ◌>>=◌, ◌>>◌, get, modify, emit, when, has, sem_boolean}
use buxn_jit.Cache.Sweep.{clear_stack_caches}
use buxn_jit.Cache.Spill.{alloc_reg}
use buxn_jit.Micro.Stack.{flag_r, pop_ex, pop_operand, push_ex}
use buxn_jit.Micro.Memory.{immediate_jump_target}
use buxn_jit.Jump.{
  jump, conditional_jump, jump_abs, relative, finalize, land_here, emit_cmp, emit_jump,
}
use buxn_jit.Opcodes.Control.{jit_jmp, jit_jcn, call_target, jit_jsr, jit_jci, jit_jmi, jit_jsi}
use buxn_jit.Flow.Keeps.{Keeps}
use buxn_jit.Flow.Steady.{Steady, Steady-get, Steady-emit}
use buxn_jit.Flow.Caches.{alloc_reg-Steady}
use buxn_jit.Flow.Sweeps.{clear_stack_caches-Steady}
use buxn_jit.Flow.Micro.{
  flag_r-Steady, push_ex-Steady, pop_ex-Steady, pop_operand-Steady, emit_cmp-Steady,
  emit_jump-Steady,
}
use buxn_jit.Flow.Progress.{Advances, immediate_jump_target-Advances}

-- Two functions that cannot be told apart where the place in the block is `q`
pub record AgreeAt {A : Type 0} (q : ℕ) (f g : M A) : Type 0 where
  pub at : (ctx : Ctx) → ctx.pc ≡ q → f ctx ≡ g ctx

pub bind_same :
    {A B : Type 0} (r : Option (A × Ctx)) (g g' : A → M B)
    → ((a : A) (c : Ctx) → r ≡ some (a, c) → g a c ≡ g' a c)
    → ◌≡◌ {A = Option (B × Ctx)}
        (elim r [ none ↦ none | some (a, c) ↦ g a c ])
        (elim r [ none ↦ none | some (a, c) ↦ g' a c ])
bind_same none g g' h = refl
bind_same (some (a, c)) g g' h = h a c refl

module _ {A : Type 0} (q : ℕ) where
  pub same : (f : M A) → AgreeAt q f f
  same f = record { at = λ ctx e. refl }

  choose :
      (b : Bool) (f f' g g' : M A)
      → AgreeAt q f f'
      → AgreeAt q g g'
      → AgreeAt q (if b then f else g) (if b then f' else g')
  choose true f f' g g' af ag = af
  choose false f f' g g' af ag = ag

module _ {A B : Type 0} (q : ℕ) where
  -- A difference in the first part
  first : (f f' : M A) (g : A → M B) → AgreeAt q f f' → AgreeAt q (f >>= g) (f' >>= g)
  first f f' g h = record { at = λ ctx e. ap (λ r. ◌>>=◌ (λ c. r) g ctx) (h.at ctx e) }

  -- And in the rest, after a part that does not move
  pub rest :
      (f : M A) (g g' : A → M B)
      → Keeps Steady f
      → ((a : A) → AgreeAt q (g a) (g' a))
      → AgreeAt q (f >>= g) (f >>= g')
  rest f g g' k h = record {
    at = λ ctx e. bind_same (f ctx) g g' λ a c r. (h a).at c ((k.at ctx a c r).pc ∙ e);
  }

  -- Or after an immediate of `k` bytes
  pub rest_moved :
      (k : ℕ) (f : M A) (g g' : A → M B)
      → Keeps (Advances k) f
      → ((a : A) → AgreeAt ((q + k) % 2 ^ 16) (g a) (g' a))
      → AgreeAt q (f >>= g) (f >>= g')
  rest_moved k f g g' m h = record {
    at = λ ctx e.
        bind_same (f ctx) g g'
          λ a c r. (h a).at c ((m.at ctx a c r).pc ∙ ap (λ p. (p + k) % 2 ^ 16) e);
  }

-- What `buxn_jit_jump` does after the opcode that a boolean target skips
abbrev resume : Ctx → ℕ → M (Unit {0})
resume before j = do
  modify λ ctx. record ctx { finalized = before.finalized }
  clear_stack_caches
  land_here j

-- And for a target that is relative
abbrev jump_relative : Operand → ℕ → M (Unit {0})
jump_relative target return_addr = do
  emit (op1 mov_s8 (reg target.reg) (reg target.reg))
  ctx ← get
  emit (op2 add target.reg (reg target.reg) (imm ctx.pc))
  jump_abs (record target { const_value = relative ctx.pc target.const_value }) return_addr

module _ (q : ℕ) (next next' : M (Unit {0})) (h : AgreeAt q next next') where
  jump-AgreeAt :
      (target : Operand) (return_addr : ℕ)
      → AgreeAt q (jump next target return_addr) (jump next' target return_addr)
  unfolding jump
  jump-AgreeAt target return_addr = rest q clear_stack_caches _ _ clear_stack_caches-Steady λ _.
      choose q target.is_short _ _ _ _ (same q (jump_abs target return_addr)) (
        choose q (has target.semantics sem_boolean) _ _ _ _
          (rest q get _ _ Steady-get λ before.
            rest q (emit_cmp not_equal false (reg target.reg) (imm 0)) _ _ (emit_cmp-Steady _ _ _ _)
              λ j. first q next next' (λ _. resume before j) h)
          (same q (jump_relative target return_addr)))

  conditional_jump-AgreeAt :
      (condition target : Operand)
      → AgreeAt q (conditional_jump next condition target) (conditional_jump next' condition target)
  unfolding conditional_jump
  conditional_jump-AgreeAt condition target =
      rest q clear_stack_caches _ _ clear_stack_caches-Steady λ _.
        rest q (emit (op2u and_z (reg condition.reg) (imm 0xff))) _ _ (Steady-emit _) λ _.
          rest q (emit_jump is_zero false) _ _ (emit_jump-Steady is_zero false) λ j.
            first q (jump next target 0) (jump next' target 0) (λ _. land_here j)
              (jump-AgreeAt target 0)

  pub jit_jmp-AgreeAt : AgreeAt q (jit_jmp next) (jit_jmp next')
  unfolding jit_jmp
  jit_jmp-AgreeAt = rest q pop_operand _ _ pop_operand-Steady λ target.
      first q (jump next target 0) (jump next' target 0)
        (λ _. when (not (has target.semantics sem_boolean)) finalize) (jump-AgreeAt target 0)

  pub jit_jcn-AgreeAt : AgreeAt q (jit_jcn next) (jit_jcn next')
  unfolding jit_jcn
  jit_jcn-AgreeAt = rest q pop_operand _ _ pop_operand-Steady λ target.
      rest q flag_r _ _ flag_r-Steady λ side.
        rest q (pop_ex false side) _ _ (pop_ex-Steady false side)
          λ condition. conditional_jump-AgreeAt condition target

  abbrev return_to : ℕ → Operand
  return_to r = record { semantics = 0; is_short = true; const_value = 0; reg = r }

  call_target-AgreeAt :
      (target : Operand) (side : Bool)
      → AgreeAt q (call_target next target side) (call_target next' target side)
  unfolding call_target
  call_target-AgreeAt target side = rest q alloc_reg _ _ alloc_reg-Steady λ r.
      rest q get _ _ Steady-get λ ctx.
        rest q (emit (op1 mov_u16 (reg r) (imm ctx.pc))) _ _ (Steady-emit _) λ _.
          rest q (push_ex (return_to r) side) _ _ (push_ex-Steady _ side)
            λ _. jump-AgreeAt target ctx.pc

  pub jit_jsr-AgreeAt : AgreeAt q (jit_jsr next) (jit_jsr next')
  unfolding jit_jsr
  jit_jsr-AgreeAt =
      rest q pop_operand _ _ pop_operand-Steady
        λ target. rest q flag_r _ _ flag_r-Steady λ side. call_target-AgreeAt target (not side)

module _ (q : ℕ) (next next' : M (Unit {0})) (h : AgreeAt ((q + 2) % 2 ^ 16) next next') where
  pub jit_jci-AgreeAt : AgreeAt q (jit_jci next) (jit_jci next')
  unfolding jit_jci
  jit_jci-AgreeAt = rest q (pop_ex false false) _ _ (pop_ex-Steady false false) λ condition.
      rest_moved q 2 immediate_jump_target _ _ immediate_jump_target-Advances
        λ target. conditional_jump-AgreeAt ((q + 2) % 2 ^ 16) next next' h condition target

  pub jit_jmi-AgreeAt : AgreeAt q (jit_jmi next) (jit_jmi next')
  unfolding jit_jmi
  jit_jmi-AgreeAt =
      rest_moved q 2 immediate_jump_target _ _ immediate_jump_target-Advances λ target.
        first ((q + 2) % 2 ^ 16) (jump next target 0) (jump next' target 0) (λ _. finalize)
          (jump-AgreeAt ((q + 2) % 2 ^ 16) next next' h target 0)

  pub jit_jsi-AgreeAt : AgreeAt q (jit_jsi next) (jit_jsi next')
  unfolding jit_jsi
  jit_jsi-AgreeAt =
      rest_moved q 2 immediate_jump_target _ _ immediate_jump_target-Advances
        λ target. call_target-AgreeAt ((q + 2) % 2 ^ 16) next next' h target true
