-- ===== src/Flow/Forward.antt =====
-- src/jit.c: jumps, calls and `buxn_jit_next_opcode` only move on in the block, whatever is compiled
-- inside them.
use buxn_jit.Prelude.{ℕ, ◌+◌, ◌^◌, ◌%◌, ◌≡◌, ◌∙◌, Bool, true, false, if◌then◌else◌}
use buxn_jit.Jit.Potential.{Grows, Grows-trans}
use buxn_jit.Ctx.{Operand, Ctx, M, ◌>>=◌, ◌>>◌, get, modify, emit, has, sem_boolean}
use buxn_jit.Lir.{imm, reg, op1, op2, mov_s8, add, not_equal}
use buxn_jit.Cache.Sweep.{clear_stack_caches}
use buxn_jit.Micro.Stack.{flag_2, pop_ex, size}
use buxn_jit.Micro.Memory.{immediate, immediate_jump_target}
use buxn_jit.Jump.{jump_abs, emit_cmp, land_here, relative, jump, conditional_jump, finalize}
use buxn_jit.Opcodes.Memory.{jit_lit}
use buxn_jit.Opcodes.Control.{jit_jmp, jit_jcn, call_target, jit_jsr, jit_jci, jit_jmi, jit_jsi}
use buxn_jit.Flow.Keeps.{Keeps, Keeps-mono, Keeps-then, Keeps-if, Keeps-compose}
use buxn_jit.Flow.Steady.{Steady, steady_rules}
use buxn_jit.Flow.Caches.{alloc_reg-Steady}
use buxn_jit.Flow.Sweeps.{clear_stack_caches-Steady}
use buxn_jit.Flow.Micro.{
  flag_r-Steady, flag_2-Steady, push_ex-Steady, pop_ex-Steady, pop_operand-Steady,
  push_operand-Steady, jump_abs-Steady, emit_cmp-Steady, emit_jump-Steady, land_here-Steady,
}
use buxn_jit.Flow.Progress.{
  Within, Stays, Stays-IsPreorder, Steady-Stays, Stays-bind, Advances, immediate-Advances,
  immediate_jump_target-Advances,
}

finalize-Steady : Keeps Steady finalize
finalize-Steady = search steady_rules

ruleset jump_steady = (
  Steady-Stays, clear_stack_caches-Steady, jump_abs-Steady, emit_cmp-Steady, emit_jump-Steady,
  land_here-Steady, pop_operand-Steady, pop_ex-Steady, push_ex-Steady, flag_r-Steady,
  alloc_reg-Steady, finalize-Steady, steady_rules,
)

module _ (n : ℕ) where
  Stays-if :
      (b : Bool) (f g : M (Unit {0}))
      → Keeps (Stays n) f
      → Keeps (Stays n) g
      → Keeps (Stays n) (if b then f else g)
  Stays-if = Keeps-if (Stays-IsPreorder n)

  Stays-then :
      (f g : M (Unit {0})) → Keeps (Stays n) f → Keeps (Stays n) g → Keeps (Stays n) (f >> g)
  Stays-then = Keeps-then (Stays-IsPreorder n)

module _ (n : ℕ) (next : M (Unit {0})) (ih : Keeps (Stays n) next) where
  resumed-Stays :
      (before : Ctx) (j : ℕ)
      → Keeps (Stays n) (do
        modify λ ctx. record ctx { finalized = before.finalized }
        clear_stack_caches
        land_here j)
  resumed-Stays before j = search jump_steady depth 40 fits 5000

  -- The branch of a boolean target: the next opcode is compiled in between.
  over_next-Stays :
      (target : Operand)
      → Keeps (Stays n) (do
        before ← get
        j ← emit_cmp not_equal false (reg target.reg) (imm 0)
        next
        modify λ ctx. record ctx { finalized = before.finalized }
        clear_stack_caches
        land_here j)
  over_next-Stays target = Stays-bind n get _ (search jump_steady) λ before.
      Stays-bind n (emit_cmp not_equal false (reg target.reg) (imm 0)) _ (search jump_steady)
        λ j. Stays-then n next _ ih (resumed-Stays before j)

  -- That of a relative target
  relative-Stays :
      (target : Operand) (return_addr : ℕ)
      → Keeps (Stays n) (do
        emit (op1 mov_s8 (reg target.reg) (reg target.reg))
        ctx ← get
        emit (op2 add target.reg (reg target.reg) (imm ctx.pc))
        jump_abs (record target { const_value = relative ctx.pc target.const_value }) return_addr)
  relative-Stays target return_addr = search jump_steady depth 40 fits 5000

  pub jump-Stays :
      (target : Operand) (return_addr : ℕ) → Keeps (Stays n) (jump next target return_addr)
  unfolding jump
  jump-Stays target return_addr = Stays-then n clear_stack_caches _ (search jump_steady) (
      Stays-if n target.is_short (jump_abs target return_addr) _ (search jump_steady) (
        Stays-if n (has target.semantics sem_boolean) _ _ (over_next-Stays target)
          (relative-Stays target return_addr)))

  pub conditional_jump-Stays :
      (condition target : Operand) → Keeps (Stays n) (conditional_jump next condition target)
  unfolding conditional_jump
  conditional_jump-Stays condition target =
      search (jump-Stays, Stays-bind n, Stays-then n, jump_steady) depth 40 fits 5000

  pub jit_jmp-Stays : Keeps (Stays n) (jit_jmp next)
  unfolding jit_jmp
  jit_jmp-Stays = search (jump-Stays, Stays-bind n, Stays-then n, jump_steady) depth 40 fits 5000

  pub jit_jcn-Stays : Keeps (Stays n) (jit_jcn next)
  unfolding jit_jcn
  jit_jcn-Stays = search (conditional_jump-Stays, Stays-bind n, jump_steady) depth 40 fits 5000

  pub call_target-Stays :
      (target : Operand) (side : Bool) → Keeps (Stays n) (call_target next target side)
  unfolding call_target
  call_target-Stays target side =
      search (jump-Stays, Stays-bind n, Stays-then n, jump_steady) depth 40 fits 5000

  pub jit_jsr-Stays : Keeps (Stays n) (jit_jsr next)
  unfolding jit_jsr
  jit_jsr-Stays = search (call_target-Stays, Stays-bind n, jump_steady) depth 40 fits 5000

-- An opcode that started at `q` ends within `n`.
pub record Leaves (n q : ℕ) (ctx ctx' : Ctx) : Type 0 where
  pub within : ctx.pc ≡ q → Within n ctx'.pc
  pub jit : Grows ctx.jit ctx'.jit

pub Stays-Leaves :
    {A : Type 0} (n q : ℕ) (f : M A) → Within n q → Keeps (Stays n) f → Keeps (Leaves n q) f
Stays-Leaves n q f w = Keeps-mono f λ a b s. record { within = λ e. s.within (rw e w); jit = s.jit }

Advances-Leaves :
    {A B : Type 0} (n q k : ℕ) (f : M A) (g : A → M B)
    → Within n ((q + k) % 2 ^ 16)
    → Keeps (Advances k) f
    → ((a : A) → Keeps (Stays n) (g a))
    → Keeps (Leaves n q) (f >>= g)
Advances-Leaves n q k f g w = Keeps-compose f g λ a b c m s. record {
  within = λ e. s.within (rw (m.pc) (rw e w));
  jit = Grows-trans a.jit b.jit c.jit m.jit s.jit;
}

Steady-Leaves :
    {A B : Type 0} (n q : ℕ) (f : M A) (g : A → M B)
    → Keeps Steady f
    → ((a : A) → Keeps (Leaves n q) (g a))
    → Keeps (Leaves n q) (f >>= g)
Steady-Leaves n q f g = Keeps-compose f g λ a b c s l. record {
  within = λ e. l.within (s.pc ∙ e);
  jit = Grows-trans a.jit b.jit c.jit s.jit l.jit;
}

-- What is known of the places that an opcode can reach whose second byte is at `q`
pub record Reach (n q : ℕ) : Type 0 where
  pub none_read : Within n q
  pub byte_read : Within n ((q + 1) % 2 ^ 16)
  pub short_read : Within n ((q + 2) % 2 ^ 16)

read-Within : (n q : ℕ) (is_short : Bool) → Reach n q → Within n ((q + size is_short) % 2 ^ 16)
read-Within n q true r = r.short_read
read-Within n q false r = r.byte_read

pub jit_lit-Leaves : (n q : ℕ) → Reach n q → Keeps (Leaves n q) jit_lit
unfolding jit_lit
jit_lit-Leaves n q r = Steady-Leaves n q flag_2 _ flag_2-Steady λ two.
    Advances-Leaves n q (size two) (immediate two) _ (read-Within n q two r)
      (immediate-Advances two) λ lit. Steady-Stays n _ (push_operand-Steady lit)

module _ (n q : ℕ) (r : Reach n q) (next : M (Unit {0})) (ih : Keeps (Stays n) next) where
  pub jit_jci-Leaves : Keeps (Leaves n q) (jit_jci next)
  unfolding jit_jci
  jit_jci-Leaves = Steady-Leaves n q (pop_ex false false) _ (pop_ex-Steady false false) λ condition.
      Advances-Leaves n q 2 immediate_jump_target _ r.short_read immediate_jump_target-Advances
        λ target. conditional_jump-Stays n next ih condition target

  pub jit_jmi-Leaves : Keeps (Leaves n q) (jit_jmi next)
  unfolding jit_jmi
  jit_jmi-Leaves =
      Advances-Leaves n q 2 immediate_jump_target _ r.short_read immediate_jump_target-Advances
        λ target.
          Stays-then n (jump next target 0) finalize (jump-Stays n next ih target 0)
            (search jump_steady)

  pub jit_jsi-Leaves : Keeps (Leaves n q) (jit_jsi next)
  unfolding jit_jsi
  jit_jsi-Leaves =
      Advances-Leaves n q 2 immediate_jump_target _ r.short_read immediate_jump_target-Advances
        λ target. call_target-Stays n next ih target true
