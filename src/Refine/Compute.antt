-- ===== src/Refine/Compute.antt =====
-- A result computed into a register that nothing refers to, and pushed.
use buxn_jit.Prelude.{
  ℕ, ◌-◌, ◌≤◌, ◌≡◌, ◌≢◌, refl, ◌∙◌, Bool, true, false, Option, none, some, List, arith,
}
use buxn_jit.Lir.{Field, Instr, r_op_min, r_op_max, r_mem_base, r_tmp, s_vm}
use buxn_jit.Ctx.{Cache, Ctx, saved_ptr_reg, stack_field}
use buxn_jit.Machine.{Machine}
use buxn_jit.Refine.Item.{at, BaseIs}
use buxn_jit.Refine.Cached.{refs}
use buxn_jit.Refine.Holds.{Holds, Fresh, saved_ptr-gt_op}
use buxn_jit.Refine.Inv.{Inv}
use buxn_jit.Refine.Fetch.{refs-zero, Holds-kept}
use buxn_jit.Refine.Side.{Quiet}

module _ (m : Machine) (s0 : m.State) where
  open m use {State, reg_of, cell}

  -- More calls, which change one operand register and scratch registers only
  pub record Wrote (new : ℕ) (s s' : State) : Type 0 where
    pub regs : (x : ℕ) → x ≢ new → x ≢ r_tmp → reg_of s' x ≡ reg_of s x
    pub cells : (f : Field) (j : ℕ) → cell s' f j ≡ cell s f j

  pub base_kept :
      (base : Option Field) (s s' : State)
      → reg_of s' r_mem_base ≡ reg_of s r_mem_base
      → BaseIs m s0 base s
      → BaseIs m s0 base s'
  base_kept none s s' e b = tt
  base_kept (some f) s s' e b = e ∙ b

  abbrev pub with_code : List Instr → Ctx → Ctx
  with_code code ctx = record ctx { code = code }

  Wrote-Holds :
      (side : Bool) (new : ℕ) (s s' : State) (cache : Cache) (l : List ℕ)
      → r_op_min ≤ new
      → new ≤ r_op_max
      → Fresh cache
      → refs cache.cells cache.len (new - r_op_min) ≡ 0
      → Wrote new s s'
      → Holds m side s cache l
      → Holds m side s' cache l
  Wrote-Holds side new s s' cache l lo hi f unused w h =
      Holds-kept m side s s' cache l
        (λ i p.
          w.regs (cache.cells i).value.reg
            (omega (arith, f.lo i p, refs-zero cache.cells cache.len (new - r_op_min) i unused p))
            (omega (arith, f.lo i p)))
        (w.regs (saved_ptr_reg side) (omega (arith, saved_ptr-gt_op side))
          (omega (arith, saved_ptr-gt_op side)))
        (λ j. w.cells (stack_field side) j) h

  pub Wrote-Inv :
      (held : ℕ → ℕ) (new : ℕ) (ctx : Ctx) (code : List Instr) (w r : List ℕ)
      → r_op_min ≤ new
      → new ≤ r_op_max
      → (refs ctx.wst_cache.cells ctx.wst_cache.len (new - r_op_min) ≡ 0)
      → (refs ctx.rst_cache.cells ctx.rst_cache.len (new - r_op_min) ≡ 0)
      → Wrote new (at m s0 ctx) (at m s0 (with_code code ctx))
      → Inv m s0 held ctx w r
      → Inv m s0 held (with_code code ctx) w r
  Wrote-Inv held new ctx code w r lo hi no_w no_r k v =
      let s = at m s0 ctx in
      let s' = at m s0 (with_code code ctx) in
      record {
        anchored = record {
          vm = k.regs s_vm (omega arith) (omega arith) ∙ v.anchored.vm;
          base =
              base_kept ctx.mem_base s s' (k.regs r_mem_base (omega arith) (omega arith))
                v.anchored.base;
        };
        wst = Wrote-Holds false new s s' ctx.wst_cache w lo hi v.wst_fresh no_w k v.wst;
        rst = Wrote-Holds true new s s' ctx.rst_cache r lo hi v.rst_fresh no_r k v.rst;
        wst_fresh = v.wst_fresh;
        rst_fresh = v.rst_fresh;
        counted = v.counted;
        wst_bound = v.wst_bound;
        rst_bound = v.rst_bound;
      }

  pub Wrote-Quiet :
      (new : ℕ) (ctx : Ctx) (code : List Instr)
      → Wrote new (at m s0 ctx) (at m s0 (with_code code ctx))
      → Quiet m s0 ctx (with_code code ctx)
  Wrote-Quiet new ctx code k = record {
    mode = record { pc = refl; opcode = refl; shadow = refl; wsp_reg = refl; rsp_reg = refl };
    others = λ f j p q. k.cells f j;
  }
