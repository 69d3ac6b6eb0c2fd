-- ===== src/Refine/Inv.antt =====
-- Between opcodes, and inside one that does not keep: both stacks of the VM are held by their caches
-- and memory together, and the reference counts are exact.
use buxn_jit.Prelude.{
  ℕ, suc, ◌+◌, ◌-◌, ◌<◌, ◌≤◌, ◌≡◌, ◌≢◌, refl, ◌∙◌, Bool, true, false, some, List, arith, length,
}
use buxn_jit.Lir.{Field, ws, rs, same_field, r_op_min, r_op_max}
use buxn_jit.Ctx.{Cache, Ctx, cache_of}
use buxn_jit.Cache.Spill.{spill}
use buxn_jit.Machine.{Machine}
use buxn_jit.Refine.Shape.{Flat, Shaped}
use buxn_jit.Refine.Item.{at, Anchored}
use buxn_jit.Refine.Written.{stored-Written}
use buxn_jit.Refine.Cached.{refs}
use buxn_jit.Refine.Spill.{spilled, spilled_cache, spill-run}
use buxn_jit.Refine.Holds.{
  spilled_cell, Fresh, spilled-Fresh, refs-spilled, Holds, spilled-Holds, other-Holds,
}

-- A count is the number of cells in the register, and of the operands that an opcode holds in it.
abbrev pub Counted : (ℕ → ℕ) → Ctx → Type 0
Counted held ctx =
    (x : ℕ)
    → ctx.reg_ref_counts x
      ≡ refs ctx.wst_cache.cells ctx.wst_cache.len x
        + refs ctx.rst_cache.cells ctx.rst_cache.len x
        + held x

-- The parts of a context that the stack caches do not touch
pub record SameMode (ctx ctx' : Ctx) : Type 0 where
  pub pc : ctx'.pc ≡ ctx.pc
  pub opcode : ctx'.current_opcode ≡ ctx.current_opcode
  pub shadow : ctx'.shadow ≡ ctx.shadow
  pub wsp_reg : ctx'.wsp_reg ≡ ctx.wsp_reg
  pub rsp_reg : ctx'.rsp_reg ≡ ctx.rsp_reg

pub SameMode-refl : (ctx : Ctx) → SameMode ctx ctx
SameMode-refl ctx = ground arith

pub SameMode-trans : (a b c : Ctx) → SameMode a b → SameMode b c → SameMode a c
SameMode-trans a b c p q = ground arith

spilled-Flat : (cache : Cache) (two : Bool) → Flat two cache → Flat two (spilled_cache cache)
spilled-Flat cache two f i p = rw (spilled_cell cache i p) (f (suc i) (omega arith))

spilled-Shaped : (flag_r side two : Bool) (ctx : Ctx) → Shaped side two ctx (spilled flag_r ctx)
spilled-Shaped true true two ctx = record {
  flat = spilled-Flat ctx.rst_cache two;
  other = omega arith;
}
spilled-Shaped true false two ctx = record { flat = λ f. f; other = omega arith }
spilled-Shaped false true two ctx = record { flat = λ f. f; other = omega arith }
spilled-Shaped false false two ctx = record {
  flat = spilled-Flat ctx.wst_cache two;
  other = omega arith;
}

module _ (m : Machine) (s0 : m.State) where
  open m use {State, reg_of, cell}

  -- `w` and `r` are the working and the return stack, the top byte first.
  pub record Inv (held : ℕ → ℕ) (ctx : Ctx) (w r : List ℕ) : Type 0 where
    pub anchored : Anchored m s0 ctx
    pub wst : Holds m false (at m s0 ctx) ctx.wst_cache w
    pub rst : Holds m true (at m s0 ctx) ctx.rst_cache r
    pub wst_fresh : Fresh ctx.wst_cache
    pub rst_fresh : Fresh ctx.rst_cache
    pub counted : Counted held ctx
    pub wst_bound : length w ≤ 256
    pub rst_bound : length r ≤ 256

  -- What stays: the operand registers, and the VM apart from its stacks.
  pub record Frame (ctx ctx' : Ctx) : Type 0 where
    pub mode : SameMode ctx ctx'
    pub regs :
        (x : ℕ) → r_op_min ≤ x → x ≤ r_op_max → reg_of (at m s0 ctx') x ≡ reg_of (at m s0 ctx) x
    pub others :
        (f : Field) (j : ℕ)
        → same_field ws f ≡ false
        → same_field rs f ≡ false
        → cell (at m s0 ctx') f j ≡ cell (at m s0 ctx) f j

  pub Frame-refl : (ctx : Ctx) → Frame ctx ctx
  Frame-refl ctx = record {
    mode = SameMode-refl ctx;
    regs = λ x lo hi. refl;
    others = λ f j h k. refl;
  }

  pub Frame-trans : (a b c : Ctx) → Frame a b → Frame b c → Frame a c
  Frame-trans a b c p q = record {
    mode = SameMode-trans a b c p.mode q.mode;
    regs = λ x lo hi. q.regs x lo hi ∙ p.regs x lo hi;
    others = λ f j h k. q.others f j h k ∙ p.others f j h k;
  }

  -- No call on the compiler, no effect
  pub Frame-caches :
      (a b : Ctx) (wst_cache rst_cache : Cache) (counts : ℕ → ℕ)
      → Frame a b
      → Frame a (record b { wst_cache = wst_cache; rst_cache = rst_cache; reg_ref_counts = counts })
  Frame-caches a b wst_cache rst_cache counts p = record {
    mode = record {
      pc = p.mode.pc;
      opcode = p.mode.opcode;
      shadow = p.mode.shadow;
      wsp_reg = p.mode.wsp_reg;
      rsp_reg = p.mode.rsp_reg;
    };
    regs = p.regs;
    others = p.others;
  }

  -- One cell fewer, and nothing lost
  pub record Spilled (flag_r : Bool) (held : ℕ → ℕ) (ctx : Ctx) (w r : List ℕ) (ctx' : Ctx)
      : Type 0 where
    pub inv : Inv held ctx' w r
    pub frame : Frame ctx ctx'
    pub fewer : ctx'.wst_cache.len + ctx'.rst_cache.len + 1 ≡ ctx.wst_cache.len + ctx.rst_cache.len
    pub own : (cache_of flag_r ctx').len + 1 ≡ (cache_of flag_r ctx).len
    pub shape : (side two : Bool) → Shaped side two ctx ctx'

  cache_of-Fresh :
      (flag_r : Bool) (held : ℕ → ℕ) (ctx : Ctx) (w r : List ℕ)
      → Inv held ctx w r
      → Fresh (cache_of flag_r ctx)
  cache_of-Fresh true held ctx w r v = v.rst_fresh
  cache_of-Fresh false held ctx w r v = v.wst_fresh

  Counted-pos :
      (flag_r : Bool) (held : ℕ → ℕ) (ctx : Ctx)
      → Counted held ctx
      → (cache_of flag_r ctx).len ≢ 0
      → 0 < ctx.reg_ref_counts (((cache_of flag_r ctx).cells 0).value.reg - r_op_min)
  Counted-pos true held ctx c h =
      let x = (ctx.rst_cache.cells 0).value.reg - r_op_min in
      ground (arith, c x, refs-spilled ctx.rst_cache x h)
  Counted-pos false held ctx c h =
      let x = (ctx.wst_cache.cells 0).value.reg - r_op_min in
      ground (arith, c x, refs-spilled ctx.wst_cache x h)

  spilled-Spilled :
      (flag_r : Bool) (held : ℕ → ℕ) (ctx : Ctx) (w r : List ℕ)
      → Inv held ctx w r
      → (cache_of flag_r ctx).len ≢ 0
      → Spilled flag_r held ctx w r (spilled flag_r ctx)
  spilled-Spilled false held ctx w r v ne =
      let bottom = (ctx.wst_cache.cells 0).value in
      let lo = v.wst_fresh.lo 0 (omega arith) in
      let hi = v.wst_fresh.hi 0 (omega arith) in
      let k = stored-Written m s0 false bottom ctx v.anchored (omega arith) (omega arith) in
      record {
        inv = record {
          anchored = record { vm = k.anchored.vm; base = k.anchored.base };
          wst = spilled-Holds m s0 false ctx w v.wst_fresh ne v.wst_bound k v.wst;
          rst =
              other-Holds m s0 false ctx r true ctx.rst_cache bottom (omega arith) refl v.rst_fresh
                k v.rst;
          wst_fresh = spilled-Fresh ctx.wst_cache v.wst_fresh;
          rst_fresh = v.rst_fresh;
          counted = λ x. ground (arith, v.counted x, refs-spilled ctx.wst_cache x ne);
          wst_bound = v.wst_bound;
          rst_bound = v.rst_bound;
        };
        frame = record {
          mode = ground arith;
          regs = λ x l h. k.regs x (omega arith) (omega arith);
          others = λ f j h _. k.others f j h;
        };
        fewer = omega arith;
        own = omega arith;
        shape = λ side two. spilled-Shaped false side two ctx;
      }
  spilled-Spilled true held ctx w r v ne =
      let bottom = (ctx.rst_cache.cells 0).value in
      let lo = v.rst_fresh.lo 0 (omega arith) in
      let hi = v.rst_fresh.hi 0 (omega arith) in
      let k = stored-Written m s0 true bottom ctx v.anchored (omega arith) (omega arith) in
      record {
        inv = record {
          anchored = record { vm = k.anchored.vm; base = k.anchored.base };
          wst =
              other-Holds m s0 true ctx w false ctx.wst_cache bottom (omega arith) refl v.wst_fresh
                k v.wst;
          rst = spilled-Holds m s0 true ctx r v.rst_fresh ne v.rst_bound k v.rst;
          wst_fresh = v.wst_fresh;
          rst_fresh = spilled-Fresh ctx.rst_cache v.rst_fresh;
          counted = λ x. ground (arith, v.counted x, refs-spilled ctx.rst_cache x ne);
          wst_bound = v.wst_bound;
          rst_bound = v.rst_bound;
        };
        frame = record {
          mode = ground arith;
          regs = λ x l h. k.regs x (omega arith) (omega arith);
          others = λ f j _ h. k.others f j h;
        };
        fewer = omega arith;
        own = omega arith;
        shape = λ side two. spilled-Shaped true side two ctx;
      }

  -- Under the invariant, a spill of a cache that is not empty succeeds: the cache has one cell
  -- fewer, both stacks keep their contents, and the operand registers and the rest of the VM stay.
  pub spill-Spilled :
      (flag_r : Bool) (held : ℕ → ℕ) (ctx : Ctx) (w r : List ℕ)
      → Inv held ctx w r
      → (cache_of flag_r ctx).len ≢ 0
      → (spill flag_r ctx ≡ some (true, spilled flag_r ctx))
        × Spilled flag_r held ctx w r (spilled flag_r ctx)
  spill-Spilled flag_r held ctx w r v ne =
      let f = cache_of-Fresh flag_r held ctx w r v in
      (
        spill-run flag_r ctx ne (f.dirty 0 (omega arith)) (f.lo 0 (omega arith))
            (f.hi 0 (omega arith)) (Counted-pos flag_r held ctx v.counted ne),
        spilled-Spilled flag_r held ctx w r v ne,
      )
