-- ===== src/Refine/Dropped.antt =====
-- `buxn_jit_stack_cache_discard` of a cached item.
use buxn_jit.Prelude.{
  ℕ, ◌-◌, ◌<◌, ◌≤◌, ◌≡◌, ◌≢◌, refl, sym, ◌∙◌, Bool, true, false, some, List, ◌++◌, arith, ◌==◌,
}
use mathlib.Core.Path.{subst}
use buxn_jit.Lir.{r_op_min, r_op_max}
use buxn_jit.Ctx.{Ctx, cache_of}
use buxn_jit.Regs.{release_reg}
use buxn_jit.Cache.Pop.{top_cell, discard, discard_byte}
use buxn_jit.Micro.Stack.{width}
use buxn_jit.Machine.{Machine}
use buxn_jit.Refine.Shape.{Shaped}
use buxn_jit.Refine.Ensures.{>>=-run}
use buxn_jit.Refine.Push.{item_bytes}
use buxn_jit.Refine.Item.{at}
use buxn_jit.Refine.Spill.{released, release_reg-run}
use buxn_jit.Refine.Inv.{Inv}
use buxn_jit.Refine.Alloc.{hold}
use buxn_jit.Refine.Pop.{taken, taken-Popped, shorter-Shaped}
use buxn_jit.Refine.Side.{Sides, Quiet}

-- The context after a cached item is discarded
abbrev pub dropped : Bool → Ctx → Ctx
dropped flag_r ctx = record (taken flag_r ctx) {
  reg_ref_counts = released (taken flag_r ctx).reg_ref_counts (top_cell flag_r ctx).value.reg;
}

pub discard-dropped :
    (flag_r two : Bool) (ctx : Ctx)
    → (cache_of flag_r ctx).len ≢ 0
    → (top_cell flag_r ctx).value.is_short ≡ two
    → r_op_min ≤ (top_cell flag_r ctx).value.reg
    → (top_cell flag_r ctx).value.reg ≤ r_op_max
    → 0 < (taken flag_r ctx).reg_ref_counts ((top_cell flag_r ctx).value.reg - r_op_min)
    → discard flag_r two ctx ≡ some (tt, dropped flag_r ctx)
unfolding discard discard_byte
discard-dropped true true ctx ne e lo hi pos =
    let more : (ctx.rst_cache.len == 0) ≡ false = ground arith in
    rw more (
      >>=-run (release_reg (top_cell true ctx).value.reg) _ (taken true ctx)
        (release_reg-run (top_cell true ctx).value.reg (taken true ctx) lo hi pos)
      ∙ rw e)
discard-dropped true false ctx ne e lo hi pos =
    let more : (ctx.rst_cache.len == 0) ≡ false = ground arith in
    rw (more, e) (release_reg-run (top_cell true ctx).value.reg (taken true ctx) lo hi pos)
discard-dropped false true ctx ne e lo hi pos =
    let more : (ctx.wst_cache.len == 0) ≡ false = ground arith in
    rw more (
      >>=-run (release_reg (top_cell false ctx).value.reg) _ (taken false ctx)
        (release_reg-run (top_cell false ctx).value.reg (taken false ctx) lo hi pos)
      ∙ rw e)
discard-dropped false false ctx ne e lo hi pos =
    let more : (ctx.wst_cache.len == 0) ≡ false = ground arith in
    rw (more, e) (release_reg-run (top_cell false ctx).value.reg (taken false ctx) lo hi pos)

module _ (m : Machine) (s0 : m.State) where
  open m use {State, reg_of, cell}

  -- What a discard leaves
  pub record Gone (flag_r two : Bool) (held : ℕ → ℕ) (ctx : Ctx) (l o : List ℕ) (ctx' : Ctx)
      : Type 0 where
    pub v : ℕ
    pub rest : List ℕ
    pub item : l ≡ item_bytes two v ++ rest
    pub fits : v < width two
    pub inv : Sides m s0 flag_r held ctx' rest o
    pub kept :
        (x : ℕ) → r_op_min ≤ x → x ≤ r_op_max → reg_of (at m s0 ctx') x ≡ reg_of (at m s0 ctx) x
    pub shape : (t : Bool) → Shaped flag_r t ctx ctx'
    pub quiet : Quiet m s0 ctx ctx'

  released-Inv :
      (held : ℕ → ℕ) (ctx : Ctx) (r : ℕ) (w s : List ℕ)
      → Inv m s0 (hold held r) ctx w s
      → Inv m s0 held (record ctx { reg_ref_counts = released ctx.reg_ref_counts r }) w s
  released-Inv held ctx r w s v = record {
    anchored = record { vm = v.anchored.vm; base = v.anchored.base };
    wst = v.wst;
    rst = v.rst;
    wst_fresh = v.wst_fresh;
    rst_fresh = v.rst_fresh;
    counted = λ x. ground (arith, v.counted x);
    wst_bound = v.wst_bound;
    rst_bound = v.rst_bound;
  }

  dropped-Quiet : (flag_r : Bool) (ctx : Ctx) → Quiet m s0 ctx (dropped flag_r ctx)
  dropped-Quiet true ctx = record {
    mode = record { pc = refl; opcode = refl; shadow = refl; wsp_reg = refl; rsp_reg = refl };
    others = λ f j h k. refl;
  }
  dropped-Quiet false ctx = record {
    mode = record { pc = refl; opcode = refl; shadow = refl; wsp_reg = refl; rsp_reg = refl };
    others = λ f j h k. refl;
  }

  pub dropped-Gone :
      (flag_r two : Bool) (held : ℕ → ℕ) (ctx : Ctx) (l o : List ℕ)
      → (cache_of flag_r ctx).len ≢ 0
      → (top_cell flag_r ctx).value.is_short ≡ two
      → Sides m s0 flag_r held ctx l o
      → Gone flag_r two held ctx l o (dropped flag_r ctx)
  dropped-Gone true two held ctx l o ne e v =
      let top = (top_cell true ctx).value in
      let p = taken-Popped m s0 true held ctx o l v ne in
      record {
        v = reg_of (at m s0 ctx) top.reg;
        rest = p.rest_r;
        item = rw (← e) p.item_r;
        fits = rw (← e) p.fits;
        inv =
            subst (λ t. Inv m s0 held (dropped true ctx) t p.rest_r) (sym p.item_w)
              (released-Inv held (taken true ctx) top.reg p.rest_w p.rest_r p.inv);
        kept = λ x lo hi. refl;
        shape = λ t. shorter-Shaped true t ctx (dropped true ctx) refl refl;
        quiet = dropped-Quiet true ctx;
      }
  dropped-Gone false two held ctx l o ne e v =
      let top = (top_cell false ctx).value in
      let p = taken-Popped m s0 false held ctx l o v ne in
      record {
        v = reg_of (at m s0 ctx) top.reg;
        rest = p.rest_w;
        item = rw (← e) p.item_w;
        fits = rw (← e) p.fits;
        inv =
            subst (λ t. Inv m s0 held (dropped false ctx) p.rest_w t) (sym p.item_r)
              (released-Inv held (taken false ctx) top.reg p.rest_w p.rest_r p.inv);
        kept = λ x lo hi. refl;
        shape = λ t. shorter-Shaped false t ctx (dropped false ctx) refl refl;
        quiet = dropped-Quiet false ctx;
      }
