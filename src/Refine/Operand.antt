-- ===== src/Refine/Operand.antt =====
-- `buxn_jit_pop` and `buxn_jit_push`: the stack cache, and the compile-time view of the stacks, which
-- the machine does not see.
use buxn_jit.Prelude.{
  ℕ, ap, ◌+◌, ◌-◌, ◌%◌, ◌≤◌, ◌<◌, ◌≡◌, ◌≢◌, refl, Bool, true, false, none, List, not, arith, length,
  ◌==◌,
}
use buxn_jit.Lir.{r_op_min, r_op_max}
use buxn_jit.Ctx.{Value, Operand, Ctx, M, modify, cache_of, ◌>>=◌}
use buxn_jit.Cache.Spill.{push_cell}
use buxn_jit.Cache.Pop.{top_cell, pop}
use buxn_jit.Micro.Stack.{
  track_push, push_ex, pop_ex, size, effective_ptr, set_effective_ptr, width,
}
use buxn_jit.Machine.{Machine}
use buxn_jit.Refine.Ensures.{Ensures, Ensures-run, Ensures-bind}
use buxn_jit.Refine.Push.{item_bytes}
use buxn_jit.Refine.Item.{at}
use buxn_jit.Refine.Inv.{Inv, Frame}
use buxn_jit.Refine.Cell.{on_wst, on_rst, Pushable, OnTop, push_cell-OnTop}
use buxn_jit.Refine.Pop.{shorter, taken, pop-taken, Popped, taken-Popped}

pub Ensures-at :
    {A B : Type 0} (f : M A) (g : A → M B) (ctx : Ctx) (Q : B → Ctx → Type 0) {ctx' : Ctx}
    → ctx ≡ ctx'
    → Ensures Q ((f >>= g) ctx')
    → Ensures Q ((f >>= g) ctx)
Ensures-at f g ctx Q e h = rw e h

-- A context with another compile-time view of the stacks
abbrev pub tracked : (ℕ → Value) → (ℕ → Value) → ℕ → ℕ → Ctx → Ctx
tracked wst rst wsp rsp ctx = record ctx { wst = wst; rst = rst; wsp = wsp; rsp = rsp }

module _ (m : Machine) (s0 : m.State) where
  pub Inv-tracked :
      (wst rst : ℕ → Value) (wsp rsp : ℕ) (held : ℕ → ℕ) (ctx : Ctx) (w r : List ℕ)
      → Inv m s0 held ctx w r
      → Inv m s0 held (tracked wst rst wsp rsp ctx) w r
  Inv-tracked wst rst wsp rsp held ctx w r v = record {
    anchored = record { vm = v.anchored.vm; base = v.anchored.base };
    wst = v.wst;
    rst = v.rst;
    wst_fresh = v.wst_fresh;
    rst_fresh = v.rst_fresh;
    counted = v.counted;
    wst_bound = v.wst_bound;
    rst_bound = v.rst_bound;
  }

  Frame-tracked :
      (wst rst : ℕ → Value) (wsp rsp : ℕ) (a b : Ctx)
      → Frame m s0 a b
      → Frame m s0 a (tracked wst rst wsp rsp b)
  Frame-tracked wst rst wsp rsp a b f = record {
    mode = record {
      pc = f.mode.pc;
      opcode = f.mode.opcode;
      shadow = f.mode.shadow;
      wsp_reg = f.mode.wsp_reg;
      rsp_reg = f.mode.rsp_reg;
    };
    regs = f.regs;
    others = f.others;
  }

  track_push-OnTop :
      (flag_r : Bool) (held : ℕ → ℕ) (ctx : Ctx) (operand : Operand) (item w r : List ℕ)
      (ctx' : Ctx)
      → OnTop m s0 flag_r held ctx item w r ctx'
      → OnTop m s0 flag_r held ctx item w r (track_push operand flag_r ctx')
  track_push-OnTop true held ctx operand item w r ctx' t = record {
    inv = Inv-tracked ctx'.wst _ ctx'.wsp _ held ctx' w _ t.inv;
    frame = Frame-tracked ctx'.wst _ ctx'.wsp _ ctx ctx' t.frame;
    shape = λ two e. record { flat = (t.shape two e).flat; other = (t.shape two e).other };
  }
  track_push-OnTop false held ctx operand item w r ctx' t = record {
    inv = Inv-tracked _ ctx'.rst _ ctx'.rsp held ctx' _ r t.inv;
    frame = Frame-tracked _ ctx'.rst _ ctx'.rsp ctx ctx' t.frame;
    shape = λ two e. record { flat = (t.shape two e).flat; other = (t.shape two e).other };
  }

  -- A push of an operand that the opcode holds: its bytes are the new top of its stack.
  pub push_ex-OnTop :
      (flag_r : Bool) (held : ℕ → ℕ) (ctx : Ctx) (operand : Operand) (w r : List ℕ)
      → let item = item_bytes operand.is_short (m.reg_of (at m s0 ctx) operand.reg) in
        Inv m s0 held ctx w r
        → Pushable m s0 held operand
        → m.reg_of (at m s0 ctx) operand.reg < width operand.is_short
        → held (operand.reg - r_op_min) ≢ 0
        → length (on_wst flag_r item w) ≤ 256
        → length (on_rst flag_r item r) ≤ 256
        → Ensures (λ _. OnTop m s0 flag_r held ctx item w r) (push_ex operand flag_r ctx)
  unfolding push_ex
  push_ex-OnTop flag_r held ctx operand w r v p fits used hw hr =
      let count = v.counted (operand.reg - r_op_min) in
      let counted : not (ctx.reg_ref_counts (operand.reg - r_op_min) == 0) ≡ true =
        ground (arith, count) in
      rw counted (
        Ensures-bind (push_cell flag_r operand) (λ _. modify (track_push operand flag_r)) ctx _ _
          (push_cell-OnTop m s0 flag_r held ctx operand w r v p fits hw hr)
          λ _ ctx' t. track_push-OnTop flag_r held ctx operand _ w r ctx' t)

  -- What a pop hands out: an operand in the register of the top cell
  pub record Popping (flag_r two : Bool) (held : ℕ → ℕ) (ctx : Ctx) (w r : List ℕ)
      (operand : Operand) (ctx' : Ctx) : Type 0 where
    pub is_short : operand.is_short ≡ two
    pub reg : operand.reg ≡ (top_cell flag_r ctx).value.reg
    pub lo : r_op_min ≤ operand.reg
    pub hi : operand.reg ≤ r_op_max
    pub shadow : ctx'.shadow ≡ none
    pub cache : cache_of flag_r ctx' ≡ shorter (cache_of flag_r ctx)
    pub counts : ctx'.reg_ref_counts ≡ ctx.reg_ref_counts
    pub others : cache_of (not flag_r) ctx' ≡ cache_of (not flag_r) ctx
    pub popped : Popped m s0 flag_r two held ctx w r operand.reg ctx'

  -- The pop of a context whose pointer has been moved
  moved-Popping :
      (flag_r : Bool) (wsp rsp : ℕ) (held : ℕ → ℕ) (ctx : Ctx) (w r : List ℕ) (operand : Operand)
      → let ctx1 = tracked ctx.wst ctx.rst wsp rsp ctx in
        let top = (top_cell flag_r ctx).value in
        Inv m s0 held ctx w r
        → ctx.shadow ≡ none
        → (cache_of flag_r ctx).len ≢ 0
        → operand.is_short ≡ top.is_short
        → operand.reg ≡ top.reg
        → Popping flag_r top.is_short held ctx w r operand (taken flag_r ctx1)
  moved-Popping true wsp rsp held ctx w r operand v e ne short same =
      let p = taken-Popped m s0 true held ctx w r v ne in
      record {
        is_short = short;
        reg = same;
        lo = rw same (v.rst_fresh.lo (ctx.rst_cache.len - 1) (omega arith));
        hi = rw same (v.rst_fresh.hi (ctx.rst_cache.len - 1) (omega arith));
        shadow = e;
        cache = refl;
        counts = refl;
        others = refl;
        popped = rw same (record {
          rest_w = p.rest_w;
          rest_r = p.rest_r;
          item_w = p.item_w;
          item_r = p.item_r;
          fits = p.fits;
          inv = Inv-tracked ctx.wst ctx.rst wsp rsp _ (taken true ctx) _ _ p.inv;
          frame = Frame-tracked ctx.wst ctx.rst wsp rsp ctx (taken true ctx) p.frame;
        });
      }
  moved-Popping false wsp rsp held ctx w r operand v e ne short same =
      let p = taken-Popped m s0 false held ctx w r v ne in
      record {
        is_short = short;
        reg = same;
        lo = rw same (v.wst_fresh.lo (ctx.wst_cache.len - 1) (omega arith));
        hi = rw same (v.wst_fresh.hi (ctx.wst_cache.len - 1) (omega arith));
        shadow = e;
        cache = refl;
        counts = refl;
        others = refl;
        popped = rw same (record {
          rest_w = p.rest_w;
          rest_r = p.rest_r;
          item_w = p.item_w;
          item_r = p.item_r;
          fits = p.fits;
          inv = Inv-tracked ctx.wst ctx.rst wsp rsp _ (taken false ctx) _ _ p.inv;
          frame = Frame-tracked ctx.wst ctx.rst wsp rsp ctx (taken false ctx) p.frame;
        });
      }

  -- A pop, outside the keep mode, of an item that is cached in the size asked for
  pub pop_ex-Popping :
      (flag_r : Bool) (held : ℕ → ℕ) (ctx : Ctx) (w r : List ℕ)
      → Inv m s0 held ctx w r
      → ctx.shadow ≡ none
      → (cache_of flag_r ctx).len ≢ 0
      → let two = (top_cell flag_r ctx).value.is_short in
        Ensures (Popping flag_r two held ctx w r) (pop_ex two flag_r ctx)
  unfolding pop_ex
  pop_ex-Popping true held ctx w r v e ne =
      let two = (top_cell true ctx).value.is_short in
      let n = (effective_ptr true ctx ctx.shadow + 256 - size two) % 256 in
      let ctx1 : Ctx = record ctx { rsp = n } in
      let at_ptr : set_effective_ptr true n ctx.shadow ctx ≡ ctx1 =
        ap (λ shadow. set_effective_ptr true n shadow ctx) e in
      Ensures-at (pop true two) _ _ _ at_ptr (
        Ensures-run (pop true two) _ ctx1 _ (pop-taken true two ctx1 ne refl)
          (moved-Popping true ctx.wsp n held ctx w r _ v e ne refl refl))
  pop_ex-Popping false held ctx w r v e ne =
      let two = (top_cell false ctx).value.is_short in
      let n = (effective_ptr false ctx ctx.shadow + 256 - size two) % 256 in
      let ctx1 : Ctx = record ctx { wsp = n } in
      let at_ptr : set_effective_ptr false n ctx.shadow ctx ≡ ctx1 =
        ap (λ shadow. set_effective_ptr false n shadow ctx) e in
      Ensures-at (pop false two) _ _ _ at_ptr (
        Ensures-run (pop false two) _ ctx1 _ (pop-taken false two ctx1 ne refl)
          (moved-Popping false n ctx.rsp held ctx w r _ v e ne refl refl))
