-- ===== src/Refine/Take.antt =====
-- `buxn_jit_pop` of an item that is ready, in a register or in memory.
use buxn_jit.Prelude.{
  ℕ, ◌+◌, ◌-◌, ◌%◌, ◌≤◌, ◌≡◌, ◌≢◌, refl, ap, ◌∙◌, Bool, true, false, none, some, List, arith,
  length, length-append,
}
use buxn_jit.Lir.{r_op_min, r_op_max, s_wsp, s_rsp}
use buxn_jit.Ctx.{Value, Operand, Cache, Ctx, cache_of, stack_field, saved_ptr_reg}
use buxn_jit.Regs.{find_free_reg}
use buxn_jit.Cache.Pop.{pop}
use buxn_jit.Micro.Stack.{size, pop_ex, effective_ptr, set_effective_ptr}
use buxn_jit.Machine.{Machine}
use buxn_jit.Refine.Shape.{Shaped-caches}
use buxn_jit.Refine.Ensures.{Ensures, Ensures-run}
use buxn_jit.Refine.Below.{Below}
use buxn_jit.Refine.Operand.{Ensures-at, tracked, Inv-tracked}
use buxn_jit.Refine.Push.{item_bytes}
use buxn_jit.Refine.Item.{at, Anchored}
use buxn_jit.Refine.Holds.{Holds, Holds-empty, Fresh, saved_ptr-gt_op}
use buxn_jit.Refine.Cached.{refs}
use buxn_jit.Refine.Alloc.{hold, find_free_reg-some}
use buxn_jit.Refine.Room.{counted_up}
use buxn_jit.Refine.Fetch.{
  fetched, pop-empty, pop_from_mem-run, refs-zero, Holds-kept, Unloaded, fetched-Unloaded,
}
use buxn_jit.Refine.Side.{Sides, Got}

module _ (m : Machine) (s0 : m.State) where
  open m use {State, reg_of, cell}

  -- The stack that was read from
  own-Holds :
      (flag_r two : Bool) (ctx : Ctx) (new : ℕ) (l : List ℕ) (cache : Cache)
      → cache.len ≡ 0
      → (u : Unloaded m s0 flag_r two ctx new l)
      → Holds m flag_r (at m s0 (fetched flag_r two new ctx)) cache u.rest
  own-Holds flag_r two ctx new l cache e u = record {
    rest = u.rest;
    split = rw e;
    below = u.below;
    exact = λ i p. absurd (omega arith);
  }

  -- The other one
  other-Holds :
      (flag_r side two : Bool) (ctx : Ctx) (new : ℕ) (l o : List ℕ) (cache : Cache)
      → saved_ptr_reg side ≢ saved_ptr_reg flag_r
      → new ≤ r_op_max
      → Fresh cache
      → r_op_min ≤ new
      → refs cache.cells cache.len (new - r_op_min) ≡ 0
      → Unloaded m s0 flag_r two ctx new l
      → Holds m side (at m s0 ctx) cache o
      → Holds m side (at m s0 (fetched flag_r two new ctx)) cache o
  other-Holds flag_r side two ctx new l o cache apart hi f lo unused u h =
      let s = at m s0 ctx in
      let s' = at m s0 (fetched flag_r two new ctx) in
      Holds-kept m side s s' cache o
        (λ i p.
          u.regs (cache.cells i).value.reg (omega (arith, f.lo i p))
            (omega (arith, saved_ptr-gt_op flag_r, f.hi i p))
            (omega (arith, refs-zero cache.cells cache.len (new - r_op_min) i unused p)))
        (u.regs (saved_ptr_reg side) (omega (arith, saved_ptr-gt_op side)) apart
          (omega (arith, saved_ptr-gt_op side)))
        (λ j. u.cells (stack_field side) j) h

  fetched-Sides :
      (flag_r two : Bool) (held : ℕ → ℕ) (ctx : Ctx) (new : ℕ) (l o : List ℕ)
      → (cache_of flag_r ctx).len ≡ 0
      → r_op_min ≤ new
      → new ≤ r_op_max
      → ctx.reg_ref_counts (new - r_op_min) ≡ 0
      → Sides m s0 flag_r held ctx l o
      → (u : Unloaded m s0 flag_r two ctx new l)
      → Sides m s0 flag_r (hold held new) (fetched flag_r two new ctx) u.rest o
  fetched-Sides true two held ctx new l o e lo hi free v u =
      let count = v.counted (new - r_op_min) in
      record {
        anchored = record { vm = u.anchored.vm; base = u.anchored.base };
        wst =
            other-Holds true false two ctx new l o ctx.wst_cache (omega arith) hi v.wst_fresh lo
              (omega arith) u v.wst;
        rst = own-Holds true two ctx new l ctx.rst_cache e u;
        wst_fresh = v.wst_fresh;
        rst_fresh = v.rst_fresh;
        counted = λ x. ground (arith, v.counted x, count);
        wst_bound = v.wst_bound;
        rst_bound = omega (
          arith,
          v.rst_bound,
          ap length u.item,
          length-append (item_bytes two (reg_of (at m s0 (fetched true two new ctx)) new)) u.rest,
        );
      }
  fetched-Sides false two held ctx new l o e lo hi free v u =
      let count = v.counted (new - r_op_min) in
      record {
        anchored = record { vm = u.anchored.vm; base = u.anchored.base };
        wst = own-Holds false two ctx new l ctx.wst_cache e u;
        rst =
            other-Holds false true two ctx new l o ctx.rst_cache (omega arith) hi v.rst_fresh lo
              (omega arith) u v.rst;
        wst_fresh = v.wst_fresh;
        rst_fresh = v.rst_fresh;
        counted = λ x. ground (arith, v.counted x, count);
        wst_bound = omega (
          arith,
          v.wst_bound,
          ap length u.item,
          length-append (item_bytes two (reg_of (at m s0 (fetched false two new ctx)) new)) u.rest,
        );
        rst_bound = v.rst_bound;
      }

  -- What a pop from memory hands out
  fetched-Got :
      (flag_r two : Bool) (held : ℕ → ℕ) (ctx : Ctx) (new wsp rsp : ℕ) (l o : List ℕ)
      (operand : Operand)
      → let ctx1 = tracked ctx.wst ctx.rst wsp rsp ctx in
        Sides m s0 flag_r held ctx l o
        → (cache_of flag_r ctx).len ≡ 0
        → (cache_of flag_r ctx1).len ≡ 0
        → find_free_reg ctx ≡ some new
        → size two ≤ length l
        → operand.is_short ≡ two
        → operand.reg ≡ new
        → Anchored m s0 ctx1
        → Below
            (cell (at m s0 ctx1) (stack_field flag_r))
            (reg_of (at m s0 ctx1) (saved_ptr_reg flag_r) % 256)
            l
        → Sides m s0 flag_r held ctx1 l o
        → Got m s0 flag_r two held ctx l o operand (fetched flag_r two new ctx1)
  fetched-Got flag_r two held ctx new wsp rsp l o operand v e e1 free there short same a below v1 =
      let ctx1 = tracked ctx.wst ctx.rst wsp rsp ctx in
      let (lo, hi, unused) = find_free_reg-some ctx new free in
      let count = v.counted (new - r_op_min) in
      let u = fetched-Unloaded m s0 flag_r two ctx1 new l a lo hi there below in
      record {
        rest = u.rest;
        is_short = short;
        lo = rw same lo;
        hi = rw same hi;
        fits = rw same u.fits;
        item = rw same u.item;
        inv = rw same (fetched-Sides flag_r two held ctx1 new l o e1 lo hi unused v1 u);
        kept = λ x p q used.
            u.regs x (omega arith) (omega (arith, saved_ptr-gt_op flag_r)) (ground (arith, count));
        alone = λ h. rw same (ground (arith, unused));
        shape = λ t. Shaped-caches flag_r t ctx (fetched flag_r two new ctx1) refl refl;
        quiet = record {
          mode = record { pc = refl; opcode = refl; shadow = refl; wsp_reg = refl; rsp_reg = refl };
          others = λ f j h k. u.cells f j;
        };
      }

  find-tracked :
      (wst rst : ℕ → Value) (wsp rsp : ℕ) (ctx : Ctx)
      → find_free_reg (tracked wst rst wsp rsp ctx) ≡ find_free_reg ctx
  unfolding find_free_reg
  find-tracked wst rst wsp rsp ctx = refl

  pub fetch_operand-Got :
      (flag_r two : Bool) (held : ℕ → ℕ) (ctx : Ctx) (new : ℕ) (l o : List ℕ)
      → Sides m s0 flag_r held ctx l o
      → ctx.shadow ≡ none
      → ctx.wsp_reg ≡ s_wsp
      → ctx.rsp_reg ≡ s_rsp
      → (cache_of flag_r ctx).len ≡ 0
      → find_free_reg ctx ≡ some new
      → size two ≤ length l
      → Ensures
          (λ operand ctx'.
            Got m s0 flag_r two held ctx l o operand ctx'
            × (cache_of flag_r ctx' ≡ cache_of flag_r ctx)
            × (ctx'.reg_ref_counts ≡ counted_up ctx.reg_ref_counts new))
          (pop_ex two flag_r ctx)
  unfolding pop_ex
  fetch_operand-Got true two held ctx new l o v e pw pr len free there =
      let n = (effective_ptr true ctx ctx.shadow + 256 - size two) % 256 in
      let ctx1 : Ctx = record ctx { rsp = n } in
      let v1 = Inv-tracked m s0 ctx.wst ctx.rst ctx.wsp n held ctx o l v in
      Ensures-at (pop true two) _ _ _ (ap (λ shadow. set_effective_ptr true n shadow ctx) e) (
        Ensures-run (pop true two) _ ctx1 _
          (pop-empty true two ctx1 len
            ∙ pop_from_mem-run true two ctx1 new pr
                (find-tracked ctx.wst ctx.rst ctx.wsp n ctx ∙ free))
          (
            fetched-Got true two held ctx new ctx.wsp n l o _ v len len free there refl refl
                v1.anchored (Holds-empty m true (at m s0 ctx1) ctx1.rst_cache l len v1.rst) v1,
            refl,
            refl,
          ))
  fetch_operand-Got false two held ctx new l o v e pw pr len free there =
      let n = (effective_ptr false ctx ctx.shadow + 256 - size two) % 256 in
      let ctx1 : Ctx = record ctx { wsp = n } in
      let v1 = Inv-tracked m s0 ctx.wst ctx.rst n ctx.rsp held ctx l o v in
      Ensures-at (pop false two) _ _ _ (ap (λ shadow. set_effective_ptr false n shadow ctx) e) (
        Ensures-run (pop false two) _ ctx1 _
          (pop-empty false two ctx1 len
            ∙ pop_from_mem-run false two ctx1 new pw
                (find-tracked ctx.wst ctx.rst n ctx.rsp ctx ∙ free))
          (
            fetched-Got false two held ctx new n ctx.rsp l o _ v len len free there refl refl
                v1.anchored (Holds-empty m false (at m s0 ctx1) ctx1.wst_cache l len v1.wst) v1,
            refl,
            refl,
          ))
