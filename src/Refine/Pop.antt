-- ===== src/Refine/Pop.antt =====
-- `buxn_jit_stack_cache_pop` of an item that is cached in the size asked for.
use buxn_jit.Prelude.{
  ℕ, suc, ◌+◌, ◌-◌, ◌<◌, ◌≡◌, ◌≢◌, refl, ap, ◌∙◌, Bool, true, false, not, some, List, ◌++◌, arith,
  length, length-append, ◌==◌, if◌then◌else◌,
}
use mathlib.Core.List.{append_assoc}
use buxn_jit.Lir.{r_op_min}
use buxn_jit.Ctx.{Cache, Ctx, cache_of, with_cache}
use buxn_jit.Cache.Pop.{top_cell, pop_byte, pop}
use buxn_jit.Micro.Stack.{width}
use buxn_jit.Machine.{Machine}
use buxn_jit.Refine.Push.{item_bytes}
use buxn_jit.Refine.Shape.{Shaped}
use buxn_jit.Refine.Item.{at}
use buxn_jit.Refine.Cached.{cached, refs}
use buxn_jit.Refine.Holds.{Fresh, Holds}
use buxn_jit.Refine.Inv.{Inv, Frame, Frame-refl, Frame-caches}
use buxn_jit.Refine.Alloc.{hold}
use buxn_jit.Refine.Cell.{on_wst, on_rst}

abbrev pub shorter : Cache → Cache
shorter cache = record cache { len = cache.len - 1 }

-- The context after the top cell is taken off
abbrev pub taken : Bool → Ctx → Ctx
taken flag_r ctx = with_cache flag_r (shorter (cache_of flag_r ctx)) ctx

pub shorter-Shaped :
    (side t : Bool) (ctx ctx' : Ctx)
    → cache_of side ctx' ≡ shorter (cache_of side ctx)
    → cache_of (not side) ctx' ≡ cache_of (not side) ctx
    → Shaped side t ctx ctx'
shorter-Shaped side t ctx ctx' e e' = record {
  flat = λ f. rw e (λ i p. f i (omega arith));
  other = rw e' (omega arith);
}

pub pop-taken :
    (flag_r flag_2 : Bool) (ctx : Ctx)
    → (cache_of flag_r ctx).len ≢ 0
    → (top_cell flag_r ctx).value.is_short ≡ flag_2
    → pop flag_r flag_2 ctx ≡ some ((top_cell flag_r ctx).value.reg, taken flag_r ctx)
unfolding pop pop_byte
pop-taken true true ctx ne e =
    let more : (ctx.rst_cache.len == 0) ≡ false = ground arith in rw (more, e)
pop-taken true false ctx ne e =
    let more : (ctx.rst_cache.len == 0) ≡ false = ground arith in rw (more, e)
pop-taken false true ctx ne e =
    let more : (ctx.wst_cache.len == 0) ≡ false = ground arith in rw (more, e)
pop-taken false false ctx ne e =
    let more : (ctx.wst_cache.len == 0) ≡ false = ground arith in rw (more, e)

shorter-Fresh : (cache : Cache) → Fresh cache → Fresh (shorter cache)
shorter-Fresh cache f = record {
  size = omega (arith, f.size);
  lo = λ i h. f.lo i (omega arith);
  hi = λ i h. f.hi i (omega arith);
  dirty = λ i h. f.dirty i (omega arith);
}

refs-shorter :
    (cache : Cache) (x : ℕ)
    → cache.len ≢ 0
    → refs cache.cells cache.len x
      ≡ (if (cache.cells (cache.len - 1)).value.reg - r_op_min == x then 1 else 0)
        + refs cache.cells (cache.len - 1) x
refs-shorter cache x ne =
    let len : cache.len ≡ suc (cache.len - 1) = omega arith in ap (λ k. refs cache.cells k x) len

module _ (m : Machine) (s0 : m.State) where
  open m use {State, reg_of}

  -- The top item of a stack, which its cache holds, and what is below it
  record Split (flag_r : Bool) (s : State) (cache : Cache) (l : List ℕ) : Type 0 where
    rest : List ℕ
    fits : let top = (cache.cells (cache.len - 1)).value in reg_of s top.reg < width top.is_short
    item :
        let top = (cache.cells (cache.len - 1)).value in
        l ≡ item_bytes top.is_short (reg_of s top.reg) ++ rest
    holds : Holds m flag_r s (shorter cache) rest

  Holds-Split :
      (flag_r : Bool) (s : State) (cache : Cache) (l : List ℕ)
      → cache.len ≢ 0
      → Holds m flag_r s cache l
      → Split flag_r s cache l
  Holds-Split flag_r s cache l ne h =
      let n = cache.len - 1 in
      let top = (cache.cells n).value in
      let len : cache.len ≡ suc n = omega arith in
      record {
        rest = cached (reg_of s) cache.cells n ++ h.rest;
        fits = h.exact n (omega arith);
        item =
            h.split
            ∙ ap (λ k. cached (reg_of s) cache.cells k ++ h.rest) len
            ∙ append_assoc (item_bytes top.is_short (reg_of s top.reg))
                (cached (reg_of s) cache.cells n) h.rest;
        holds = record {
          rest = h.rest;
          split = refl;
          below = h.below;
          exact = λ i p. h.exact i (omega arith);
        };
      }

  -- The opcode holds the register that was the top cell's; the item in it is off its stack.
  pub record Popped (flag_r flag_2 : Bool) (held : ℕ → ℕ) (ctx : Ctx) (w r : List ℕ) (new : ℕ)
      (ctx' : Ctx) : Type 0 where
    pub rest_w : List ℕ
    pub rest_r : List ℕ
    pub item_w : w ≡ on_wst flag_r (item_bytes flag_2 (reg_of (at m s0 ctx') new)) rest_w
    pub item_r : r ≡ on_rst flag_r (item_bytes flag_2 (reg_of (at m s0 ctx') new)) rest_r
    pub fits : reg_of (at m s0 ctx') new < width flag_2
    pub inv : Inv m s0 (hold held new) ctx' rest_w rest_r
    pub frame : Frame m s0 ctx ctx'

  pub taken-Popped :
      (flag_r : Bool) (held : ℕ → ℕ) (ctx : Ctx) (w r : List ℕ)
      → Inv m s0 held ctx w r
      → (cache_of flag_r ctx).len ≢ 0
      → let top = (top_cell flag_r ctx).value in
        Popped flag_r top.is_short held ctx w r top.reg (taken flag_r ctx)
  taken-Popped true held ctx w r v ne =
      let top = (top_cell true ctx).value in
      let p = Holds-Split true (at m s0 ctx) ctx.rst_cache r ne v.rst in
      record {
        rest_w = w;
        rest_r = p.rest;
        item_w = refl;
        item_r = p.item;
        fits = p.fits;
        inv = record {
          anchored = record { vm = v.anchored.vm; base = v.anchored.base };
          wst = v.wst;
          rst = p.holds;
          wst_fresh = v.wst_fresh;
          rst_fresh = shorter-Fresh ctx.rst_cache v.rst_fresh;
          counted = λ x. ground (arith, v.counted x, refs-shorter ctx.rst_cache x ne);
          wst_bound = v.wst_bound;
          rst_bound = omega (
            arith,
            v.rst_bound,
            ap length p.item,
            length-append (item_bytes top.is_short (reg_of (at m s0 ctx) top.reg)) p.rest,
          );
        };
        frame = Frame-caches m s0 ctx ctx ctx.wst_cache _ _ (Frame-refl m s0 ctx);
      }
  taken-Popped false held ctx w r v ne =
      let top = (top_cell false ctx).value in
      let p = Holds-Split false (at m s0 ctx) ctx.wst_cache w ne v.wst in
      record {
        rest_w = p.rest;
        rest_r = r;
        item_w = p.item;
        item_r = refl;
        fits = p.fits;
        inv = record {
          anchored = record { vm = v.anchored.vm; base = v.anchored.base };
          wst = p.holds;
          rst = v.rst;
          wst_fresh = shorter-Fresh ctx.wst_cache v.wst_fresh;
          rst_fresh = v.rst_fresh;
          counted = λ x. ground (arith, v.counted x, refs-shorter ctx.wst_cache x ne);
          wst_bound = omega (
            arith,
            v.wst_bound,
            ap length p.item,
            length-append (item_bytes top.is_short (reg_of (at m s0 ctx) top.reg)) p.rest,
          );
          rst_bound = v.rst_bound;
        };
        frame = Frame-caches m s0 ctx ctx _ ctx.rst_cache _ (Frame-refl m s0 ctx);
      }
