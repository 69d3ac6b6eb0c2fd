-- ===== src/Refine/Discard.antt =====
-- `buxn_jit_stack_cache_discard` of an item that is ready: it goes, wherever it is.
use buxn_jit.Prelude.{
  ℕ, ◌-◌, ◌<◌, ◌≡◌, ◌≢◌, Bool, true, false, List, ◌∷◌, arith, ◌==◌, Bool-cases, inl, inr,
}
use buxn_jit.Lir.{r_op_min, s_wsp, s_rsp}
use buxn_jit.Ctx.{Ctx, cache_of, saved_ptr_reg, stack_ptr_reg}
use buxn_jit.Cache.Pop.{top_cell, discard}
use buxn_jit.Machine.{Machine}
use buxn_jit.Refine.Ensures.{Ensures}
use buxn_jit.Refine.Holds.{Fresh}
use buxn_jit.Refine.Pop.{taken, taken-Popped}
use buxn_jit.Refine.Side.{Ready, Sides}
use buxn_jit.Refine.Ready.{Sized_top}
use buxn_jit.Refine.Dropped.{Gone, discard-dropped, dropped-Gone}
use buxn_jit.Refine.Lowered.{discard-lowered, lowered-Gone}
use buxn_jit.Refine.Ready.{Sized_top}

module _ (m : Machine) (s0 : m.State) where
  open m use {State, reg_of, cell}

  top-Fresh :
      (flag_r : Bool) (held : ℕ → ℕ) (ctx : Ctx) (l o : List ℕ)
      → Sides m s0 flag_r held ctx l o
      → Fresh (cache_of flag_r ctx)
  top-Fresh true held ctx l o v = v.rst_fresh
  top-Fresh false held ctx l o v = v.wst_fresh

  top_counted :
      (flag_r : Bool) (held : ℕ → ℕ) (ctx : Ctx) (l o : List ℕ)
      → Sides m s0 flag_r held ctx l o
      → (cache_of flag_r ctx).len ≢ 0
      → 0 < (taken flag_r ctx).reg_ref_counts ((top_cell flag_r ctx).value.reg - r_op_min)
  top_counted true held ctx l o v ne =
      let x = (top_cell true ctx).value.reg - r_op_min in
      ground (arith, (taken-Popped m s0 true held ctx o l v ne).inv.counted x)
  top_counted false held ctx l o v ne =
      let x = (top_cell false ctx).value.reg - r_op_min in
      ground (arith, (taken-Popped m s0 false held ctx l o v ne).inv.counted x)

  ptr_in_place :
      (flag_r : Bool) (ctx : Ctx)
      → ctx.wsp_reg ≡ s_wsp
      → ctx.rsp_reg ≡ s_rsp
      → stack_ptr_reg flag_r ctx ≡ saved_ptr_reg flag_r
  ptr_in_place true ctx w r = r
  ptr_in_place false ctx w r = w

  -- `buxn_jit_stack_cache_discard` of an item that is ready
  pub discard-Gone :
      (flag_r two : Bool) (held : ℕ → ℕ) (ss : List Bool) (ctx : Ctx) (l o : List ℕ)
      → Sides m s0 flag_r held ctx l o
      → Ready flag_r two (two ∷ ss) ctx l
      → Ensures (λ _. Gone m s0 flag_r two held ctx l o) (discard flag_r two ctx)
  discard-Gone flag_r two held ss ctx l o v r = elim (Bool-cases ((cache_of flag_r ctx).len == 0)) [
    | inl none_cached ↦
        let e : (cache_of flag_r ctx).len ≡ 0 = ground arith in
        rw (discard-lowered flag_r two ctx e (ptr_in_place flag_r ctx r.wsp_reg r.rsp_reg))
          (lowered-Gone m s0 flag_r two held ctx l o e (omega (arith, r.there)) v)
    | inr some_cached ↦
        let cache = cache_of flag_r ctx in
        let ne : cache.len ≢ 0 = ground arith in
        let (top, _) = Sized_top two ss cache.cells cache.len ne r.sizes in
        let f = top-Fresh flag_r held ctx l o v in
        rw
          (discard-dropped flag_r two ctx ne top (f.lo (cache.len - 1) (omega arith))
            (f.hi (cache.len - 1) (omega arith)) (top_counted flag_r held ctx l o v ne))
          (dropped-Gone m s0 flag_r two held ctx l o ne top v)
  ]
