-- ===== src/Refine/Room.antt =====
-- `buxn_jit_stack_cache_push`, as it runs: with room in the cache, and with a spill first.
use buxn_jit.Prelude.{
  ℕ, ◌+◌, ◌-◌, ◌%◌, ◌<◌, ◌≤◌, ◌≡◌, ◌∙◌, Bool, true, false, some, arith, leb, update,
}
use buxn_jit.Lir.{r_op_min, r_op_max}
use buxn_jit.Ctx.{Operand, Cache, Ctx, cache_of, with_cache, cache_size, skip, ◌>>◌}
use buxn_jit.Cache.Spill.{spill, push_cell}
use buxn_jit.Refine.Ensures.{>>=-run}
use buxn_jit.Refine.Alloc.{retain_reg-run}

abbrev pub added : Cache → Operand → Cache
added cache operand = record {
  cells = update cache.cells cache.len (record { value = operand; need_flush = true });
  len = cache.len + 1;
}

abbrev pub counted_up : (ℕ → ℕ) → ℕ → ℕ → ℕ
counted_up counts r = update counts (r - r_op_min) ((counts (r - r_op_min) + 1) % 256)

-- The context after a push into a cache that has room
abbrev pub pushed : Bool → Operand → Ctx → Ctx
pushed flag_r operand ctx =
    with_cache flag_r (added (cache_of flag_r ctx) operand)
      (record ctx { reg_ref_counts = counted_up ctx.reg_ref_counts operand.reg })

pub push_cell-run :
    (flag_r : Bool) (operand : Operand) (ctx : Ctx)
    → (cache_of flag_r ctx).len < cache_size
    → r_op_min ≤ operand.reg
    → operand.reg ≤ r_op_max
    → push_cell flag_r operand ctx ≡ some (tt, pushed flag_r operand ctx)
unfolding push_cell
push_cell-run true operand ctx h lo hi =
    let room : leb cache_size ctx.rst_cache.len ≡ false = ground arith in
    rw room (retain_reg-run operand.reg _ lo hi)
push_cell-run false operand ctx h lo hi =
    let room : leb cache_size ctx.wst_cache.len ≡ false = ground arith in
    rw room (retain_reg-run operand.reg _ lo hi)

-- In a full cache the bottom cell is spilled first.
pub push_cell-full :
    (flag_r : Bool) (operand : Operand) (ctx ctx' : Ctx)
    → cache_size ≤ (cache_of flag_r ctx).len
    → spill flag_r ctx ≡ some (true, ctx')
    → (cache_of flag_r ctx').len < cache_size
    → r_op_min ≤ operand.reg
    → operand.reg ≤ r_op_max
    → push_cell flag_r operand ctx ≡ some (tt, pushed flag_r operand ctx')
unfolding push_cell
push_cell-full true operand ctx ctx' h e h' lo hi =
    let full : leb cache_size ctx.rst_cache.len ≡ true = ground arith in
    rw full (
      >>=-run (spill true >> skip) _ ctx (>>=-run (spill true) (λ _. skip) ctx e)
      ∙ retain_reg-run operand.reg _ lo hi)
push_cell-full false operand ctx ctx' h e h' lo hi =
    let full : leb cache_size ctx.wst_cache.len ≡ true = ground arith in
    rw full (
      >>=-run (spill false >> skip) _ ctx (>>=-run (spill false) (λ _. skip) ctx e)
      ∙ retain_reg-run operand.reg _ lo hi)
