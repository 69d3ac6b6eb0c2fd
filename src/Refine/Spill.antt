-- ===== src/Refine/Spill.antt =====
-- What `buxn_jit_stack_cache_spill` does to a context.
use buxn_jit.Prelude.{
  ℕ, ◌-◌, ◌<◌, ◌≤◌, ◌≡◌, ◌≢◌, ◌∙◌, Bool, true, false, some, ltb, ◌==◌, update, arith,
}
use buxn_jit.Lir.{r_op_min, r_op_max}
use buxn_jit.Ctx.{Cell, Cache, Ctx, cache_of, with_cache}
use buxn_jit.Regs.{release_reg, is_op_reg}
use buxn_jit.Cache.Spill.{spill, flush_cell, do_push, drop_bottom}
use buxn_jit.Refine.Ensures.{>>=-run}
use buxn_jit.Refine.Item.{stored, do_push-run}

abbrev pub flushed : Cell → Cell
flushed cell = record cell { need_flush = false }

-- The cache with its bottom cell flushed, then dropped
abbrev pub spilled_cache : Cache → Cache
spilled_cache cache =
    drop_bottom (record cache { cells = update cache.cells 0 (flushed (cache.cells 0)) })

abbrev pub released : (ℕ → ℕ) → ℕ → ℕ → ℕ
released counts r = update counts (r - r_op_min) (counts (r - r_op_min) - 1)

-- The context after a spill of a cell that was not yet in memory
abbrev pub spilled : Bool → Ctx → Ctx
spilled flag_r ctx =
    let bottom = (cache_of flag_r ctx).cells 0 in
    let ctx' = stored flag_r bottom.value ctx in
    with_cache flag_r (spilled_cache (cache_of flag_r ctx))
      (record ctx' { reg_ref_counts = released ctx.reg_ref_counts bottom.value.reg })

pub release_reg-run :
    (r : ℕ) (ctx : Ctx)
    → r_op_min ≤ r
    → r ≤ r_op_max
    → 0 < ctx.reg_ref_counts (r - r_op_min)
    → release_reg r ctx ≡ some (tt, record ctx { reg_ref_counts = released ctx.reg_ref_counts r })
unfolding release_reg
release_reg-run r ctx lo hi pos =
    let valid : is_op_reg r ≡ true = ground arith in
    let used : ltb 0 (ctx.reg_ref_counts (r - r_op_min)) ≡ true = ground arith in rw (valid, used)

-- The context after a cell is written to memory
abbrev pub flushed_at : Bool → ℕ → Ctx → Ctx
flushed_at flag_r i ctx =
    let cell = (cache_of flag_r ctx).cells i in
    let ctx' = stored flag_r cell.value ctx in
    with_cache flag_r
      (record (cache_of flag_r ctx') {
        cells = update ((cache_of flag_r ctx').cells) i (flushed cell);
      })
      ctx'

pub flush_cell-run :
    (flag_r : Bool) (i : ℕ) (ctx : Ctx)
    → flush_cell flag_r i ctx ≡ some (tt, flushed_at flag_r i ctx)
unfolding flush_cell
flush_cell-run flag_r i ctx =
    >>=-run (do_push ((cache_of flag_r ctx).cells i).value flag_r) _ ctx
      (do_push-run ((cache_of flag_r ctx).cells i).value flag_r ctx)

pub spill-run :
    (flag_r : Bool) (ctx : Ctx)
    → (cache_of flag_r ctx).len ≢ 0
    → ((cache_of flag_r ctx).cells 0).need_flush ≡ true
    → r_op_min ≤ ((cache_of flag_r ctx).cells 0).value.reg
    → ((cache_of flag_r ctx).cells 0).value.reg ≤ r_op_max
    → 0 < ctx.reg_ref_counts (((cache_of flag_r ctx).cells 0).value.reg - r_op_min)
    → spill flag_r ctx ≡ some (true, spilled flag_r ctx)
unfolding spill
spill-run true ctx len flush lo hi pos =
    let more : (ctx.rst_cache.len == 0) ≡ false = ground arith in
    rw (more, flush)
      (>>=-run (flush_cell true 0) _ ctx (flush_cell-run true 0 ctx)
        ∙ >>=-run (release_reg (ctx.rst_cache.cells 0).value.reg) _ _
            (release_reg-run (ctx.rst_cache.cells 0).value.reg _ lo hi pos))
spill-run false ctx len flush lo hi pos =
    let more : (ctx.wst_cache.len == 0) ≡ false = ground arith in
    rw (more, flush)
      (>>=-run (flush_cell false 0) _ ctx (flush_cell-run false 0 ctx)
        ∙ >>=-run (release_reg (ctx.wst_cache.cells 0).value.reg) _ _
            (release_reg-run (ctx.wst_cache.cells 0).value.reg _ lo hi pos))
