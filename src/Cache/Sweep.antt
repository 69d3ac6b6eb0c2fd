-- ===== src/Cache/Sweep.antt =====
-- src/jit.c, "Stack cache": flushing and clearing a whole cache, and the count of references that
-- each opcode starts with.
use buxn_jit.Prelude.{ℕ, zero, suc, ◌+◌, ◌-◌, Bool, true, false, if◌then◌else◌}
use buxn_jit.Ctx.{Cell, M, ◌>>=◌, ◌>>◌, get, modify, skip, when, cache_of, with_cache}
use buxn_jit.Regs.{retain_reg}
use buxn_jit.Cache.Spill.{flush_cell, move_down, spill}

-- The loop of `buxn_jit_stack_cache_flush`, with `n` cells to go from index `i`
unfoldable pub flush_from : Bool → ℕ → ℕ → M (Unit {0})
unfolding flush_cell
flush_from flag_r zero i = skip
flush_from flag_r (suc n) i = do
  ctx ← get
  when ((cache_of flag_r ctx).cells i).need_flush (flush_cell flag_r i)
  flush_from flag_r n (i + 1)

unfoldable pub flush : Bool → M (Unit {0})
unfolding flush_from
flush flag_r = do ctx ← get; flush_from flag_r (cache_of flag_r ctx).len 0

-- `while (buxn_jit_stack_cache_spill(ctx, cache)) { }`, with as many rounds as there are cells
unfoldable pub clear_rounds : Bool → ℕ → M (Unit {0})
unfolding spill
clear_rounds flag_r zero = skip
clear_rounds flag_r (suc n) = do spill flag_r; clear_rounds flag_r n

unfoldable pub clear : Bool → M (Unit {0})
unfolding clear_rounds
clear flag_r = do ctx ← get; clear_rounds flag_r (cache_of flag_r ctx).len

unfoldable pub clear_stack_caches : M (Unit {0})
unfolding clear
clear_stack_caches = do clear false; clear true

-- The first loop of `buxn_jit_stack_cache_retain`
unfoldable pub count_flushed : (ℕ → Cell) → ℕ → ℕ → ℕ
count_flushed cells zero i = 0
count_flushed cells (suc n) i =
    (if (cells i).need_flush then 0 else 1) + count_flushed cells n (i + 1)

-- The second
unfoldable pub retain_from : Bool → ℕ → ℕ → M (Unit {0})
unfolding retain_reg
retain_from flag_r zero i = skip
retain_from flag_r (suc n) i = do
  ctx ← get
  retain_reg ((cache_of flag_r ctx).cells i).value.reg
  retain_from flag_r n (i + 1)

unfoldable pub retain : Bool → M (Unit {0})
unfolding count_flushed retain_from
retain flag_r = do
  ctx ← get
  let cache = cache_of flag_r ctx
  let k = count_flushed cache.cells cache.len 0
  let n = cache.len - k
  modify (with_cache flag_r (record { cells = move_down cache.cells k n; len = n }))
  retain_from flag_r n 0
