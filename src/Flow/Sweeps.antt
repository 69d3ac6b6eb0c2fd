-- ===== src/Flow/Sweeps.antt =====
-- src/jit.c, "Stack cache": popping, discarding, flushing and clearing are steady.
use buxn_jit.Prelude.{ℕ, zero, suc, ◌+◌, ◌-◌, ◌==◌, Bool, true, false}
use buxn_jit.Lir.{op2, reg, imm, shl, or}
use buxn_jit.Regs.{release_reg}
use buxn_jit.Cache.Spill.{set_len}
use buxn_jit.Cache.Pop.{
  pop_from_mem, pop_byte, pop, top_cell, discard_from_mem, discard_byte, discard,
}
use buxn_jit.Cache.Sweep.{
  flush_from, flush, clear_rounds, clear, clear_stack_caches, retain_from, retain,
}
use buxn_jit.Ctx.{Cache, cache_of, emit, pure, ◌>>=◌, ◌>>◌, get, modify, with_cache}
use buxn_jit.Flow.Keeps.{Keeps}
use buxn_jit.Flow.Steady.{
  Steady, Steady-bind, Steady-then, Steady-pure, Steady-get, Steady-with_cache, Steady-if,
  Steady-when, steady_rules,
}
use buxn_jit.Flow.Caches.{
  set_mem_base-Steady, flush_cell-Steady, spill-Steady, alloc_reg-Steady, retain_reg-Steady,
  release_reg-Steady,
}

pub pop_from_mem-Steady : (flag_2 flag_r : Bool) → Keeps Steady (pop_from_mem flag_2 flag_r)
unfolding pop_from_mem
pop_from_mem-Steady flag_2 flag_r =
    search (set_mem_base-Steady, alloc_reg-Steady, steady_rules) depth 40 fits 5000

pub pop_byte-Steady : (flag_r : Bool) → Keeps Steady (pop_byte flag_r)
unfolding pop_byte
pop_byte-Steady flag_r =
    search (pop_from_mem-Steady, alloc_reg-Steady, release_reg-Steady, steady_rules) depth 40 fits
      5000

pub discard_from_mem-Steady : (flag_2 flag_r : Bool) → Keeps Steady (discard_from_mem flag_2 flag_r)
unfolding discard_from_mem
discard_from_mem-Steady flag_2 flag_r = search steady_rules depth 40 fits 5000

pub discard_byte-Steady : (flag_r : Bool) → Keeps Steady (discard_byte flag_r)
unfolding discard_byte
discard_byte-Steady flag_r =
    search (discard_from_mem-Steady, release_reg-Steady, steady_rules) depth 40 fits 5000

joined-Steady :
    (flag_r : Bool) (n : ℕ)
    → Keeps Steady (do
      hi ← pop_byte flag_r
      ctx ← get
      let low = (cache_of flag_r ctx).cells n
      emit (op2 shl hi (reg hi) (imm 8))
      emit (op2 or hi (reg hi) (reg low.value.reg))
      release_reg low.value.reg
      pure hi)
joined-Steady flag_r n =
    search (pop_byte-Steady, release_reg-Steady, steady_rules) depth 40 fits 5000

set_len-Steady : (flag_r : Bool) (n : ℕ) → Keeps Steady (set_len flag_r n)
set_len-Steady flag_r n = Steady-with_cache flag_r (λ ctx. record (cache_of flag_r ctx) { len = n })

pub pop-Steady : (flag_r flag_2 : Bool) → Keeps Steady (pop flag_r flag_2)
unfolding pop
pop-Steady flag_r false = pop_byte-Steady flag_r
pop-Steady flag_r true = Steady-bind get _ Steady-get λ ctx.
    Steady-if ((cache_of flag_r ctx).len == 0) _ _ (pop_from_mem-Steady true flag_r) (
      Steady-then (set_len flag_r ((cache_of flag_r ctx).len - 1)) _
        (set_len-Steady flag_r ((cache_of flag_r ctx).len - 1))
        (Steady-if (top_cell flag_r ctx).value.is_short _ _ (Steady-pure _)
          (joined-Steady flag_r ((cache_of flag_r ctx).len - 1))))

pub discard-Steady : (flag_r flag_2 : Bool) → Keeps Steady (discard flag_r flag_2)
unfolding discard
discard-Steady flag_r false = discard_byte-Steady flag_r
discard-Steady flag_r true = Steady-bind get _ Steady-get λ ctx.
    Steady-if ((cache_of flag_r ctx).len == 0) _ _ (discard_from_mem-Steady true flag_r) (
      Steady-then (set_len flag_r ((cache_of flag_r ctx).len - 1)) _
        (set_len-Steady flag_r ((cache_of flag_r ctx).len - 1))
        (Steady-then _ _ (release_reg-Steady (top_cell flag_r ctx).value.reg) (
          Steady-if (top_cell flag_r ctx).value.is_short _ _ (Steady-pure tt)
            (discard_byte-Steady flag_r))))

pub flush_from-Steady : (flag_r : Bool) (n i : ℕ) → Keeps Steady (flush_from flag_r n i)
unfolding flush_from
flush_from-Steady flag_r zero i = Steady-pure tt
flush_from-Steady flag_r (suc n) i = Steady-bind _ _ Steady-get λ ctx.
    Steady-then _ _ (Steady-when _ _ (flush_cell-Steady flag_r i))
      (flush_from-Steady flag_r n (i + 1))

pub flush-Steady : (flag_r : Bool) → Keeps Steady (flush flag_r)
unfolding flush
flush-Steady flag_r = search (flush_from-Steady, steady_rules) depth 40 fits 5000

pub clear_rounds-Steady : (flag_r : Bool) (n : ℕ) → Keeps Steady (clear_rounds flag_r n)
unfolding clear_rounds
clear_rounds-Steady flag_r zero = Steady-pure tt
clear_rounds-Steady flag_r (suc n) =
    Steady-then _ _ (search (spill-Steady, steady_rules)) (clear_rounds-Steady flag_r n)

pub clear-Steady : (flag_r : Bool) → Keeps Steady (clear flag_r)
unfolding clear
clear-Steady flag_r = search (clear_rounds-Steady, steady_rules) depth 40 fits 5000

pub clear_stack_caches-Steady : Keeps Steady clear_stack_caches
unfolding clear_stack_caches
clear_stack_caches-Steady = search (clear-Steady, steady_rules) depth 40 fits 5000

pub retain_from-Steady : (flag_r : Bool) (n i : ℕ) → Keeps Steady (retain_from flag_r n i)
unfolding retain_from
retain_from-Steady flag_r zero i = Steady-pure tt
retain_from-Steady flag_r (suc n) i = Steady-bind _ _ Steady-get λ ctx.
    Steady-then _ _ (retain_reg-Steady ((cache_of flag_r ctx).cells i).value.reg)
      (retain_from-Steady flag_r n (i + 1))

put_cache-Steady : (flag_r : Bool) (cache : Cache) → Keeps Steady (modify (with_cache flag_r cache))
put_cache-Steady flag_r cache = Steady-with_cache flag_r (λ ctx. cache)

pub retain-Steady : (flag_r : Bool) → Keeps Steady (retain flag_r)
unfolding retain
retain-Steady flag_r =
    search (retain_from-Steady, put_cache-Steady, steady_rules) depth 40 fits 5000
